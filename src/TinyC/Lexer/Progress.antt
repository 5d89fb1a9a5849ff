-- ===== src/TinyC/Lexer/Progress.antt =====
-- `next_sym` of tinyc.c gets on: it reads a character, or comes to the end of the text.

use c_lang_project.TinyC.Outcome.{Within, Within-mono, Within-bind, erring, faulty, within}
use c_lang_project.TinyC.Lexer.{
  Lexer, is_digit, is_name, is_sym, long_sym, name, number, word_sym, eoi, is_letter, keyword,
  next_from, next_sym, punctuation,
}
use c_lang_project.Common.{
  ◌*◌, ◌+◌, ◌-◌, Bool-cases, List, [], ◌^◌, arith, if◌then◌else◌, inl, inr, length, ltb, ℕ, ◌∷◌,
  ◌≤◌, ◌<◌, ◌==◌, Option-cases, false, true, ◌||◌, ◌≡◌,
}

-- What is left to read, with the symbol at hand.
abbrev pub left : Lexer → ℕ
left l = length l.text + (if is_sym l.sym eoi then 0 else 1)

number-left : (n : ℕ) (text : List ℕ) → Within (λ r. length r.1 ≤ length text) (number n text)
unfolding number
number-left n [] = within (omega arith)
number-left n (ch ∷ text) =
    let m : ℕ = n * 10 + (ch - 48) in
    elim (Bool-cases (is_digit ch)) [
      | inl digit ↦ rw digit (elim (Bool-cases (ltb m (2 ^ 31))) [
        | inl small ↦ rw small (Within-mono (number-left m text) λ r h. omega arith)
        | inr large ↦ rw large faulty
      ])
      | inr other ↦ rw other (within (omega arith))
    ]

-- A number reads a digit at least.
number-first :
    (n ch : ℕ) (text : List ℕ)
    → is_digit ch ≡ true
    → Within (λ r. length r.1 ≤ length text) (number n (ch ∷ text))
unfolding number
number-first n ch text digit =
    let m : ℕ = n * 10 + (ch - 48) in
    rw digit (elim (Bool-cases (ltb m (2 ^ 31))) [
      | inl small ↦ rw small (number-left m text)
      | inr large ↦ rw large faulty
    ])

name-left : (text : List ℕ) → length (name text).1 ≤ length text
unfolding name
name-left [] = omega arith
name-left (ch ∷ text) = elim (Bool-cases (is_name ch)) [
  | inl more ↦ rw more (omega (arith, name-left text))
  | inr other ↦ rw other (omega arith)
]

name-first :
    (ch : ℕ) (text : List ℕ) → is_letter ch ≡ true → length (name (ch ∷ text)).1 ≤ length text
unfolding name
name-first ch text letter = rw letter (name-left text)

word_sym-Within : (w : List ℕ) → Within (λ _. Unit) (word_sym w)
unfolding word_sym
word_sym-Within w = elim (Option-cases (keyword w)) [
  | inl e ↦
      rw (word_sym, e)
        (elim (Bool-cases (length w == 1)) [
          | inl single ↦ rw single (within tt)
          | inr long ↦ rw long erring
        ])
  | inr (s, e) ↦ rw (word_sym, e) (within tt)
]

long_sym-left :
    (l : Lexer) (ch : ℕ) (text : List ℕ)
    → Within (λ l'. length l'.text ≤ length text) (long_sym l ch text)
unfolding long_sym
long_sym-left l ch text = elim (Bool-cases (is_digit ch)) [
  | inl digit ↦ rw digit (Within-bind (number-first 0 ch text digit) λ r h. within h)
  | inr other ↦ rw other (elim (Bool-cases (is_letter ch)) [
    | inl letter ↦ rw letter (elim (Bool-cases (ltb (length (name (ch ∷ text)).0) 100)) [
      | inl fits ↦ rw fits (
          Within-bind (word_sym-Within (name (ch ∷ text)).0)
            λ s _. within (name-first ch text letter))
      | inr overrun ↦ rw overrun faulty
    ])
    | inr none_of ↦ rw none_of erring
  ])
]

left-le : (l : Lexer) → left l ≤ length l.text + 1
left-le l = ground arith

next_from-left :
    (l : Lexer) (text : List ℕ) → Within (λ l'. left l' ≤ length text) (next_from l text)
unfolding next_from
next_from-left l [] = within (omega arith)
next_from-left l (ch ∷ text) = elim (Bool-cases ((ch == 32) || (ch == 10))) [
  | inl space ↦ rw space (Within-mono (next_from-left l text) λ l' h. omega arith)
  | inr other ↦ rw other (elim (Option-cases (punctuation ch)) [
    | inl e ↦ rw e (Within-mono (long_sym-left l ch text) λ l' h. omega (arith, left-le l'))
    | inr (s, e) ↦ rw e (within (omega (arith, left-le (record l { text = text; sym = s }))))
  ])
]

-- Unless the symbol at hand is the end of the text, next_sym ends with less left to read, where
-- the symbol at hand counts as one more character, or with a syntax error or undefined behaviour.
pub next_sym-left :
    (l : Lexer) → is_sym l.sym eoi ≡ false → Within (λ l'. left l' < left l) (next_sym l)
unfolding next_sym
next_sym-left l more = Within-mono (next_from-left l l.text) λ l' h. ground arith
