-- ===== src/TinyC/Lexer.antt =====
-- The lexer of tinyc.c. `text` is what `getchar` has yet to return, behind the character `ch`; at
-- the end of the file nothing is left. A character is its number. An `int` that overflows and a
-- name that overruns `id_name` are undefined.
pub mod Progress
use c_lang_project.TinyC.Outcome.{Outcome, done, syntax_error, undefined}
use c_lang_project.Common.{
  ◌&&◌, ◌*◌, ◌+◌, ◌-◌, ◌==◌, Bool, List, Option, [], ◌^◌, false, if◌then◌else◌, leb, length, ltb,
  none, some, true, ◌||◌, ℕ, ◌∷◌,
}
use c_lang_project.TinyC.Outcome.{◌>>=◌}

pub data Sym : Type 0 where
  do_sym else_sym if_sym while_sym lbra rbra lpar rpar plus minus less_sym semi equal int_sym id_sym
        eoi :
      Sym

-- The numbers of the enumeration.
abbrev pub sym_code : Sym → ℕ
sym_code do_sym = 0
sym_code else_sym = 1
sym_code if_sym = 2
sym_code while_sym = 3
sym_code lbra = 4
sym_code rbra = 5
sym_code lpar = 6
sym_code rpar = 7
sym_code plus = 8
sym_code minus = 9
sym_code less_sym = 10
sym_code semi = 11
sym_code equal = 12
sym_code int_sym = 13
sym_code id_sym = 14
sym_code eoi = 15

abbrev pub is_sym : Sym → Sym → Bool
is_sym a b = sym_code a == sym_code b

pub record Lexer : Type 0 where
  pub text : List ℕ
  pub sym : Sym
  pub int_val : ℕ
  pub id_name : List ℕ

abbrev pub is_digit : ℕ → Bool
is_digit ch = leb 48 ch && leb ch 57

abbrev pub is_letter : ℕ → Bool
is_letter ch = leb 97 ch && leb ch 122

-- a letter or '_'
abbrev pub is_name : ℕ → Bool
is_name ch = is_letter ch || (ch == 95)

-- The loop over digits, with the value so far.
unfoldable pub number : ℕ → List ℕ → Outcome (ℕ × List ℕ)
number n [] = done (n, [])
number n (ch ∷ text) =
    let m = n * 10 + (ch - 48) in
    let rest = number m text in
    if is_digit ch then (if ltb m (2 ^ 31) then rest else undefined) else done (n, ch ∷ text)

-- The loop over a name: the name, and what is left.
unfoldable pub name : List ℕ → List ℕ × List ℕ
name [] = ([], [])
name (ch ∷ text) =
    let rest = name text in if is_name ch then (ch ∷ rest.0, rest.1) else ([], ch ∷ text)

-- `strcmp(a, b) == 0`
unfoldable pub same : List ℕ → List ℕ → Bool
same [] [] = true
same [] (_ ∷ _) = false
same (_ ∷ _) [] = false
same (a ∷ v) (b ∷ w) = (a == b) && same v w

-- The search in `words`: "do", "else", "if", "while".
unfoldable pub keyword : List ℕ → Option Sym
keyword w =
    if same (100 ∷ 111 ∷ []) w
    then some do_sym
    else if same (101 ∷ 108 ∷ 115 ∷ 101 ∷ []) w
    then some else_sym
    else if same (105 ∷ 102 ∷ []) w
    then some if_sym
    else if same (119 ∷ 104 ∷ 105 ∷ 108 ∷ 101 ∷ []) w
    then some while_sym
    else none

-- The symbol of a single character.
unfoldable pub punctuation : ℕ → Option Sym
punctuation ch =
    if ch == 123
    then some lbra
    else if ch == 125
    then some rbra
    else if ch == 40
    then some lpar
    else if ch == 41
    then some rpar
    else if ch == 43
    then some plus
    else if ch == 45
    then some minus
    else if ch == 60
    then some less_sym
    else if ch == 59
    then some semi
    else if ch == 61
    then some equal
    else none

-- The symbol of a name that has been read.
unfoldable pub word_sym : List ℕ → Outcome Sym
word_sym w = elim (keyword w) [
  | some s ↦ done s
  | none ↦ if length w == 1 then done id_sym else syntax_error
]

-- The `default` case, at the character `ch`.
unfoldable pub long_sym : Lexer → ℕ → List ℕ → Outcome Lexer
long_sym l ch text =
    if is_digit ch
    then (do
      (n, rest) ← number 0 (ch ∷ text)
      done (record { text = rest; sym = int_sym; int_val = n; id_name = l.id_name }))
    else if is_letter ch
    then (do
      let w = name (ch ∷ text)
      s ← (if ltb (length w.0) 100 then word_sym w.0 else undefined)
      done (record { text = w.1; sym = s; int_val = l.int_val; id_name = w.0 }))
    else syntax_error

-- `next_sym`, with `text` still to be read.
unfoldable pub next_from : Lexer → List ℕ → Outcome Lexer
next_from l [] = done (record l { text = []; sym = eoi })
next_from l (ch ∷ text) =
    let again = next_from l text in
    if (ch == 32) || (ch == 10) then again else elim (punctuation ch) [
      | some s ↦ done (record l { text = text; sym = s })
      | none ↦ long_sym l ch text
    ]

unfoldable pub next_sym : Lexer → Outcome Lexer
next_sym l = next_from l l.text
