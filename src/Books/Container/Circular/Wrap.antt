-- ===== src/Books/Container/Circular/Wrap.antt =====
-- Items in an array from an index on, which wraps.
use c_lang_project.Lang.Array.Access.{at-set}
use c_lang_project.Lang.Array.{at}
use c_lang_project.Common.{
  ◌%◌, ◌+◌, ◌++◌, ◌-◌, ◌<◌, ==-false, ==-true, List, [], ap, arith, length, set, subst, sym, ℕ, ◌∙◌,
  ◌∷◌, ◌≡◌,
}
use native.Mathlib.Nat.{mod-lt, mod-eq_of_lt, mod-add-mod, mod-eq-sub-mod, mod-mod}
use native.Mathlib.Decide.{dec_lt}

abbrev pub Queued : List ℕ → ℕ → ℕ → List ℕ → Type 0
Queued a n p [] = Unit {0}
Queued a n p (x ∷ xs) = (at a (p % n) ≡ x) × Queued a n (p + 1) xs

-- Indices less than `n` apart lie in different cells.
pub mod-ne : (n p d : ℕ) → 0 < d → d < n → ¬ (p % n ≡ (p + d) % n)
mod-ne n p d apart few e =
    let r = mod-lt p {m = n} (omega arith) in
    let e' : p % n ≡ (p % n + d) % n = e ∙ sym (mod-add-mod p n d) in
    elim (dec_lt (p % n + d) n) [
      | yes h ↦ omega (arith, e' ∙ mod-eq_of_lt h)
      | no h ↦
          let low : p % n + d - n < n = omega arith in
          omega (arith, e' ∙ mod-eq-sub-mod (omega arith) ∙ mod-eq_of_lt low)
    ]

Queued-same :
    (a : List ℕ) (n p q : ℕ) (xs : List ℕ) → p % n ≡ q % n → Queued a n p xs → Queued a n q xs
Queued-same a n p q [] e h = tt
Queued-same a n p q (x ∷ xs) e (here, rest) = (
  ap (at a) (sym e) ∙ here,
  Queued-same a n (p + 1) (q + 1) xs
      (sym (mod-add-mod p n 1) ∙ ap (λ r. (r + 1) % n) e ∙ mod-add-mod q n 1) rest,
)

pub Queued-mod : (a : List ℕ) (n p : ℕ) (xs : List ℕ) → Queued a n p xs → Queued a n (p % n) xs
Queued-mod a n p xs h = Queued-same a n p (p % n) xs (sym (mod-mod p n)) h

-- A write behind the last item.
pub Queued-snoc :
    (a : List ℕ) (n p x : ℕ) (xs : List ℕ)
    → length a ≡ n
    → length xs < n
    → Queued a n p xs
    → Queued (set a ((p + length xs) % n) x) n p (xs ++ x ∷ [])
Queued-snoc a n p x [] whole room h = (
  at-set a ((p + 0) % n) (p % n) x (omega (arith, mod-lt (p + 0) {m = n} (omega arith)))
      ∙ rw (==-true ((p + 0) % n) (p % n) (ap (λ k. k % n) (omega arith))),
  tt,
)
Queued-snoc a n p x (y ∷ ys) whole room (here, rest) =
    let j = (p + length (y ∷ ys)) % n in
    let e : (p + 1 + length ys) % n ≡ j = ap (λ k. k % n) (omega arith) in
    (
      at-set a j (p % n) x (omega (arith, mod-lt (p + length (y ∷ ys)) {m = n} (omega arith)))
          ∙ rw
              (==-false j (p % n)
                λ same. mod-ne n p (length (y ∷ ys)) (omega arith) room (sym same))
              here,
      subst (λ k. Queued (set a k x) n (p + 1) (ys ++ x ∷ [])) e
          (Queued-snoc a n (p + 1) x ys whole (omega arith) rest),
    )
