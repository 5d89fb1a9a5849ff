-- ===== src/Books/Container/Items.antt =====
-- Items that lie in an array from cell 0 upwards, the last one on top.
use c_lang_project.Lang.Result.{done}
use c_lang_project.Lang.Array.Access.{at-set, load_at-ok}
use c_lang_project.Lang.Array.{at, load_at}
use c_lang_project.Common.{
  ◌<◌, ==-false, ==-true, List, [], arith, length, refl, set, ℕ, ◌∙◌, ◌∷◌, ◌≡◌, ◌-◌, ap, ◌≤◌,
}

abbrev pub Stacked : List ℕ → List ℕ → Type 0
Stacked a [] = Unit {0}
Stacked a (x ∷ xs) = (at a (length xs) ≡ x) × Stacked a xs

-- Arrays that agree below `n`.
abbrev pub Agree : ℕ → List ℕ → List ℕ → Type 0
Agree n a b = (i : ℕ) → i < n → at b i ≡ at a i

pub Stacked-Agree :
    (a b : List ℕ) (xs : List ℕ) → Agree (length xs) a b → Stacked a xs → Stacked b xs
Stacked-Agree a b [] e h = tt
Stacked-Agree a b (x ∷ xs) e (here, rest) =
    (e (length xs) (omega arith) ∙ here, Stacked-Agree a b xs (λ i l. e i (omega arith)) rest)

-- A write into the next free cell.
pub Stacked-set :
    (a : List ℕ) (x : ℕ) (xs : List ℕ)
    → length xs < length a
    → Stacked a xs
    → Stacked (set a (length xs) x) (x ∷ xs)
Stacked-set a x xs room h = (
  at-set a (length xs) (length xs) x room ∙ rw (==-true (length xs) (length xs) refl),
  Stacked-Agree a (set a (length xs) x) xs
      (λ i l. at-set a (length xs) i x room ∙ rw (==-false (length xs) i (omega arith))) h,
)

-- The item below `top`.
pub load_at-top :
    (a : List ℕ) (top x : ℕ) (xs : List ℕ)
    → Stacked a (x ∷ xs)
    → top ≡ length (x ∷ xs)
    → top ≤ length a
    → load_at a (top - 1) ≡ done x
load_at-top a top x xs h e fits =
    let below : top - 1 ≡ length xs = omega arith in
    rw below (load_at-ok a (length xs) (omega arith) ∙ ap done h.0)
