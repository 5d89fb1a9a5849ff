-- ===== src/Lang/Array/Access.antt =====
-- Reading and counting the cells of an array after a write or an exchange.
use c_lang_project.DataStructs.Queue.Fifo.{last}
use c_lang_project.Lang.Result.{done}
use native.Mathlib.Numerals.{add-one}
use c_lang_project.Lang.Array.{at, count, load_at, store_at, swap}
use c_lang_project.Common.{
  ◌+◌, ◌<◌, ◌==◌, Bool-cases, List, [], arith, if◌then◌else◌, inl, inr, length, length-set, refl,
  set, suc, zero, ℕ, ◌∙◌, ◌∷◌, ◌≡◌, ◌≤◌,
}

pub load_at-ok : (a : List ℕ) (i : ℕ) → i < length a → load_at a i ≡ done (at a i)
unfolding load_at at
load_at-ok [] i h = absurd (omega arith)
load_at-ok (x ∷ a) zero h = refl
load_at-ok (x ∷ a) (suc i) h = load_at-ok a i (omega arith)

pub store_at-ok : (a : List ℕ) (i v : ℕ) → i < length a → store_at a i v ≡ done (set a i v)
unfolding store_at
store_at-ok a i v h = ground arith

pub at-set :
    (a : List ℕ) (i j v : ℕ) → i < length a → at (set a i v) j ≡ (if i == j then v else at a j)
unfolding at
at-set [] i j v h = absurd (omega arith)
at-set (x ∷ a) zero zero v h = refl
at-set (x ∷ a) zero (suc j) v h = ground arith
at-set (x ∷ a) (suc i) zero v h = ground arith
at-set (x ∷ a) (suc i) (suc j) v h = ground (arith, at-set a i j v)

pub length-swap : (a : List ℕ) (i j : ℕ) → length (swap a i j) ≡ length a
unfolding swap
length-swap a i j = length-set (set a i (at a j)) j (at a i) ∙ length-set a i (at a j)

pub at-swap :
    (a : List ℕ) (i j c : ℕ)
    → i < length a
    → j < length a
    → at (swap a i j) c ≡ (if j == c then at a i else if i == c then at a j else at a c)
unfolding swap
at-swap a i j c hi hj =
    ground (
      arith,
      at-set (set a i (at a j)) j c (at a i),
      at-set a i c (at a j),
      length-set a i (at a j),
    )

-- A write at or above `n` is not counted.
pub count-set_above :
    (x : ℕ) (a : List ℕ) (i v n : ℕ) → i < length a → n ≤ i → count x (set a i v) n ≡ count x a n
unfolding count
count-set_above x a i v zero h k = refl
count-set_above x a i v (suc n) h k = ground (arith, at-set a i n v, count-set_above x a i v n)

-- A write below `n` trades the old value for the new one.
pub count-set :
    (x : ℕ) (a : List ℕ) (i v n : ℕ)
    → i < length a
    → i < n
    → count x (set a i v) n + (if at a i == x then 1 else 0)
      ≡ count x a n + (if v == x then 1 else 0)
unfolding count
count-set x a i v zero h k = absurd (omega arith)
count-set x a i v (suc n) h k = elim (Bool-cases (i == n)) [
  | inl last ↦ ground (arith, at-set a i n v, count-set_above x a i v n)
  | inr other ↦ ground (arith, at-set a i n v, count-set x a i v n)
]

pub count-swap :
    (x : ℕ) (a : List ℕ) (i j n : ℕ)
    → i < length a
    → j < length a
    → i < n
    → j < n
    → count x (swap a i j) n ≡ count x a n
unfolding swap
count-swap x a i j n hi hj ki kj = ground (
  arith,
  count-set x (set a i (at a j)) j (at a i) n,
  count-set x a i (at a j) n,
  at-set a i j (at a j),
  length-set a i (at a j),
)

pub count-add-one :
    (x : ℕ) (a : List ℕ) (n : ℕ) → count x a (n + 1) ≡ count x a n + (if at a n == x then 1 else 0)
unfolding count
count-add-one x a n = rw add-one
