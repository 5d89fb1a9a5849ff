-- ===== src/DataStructs/Heap/Order.antt =====
-- What src/libs/data_structs/heap.c asks of a comparison, and what a heap is.
use c_lang_project.Lang.Array.Access.{load_at-ok, store_at-ok}
use c_lang_project.Lang.Result.{done}
use c_lang_project.Lang.Array.{at, count, swap}
use c_lang_project.DataStructs.ListRep.{Object}
use c_lang_project.Common.{
  ◌<◌, List, arith, false, length, length-set, set, suc, true, zero, ℕ, ◌≡◌,
}
use c_lang_project.Common.Int.{ℤ}
use c_lang_project.DataStructs.Heap.{is_neg, is_pos, parent, exchange}

-- A comparison in the sense of `qsort`: a total order of the data, up to ties.
pub record IsOrder (cmp : Object → Object → ℤ) : Type 0 where
  pub flip : (x y : Object) → is_pos (cmp x y) ≡ is_neg (cmp y x)
  pub asym : (x y : Object) → is_neg (cmp x y) ≡ true → is_neg (cmp y x) ≡ false
  pub trans :
      (x y z : Object)
      → is_neg (cmp y x) ≡ false
      → is_neg (cmp z y) ≡ false
      → is_neg (cmp z x) ≡ false

-- `x` is not behind `y`.
abbrev pub Le : (Object → Object → ℤ) → Object → Object → Type 0
Le cmp x y = is_neg (cmp y x) ≡ false

-- In the first `n` cells no child comes before its parent.
abbrev pub IsHeap : (Object → Object → ℤ) → List Object → ℕ → Type 0
IsHeap cmp a n = (c : ℕ) → 0 < c → c < n → Le cmp (at a (parent c)) (at a c)

-- The first `n` cells hold the same data, as often.
abbrev pub SameItems : List Object → List Object → ℕ → Type 0
SameItems a b n = (x : Object) → count x a n ≡ count x b n

-- The children of `i` do not come before the parent of `i`.
abbrev pub IsBridged : (Object → Object → ℤ) → List Object → ℕ → ℕ → Type 0
IsBridged cmp a n i =
    (c : ℕ) → 0 < c → c < n → parent c ≡ i → 0 < i → Le cmp (at a (parent i)) (at a c)

pub exchange-ok :
    (a : List Object) (i j : ℕ) → i < length a → j < length a → exchange a i j ≡ done (swap a i j)
unfolding exchange swap
exchange-ok a i j hi hj = rw (
  load_at-ok a i hi,
  load_at-ok a j hj,
  store_at-ok a i (at a j) hi,
  store_at-ok (set a i (at a j)) j (at a i) (rw (length-set a i (at a j)) hj),
)

module _ (cmp : Object → Object → ℤ) (o : IsOrder cmp) where
  -- The root of a heap comes before all its data.
  pub root-least :
      (k : ℕ) (a : List Object) (n c : ℕ)
      → IsHeap cmp a n
      → c < k
      → c < n
      → Le cmp (at a 0) (at a c)
  root-least zero a n c h f l = absurd (omega arith)
  root-least (suc k) a n zero h f l = ground (arith, o.asym (at a 0) (at a 0))
  root-least (suc k) a n (suc c) h f l =
      o.trans (at a 0) (at a (parent (suc c))) (at a (suc c))
        (root-least k a n (parent (suc c)) h (omega arith) (omega arith))
        (h (suc c) (omega arith) l)
