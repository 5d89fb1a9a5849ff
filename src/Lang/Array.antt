-- ===== src/Lang/Array.antt =====
-- C arrays of pointers, as lists: access within a block, exchange of two cells, and how often a
-- value lies in the first cells.
pub mod Access
use c_lang_project.Common.{
  ℕ, zero, suc, ◌+◌, List, [], ◌∷◌, ltb, get_elem?, set, length, if◌then◌else◌, ◌==◌,
}
use c_lang_project.Lang.Result.{Result, done, undefined, from_option}

-- `a[i] = v`: a write outside the block is undefined.
unfoldable pub store_at : List ℕ → ℕ → ℕ → Result (List ℕ)
store_at a i v = if ltb i (length a) then done (set a i v) else undefined

-- `a[i]`
unfoldable pub load_at : List ℕ → ℕ → Result ℕ
load_at a i = from_option (get_elem? a i)

-- The value of a cell, 0 outside the block.
unfoldable pub at : List ℕ → ℕ → ℕ
at [] i = 0
at (x ∷ a) zero = x
at (x ∷ a) (suc i) = at a i

unfoldable pub swap : List ℕ → ℕ → ℕ → List ℕ
swap a i j = set (set a i (at a j)) j (at a i)

-- How many of the first `n` cells hold `x`.
unfoldable pub count : ℕ → List ℕ → ℕ → ℕ
count x a zero = 0
count x a (suc n) = count x a n + (if at a n == x then 1 else 0)
