-- ===== src/Algorithms.antt =====
-- src/libs/algorithms/minmax.c: the least and the greatest of an array, by halving. The array is
-- the list of its `n` elements; a run needs fuel for the depth of the halving.
pub mod Extremes
pub mod Examples
use c_lang_project.Lang.Memory.{precondition_failed}
use c_lang_project.Common.Int.{ltb_ℤ, ℤ}
use c_lang_project.Common.{◌/◌, List, [], drop, if◌then◌else◌, length, suc, take, zero, ℕ, ◌∷◌}
use c_lang_project.Lang.Result.{◌>>=◌, Result, done, no_fuel, raise}

unfoldable pub minmax : ℕ → List ℤ → Result (ℤ × ℤ)
minmax zero a = no_fuel
minmax (suc k) [] = raise precondition_failed
minmax (suc k) (x ∷ []) = done (x, x)
minmax (suc k) (x ∷ y ∷ []) = if ltb_ℤ x y then done (x, y) else done (y, x)
minmax (suc k) (x ∷ y ∷ z ∷ a) = do
  let half = length (x ∷ y ∷ z ∷ a) / 2
  (low, high) ← minmax k (take half (x ∷ y ∷ z ∷ a))
  (min2, max2) ← minmax k (drop half (x ∷ y ∷ z ∷ a))
  done (if ltb_ℤ min2 low then min2 else low, if ltb_ℤ high max2 then max2 else high)
