-- ===== src/Algorithms/Examples.antt =====
-- minmax.c at a small array.
use c_lang_project.Common.Int.{negsuc, ℤ, pos}
use c_lang_project.Algorithms.{minmax}
use c_lang_project.Common.{List, [], arith, ◌∷◌}
use c_lang_project.Lang.Result.{Ends}
use c_lang_project.Algorithms.Extremes.{AreExtremes, minmax-AreExtremes}

abbrev numbers : List ℤ
numbers = pos 4 ∷ negsuc 2 ∷ pos 7 ∷ pos 0 ∷ pos 5 ∷ []

minmax-AreExtremes_example : Ends (λ r. AreExtremes numbers r.0 r.1) (minmax 5 numbers)
minmax-AreExtremes_example = minmax-AreExtremes 5 numbers (omega arith) (omega arith)
