-- ===== src/DataStructs/Examples/Rings.antt =====
-- The theorems on circ_list.c, at a ring of two nodes.
use c_lang_project.DataStructs.Examples.{keep}
use c_lang_project.DataStructs.CircList.{destroy}
use c_lang_project.Common.{[], arith, none, refl, some, ◌∷◌, ◌≡◌, ◌≢◌}
use c_lang_project.Lang.Returns.{Returns}
use c_lang_project.DataStructs.ListRep.{Node, node}
use c_lang_project.DataStructs.CircList
use c_lang_project.DataStructs.CircList.Ring.{Ring, destroy-leaks}
use c_lang_project.DataStructs.List.{free_data}
use c_lang_project.Lang.Memory.{Heap, write, Ptr}

abbrev ring : Heap Node
ring = write (write (λ _. none) 1 (some (node 10 2))) 2 (some (node 20 1))

ring-Ring : Ring ring 2 ((1, 10) ∷ []) 20
unfolding write
ring-Ring = (ground arith, refl, refl, (ground arith, refl, refl, tt))

destroy-leaks_example :
    Returns
      (λ r g. (r.1 ≡ free_data keep 20 []) × (g 2 ≡ none) × ((a : Ptr) → a ≢ 2 → g a ≡ ring a))
      (CircList.destroy 2 2 keep [] ring)
destroy-leaks_example = destroy-leaks 2 ring 2 ((1, 10) ∷ []) 20 keep [] ring-Ring (omega arith)
