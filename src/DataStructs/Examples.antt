-- ===== src/DataStructs/Examples.antt =====
-- A heap with two linked nodes, 1 with the data 10 and 2 with the data 20, on which the theorems
-- of the linked structures are tried out.
pub mod Lists
pub mod Queues
pub mod Arrays
pub mod Trees
pub mod Rings
pub mod Doubles
use c_lang_project.Lang.Memory.{Heap, null, write}
use c_lang_project.DataStructs.ListRep.{Node, Object, node}
use c_lang_project.Common.{List, Option, [], arith, none, refl, some, ◌∷◌, ◌≡◌}
use c_lang_project.DataStructs.ListRep.Chain.{Cells, IsList}

abbrev pub two : Heap Node
two = write (write (λ _. none) 1 (some (node 10 2))) 2 (some (node 20 null))

abbrev pub two_cells : Cells
two_cells = (1, 10) ∷ (2, 20) ∷ []

abbrev pub keep : Option (Object → List Object → List Object)
keep = some (λ d ds. d ∷ ds)

abbrev pub note : Object → List Object → List Object
note d ds = d ∷ ds

pub two-IsList : IsList two 1 two_cells
unfolding write
two-IsList = record {
  start = refl;
  chain = (ground arith, refl, refl, (ground arith, refl, refl, tt));
}

pub unused : two 3 ≡ none
unfolding write
unused = refl
