-- ===== src/DataStructs/Examples/Doubles.antt =====
-- The theorems on double_list.c, at a list of two nodes and one of a single node.
use c_lang_project.Common.{[], arith, none, refl, some, ◌∷◌, ◌≡◌}
use c_lang_project.DataStructs.DoubleList.Links.{Seg}
use c_lang_project.Lang.Returns.{Returns}
use c_lang_project.DataStructs.DoubleList.{Node, cut, delete_node, insert, node, paste}
use c_lang_project.Lang.Memory.{Heap, null, write}
use c_lang_project.DataStructs.DoubleList.Change.{Deleted, Inserted, delete_node-Seg, insert-Seg}
use c_lang_project.DataStructs.DoubleList.Splice.{Cut, Pasted, cut-Seg, paste-Seg}
use c_lang_project.DataStructs.ListRep.Chain.{Disjoint}
use c_lang_project.DataStructs.DoubleList

-- The nodes 1 and 2, and, by itself, the node 5.
abbrev lists : Heap Node
lists =
    write (write (write (λ _. none) 1 (some (node 10 2 null))) 2 (some (node 20 null 1))) 5
      (some (node 50 null null))

lists-Seg : Seg lists null null ((1, 10) ∷ (2, 20) ∷ [])
unfolding write
lists-Seg = (ground arith, refl, refl, (ground arith, refl, refl, tt))

single-Seg : Seg lists null null ((5, 50) ∷ [])
unfolding write
single-Seg = (ground arith, refl, refl, tt)

unused : lists 3 ≡ none
unfolding write
unused = refl

apart : Disjoint ((1, 10) ∷ (2, 20) ∷ []) ((5, 50) ∷ [])
apart a i = ground arith

insert-Seg_example :
    Returns
      (Inserted lists 3 30 ((1, 10) ∷ (3, 30) ∷ (2, 20) ∷ []))
      (DoubleList.insert 3 2 30 lists)
insert-Seg_example = insert-Seg lists 3 2 30 20 ((1, 10) ∷ []) [] lists-Seg (ground arith) unused

delete_node-Seg_example :
    Returns (Deleted lists 1 2 ((1, 10) ∷ []) [] 20) (DoubleList.delete_node 1 2 lists)
delete_node-Seg_example = delete_node-Seg lists 1 2 20 ((1, 10) ∷ []) [] lists-Seg

cut-Seg_example :
    Returns (Cut lists 1 [] ((1, 10) ∷ []) ((2, 20) ∷ [])) (DoubleList.cut 1 1 1 lists)
cut-Seg_example = cut-Seg lists 1 1 10 [] [] ((2, 20) ∷ []) lists-Seg

paste-Seg_example :
    Returns (Pasted lists 1 ((1, 10) ∷ (5, 50) ∷ (2, 20) ∷ [])) (DoubleList.paste 1 1 5 lists)
paste-Seg_example =
    paste-Seg 1 lists 1 5 10 50 [] ((2, 20) ∷ []) [] lists-Seg single-Seg apart (omega arith)
