-- ===== src/DataStructs/Examples/Trees.antt =====
-- The theorems on binary_tree.c, at a tree of three nodes.
use c_lang_project.Lang.Memory.{Heap, null, ok, write}
use c_lang_project.DataStructs.ListRep.{Object}
use c_lang_project.DataStructs.BinaryTree.Orders.{InHeap, Tree, branch, leaf, traverse-listing}
use c_lang_project.Common.{Bool, List, [], arith, false, ltb, none, refl, some, ◌∷◌, ◌≡◌}
use c_lang_project.DataStructs.BinaryTree
use c_lang_project.DataStructs.BinaryTree.{
  Order, pre_order, in_order, post_order, TreeNode, make_root, traverse, tree_node,
}

abbrev left_tree : Tree
left_tree = branch 1 10 leaf leaf

abbrev right_tree : Tree
right_tree = branch 2 20 leaf leaf

abbrev tree : Tree
tree = branch 3 30 left_tree right_tree

abbrev leaves : Heap TreeNode
leaves =
    write (write (λ _. none) 1 (some (tree_node 10 null null))) 2 (some (tree_node 20 null null))

abbrev nodes_of_tree : Heap TreeNode
nodes_of_tree = write leaves 3 (some (tree_node 30 1 2))

left-InHeap : InHeap leaves left_tree
unfolding write
left-InHeap = (ground arith, refl, tt, tt)

right-InHeap : InHeap leaves right_tree
unfolding write
right-InHeap = (ground arith, refl, tt, tt)

tree-InHeap : InHeap nodes_of_tree tree
unfolding write
tree-InHeap = (ground arith, refl, (ground arith, refl, tt, tt), (ground arith, refl, tt, tt))

unused_3 : leaves 3 ≡ none
unfolding write
unused_3 = refl

abbrev until_30 : Object → List Object → Bool × List Object
until_30 d ds = (ltb d 30, d ∷ ds)

traverse-listing_example :
    BinaryTree.traverse 4 3 until_30 in_order [] nodes_of_tree
    ≡ ok (false, 30 ∷ 10 ∷ []) nodes_of_tree
traverse-listing_example =
    traverse-listing 4 nodes_of_tree tree until_30 in_order [] tree-InHeap (omega arith)
