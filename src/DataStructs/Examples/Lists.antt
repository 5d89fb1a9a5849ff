-- ===== src/DataStructs/Examples/Lists.antt =====
-- The theorems on list.c and list_stack.c, at two linked nodes.

use c_lang_project.DataStructs.Examples.{two, two-IsList, two_cells}
use c_lang_project.DataStructs.List.{
  append, delete_head, delete_node, find_key, insert, print_list, traverse, free_data,
}
use c_lang_project.Lang.Memory.{postcondition_failed, throw}
use c_lang_project.Lang.Returns.{Returns}
use c_lang_project.DataStructs.List.Delete.{Deleted, delete_node-remove, delete_node-throws}
use c_lang_project.Common.{arith, refl, ◌≡◌}
use c_lang_project.DataStructs.List

delete_node-remove_example : Returns (Deleted two 2 two_cells) (List.delete_node 3 1 2 two)
delete_node-remove_example = delete_node-remove 3 two 1 2 two_cells two-IsList refl (omega arith)

delete_node-throws_example : List.delete_node 3 1 7 two ≡ throw postcondition_failed
delete_node-throws_example =
    delete_node-throws 3 two 1 7 two_cells two-IsList refl (ground arith) (omega arith)
