-- ===== src/DataStructs/ListRep.antt =====
-- src/libs/data_structs/list_rep.c and include/data_structs/list_rep.h: the node of the linked
-- lists, and its allocation. `Chain` is what a run of linked nodes stands for.
pub mod Chain
pub mod Apart
use c_lang_project.Common.{ℕ}
use c_lang_project.Lang.Memory.{Ptr, null, Heap, Cmd, memory_alloc, memory_free}

-- `Object_T` is a pointer that the lists never follow.
abbrev pub Object : Type 0
Object = ℕ

pub record Node : Type 0 where
  pub datapointer : Object
  pub next : Ptr

abbrev pub node : Object → Ptr → Node
node d p = record { datapointer = d; next = p }

-- `List__allocate_node`
unfoldable pub allocate_node : Ptr → Object → Cmd Node Ptr
unfolding memory_alloc
allocate_node fresh d = memory_alloc fresh (node d null)

-- `List__free_node`
unfoldable pub free_node : Ptr → Cmd Node (Unit {0})
unfolding memory_free
free_node p = memory_free p
