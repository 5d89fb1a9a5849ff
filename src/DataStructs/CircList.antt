-- ===== src/DataStructs/CircList.antt =====
-- src/libs/data_structs/circ_list.c: a ring of nodes, and the pointer to its last one. A function
-- that is given a `CircList_T*` returns the new pointer. A walk runs on fuel.
pub mod Ring
use c_lang_project.DataStructs.Heap.Delete.{last}
use c_lang_project.DataStructs.ListRep.{Node, Object, allocate_node, free_node}
use c_lang_project.Common.{
  ◌+◌, ◌==◌, Bool, Option, false, if◌then◌else◌, none, some, suc, true, zero, ℕ,
}
use c_lang_project.Lang.Memory.{
  ◌>>=◌, ◌>>◌, Cmd, Ptr, ensure, load, memory_free, null, out_of_fuel, pure,
}
use c_lang_project.DataStructs.List.{set_next, free_data}

-- The walk to the node before `p`, from the first one.
unfoldable pub find_previous : ℕ → Ptr → Ptr → Ptr → Cmd Node Ptr
find_previous zero list iter p = λ _. out_of_fuel
find_previous (suc k) list iter p =
    let walk : Cmd Node Ptr = (do
      n ← load iter
      if n.next == p then pure iter else find_previous k list n.next p) in
    if iter == list then pure iter else walk

unfoldable pub delete_node : ℕ → Ptr → Ptr → Cmd Node Ptr
delete_node k list p =
    let unlink : Ptr → Cmd Node Ptr = λ next. (do
      l ← load list
      iter ← find_previous k list l.next p
      m ← load iter
      ensure (m.next == p)
      set_next iter next
      free_node p
      pure (if p == list then iter else list)) in
    do n ← load p; if p == n.next then (do free_node p; pure null) else unlink n.next

unfoldable pub new : Ptr
new = null

unfoldable pub is_empty : Ptr → Bool
is_empty list = list == null

unfoldable pub insert : Ptr → Ptr → Object → Cmd Node Ptr
insert fresh list d =
    let behind : Ptr → Cmd Node Ptr =
      λ p. (do n ← load list; set_next p n.next; set_next list p; pure list) in
    do p ← allocate_node fresh d; if is_empty list then (do set_next p p; pure p) else behind p

unfoldable pub append : Ptr → Ptr → Object → Cmd Node Ptr
append fresh list d = do list' ← insert fresh list d; n ← load list'; pure n.next

-- The data handed out, `none` where the C function returns `false`, and the new list pointer.
unfoldable pub delete : ℕ → Ptr → Cmd Node (Option Object × Ptr)
delete k list = if is_empty list then pure (none, list) else do
  l ← load list
  n ← load l.next
  list' ← delete_node k list list
  pure (some n.datapointer, list')

-- The loop of `CircList_traverse`, behind the node `tmp`.
unfoldable pub traverse_loop :
    {S : Type 0} → ℕ → Ptr → (Object → S → Bool × S) → Ptr → S → Cmd Node (Bool × S)
traverse_loop zero list apply tmp s = λ _. out_of_fuel
traverse_loop (suc k) list apply tmp s = do
  t ← load tmp
  n ← load t.next
  let (more, s') = apply n.datapointer s
  let rest = if t.next == list then pure (true, s') else traverse_loop k list apply t.next s'
  if more then rest else pure (false, s')

unfoldable pub traverse : {S : Type 0} → ℕ → Ptr → (Object → S → Bool × S) → S → Cmd Node (Bool × S)
traverse k list apply s =
    if is_empty list then pure (true, s) else traverse_loop k list apply list s

unfoldable pub iterator : Ptr → Ptr → Cmd Node Ptr
iterator list last =
    let first : Cmd Node Ptr =
      if list == null then pure null else (do n ← load list; pure n.next) in
    let next : Cmd Node Ptr = if last == list then pure null else (do n ← load last; pure n.next) in
    if last == null then first else next

unfoldable pub length_loop : ℕ → Ptr → Ptr → ℕ → Cmd Node ℕ
length_loop zero list curr n = λ _. out_of_fuel
length_loop (suc k) list curr n = do
  curr' ← iterator list curr
  if curr' == null then pure n else length_loop k list curr' (n + 1)

unfoldable pub size : ℕ → Ptr → Cmd Node ℕ
size k list = length_loop k list null 0

-- The loop of `CircList_destroy`; `tmp` is `next_tmp`.
unfoldable pub destroy_loop :
    {S : Type 0} → ℕ → Ptr → Ptr → Option (Object → S → S) → S → Cmd Node (Ptr × S)
destroy_loop zero list tmp free s = λ _. out_of_fuel
destroy_loop (suc k) list tmp free s = if list == tmp then pure (list, s) else do
  n ← load list
  memory_free list
  destroy_loop k n.next n.next free (free_data free n.datapointer s)

unfoldable pub destroy : {S : Type 0} → ℕ → Ptr → Option (Object → S → S) → S → Cmd Node (Ptr × S)
destroy k list free s = destroy_loop k list null free s

unfoldable pub free_list : ℕ → Ptr → Cmd Node (Ptr × Unit {0})
free_list k list = destroy k list none tt
