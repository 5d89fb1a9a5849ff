-- ===== src/DataStructs/List.antt =====
-- src/libs/data_structs/list.c: the linked list. A `List_T` is the pointer to the first node, and
-- a function that is given a `List_T*` returns the new pointer. A walk runs on fuel. A callback
-- works on a state of its own, `S`, and leaves the nodes alone.
pub mod Insert
pub mod Delete
pub mod Walk
use c_lang_project.Common.{
  ℕ, zero, suc, ◌+◌, Bool, true, false, Option, none, some, ◌==◌, if◌then◌else◌,
}
use mathlib.Core.Bool.{not}
use c_lang_project.Lang.Memory.{
  Ptr, null, Cmd, out_of_fuel, pure, ◌>>=◌, ◌>>◌, require, ensure, load, store, memory_free,
}
use c_lang_project.DataStructs.ListRep.{Object, Node, node, allocate_node, free_node}

unfoldable pub new : Ptr
new = null

unfoldable pub is_empty : Ptr → Bool
is_empty list = list == null

-- `NEXT(p) = q`
unfoldable pub set_next : Ptr → Ptr → Cmd Node (Unit {0})
set_next p q = do n ← load p; store p (record n { next = q })

unfoldable pub insert : Ptr → Ptr → Object → Cmd Node Ptr
insert fresh list d = do p ← allocate_node fresh d; set_next p list; pure p

unfoldable pub append_loop : ℕ → Ptr → Ptr → Cmd Node (Unit {0})
append_loop zero iter p = λ _. out_of_fuel
append_loop (suc k) iter p = do
  n ← load iter
  if n.next == null then set_next iter p else append_loop k n.next p

unfoldable pub append : ℕ → Ptr → Ptr → Object → Cmd Node Ptr
append k fresh list d = do
  p ← allocate_node fresh d
  if is_empty list then pure p else (do append_loop k list p; pure list)

-- The walk to the node before `p`; null if there is none.
unfoldable pub find_previous : ℕ → Ptr → Ptr → Cmd Node Ptr
find_previous zero iter p = λ _. out_of_fuel
find_previous (suc k) iter p =
    if iter == null
    then pure null
    else do n ← load iter; if n.next == p then pure iter else find_previous k n.next p

-- The new list pointer; the node at `p` is freed.
unfoldable pub delete_node : ℕ → Ptr → Ptr → Cmd Node Ptr
delete_node k list p = if list == p then (do n ← load list; free_node p; pure n.next) else do
  iter ← find_previous k list p
  ensure (not (iter == null))
  n ← load p
  set_next iter n.next
  free_node p
  pure list

-- The deleted data, `none` where the C function returns `false`, and the new list pointer.
unfoldable pub delete_head : ℕ → Ptr → Cmd Node (Option Object × Ptr)
delete_head k list =
    if is_empty list
    then pure (none, list)
    else do n ← load list; list' ← delete_node k list list; pure (some n.datapointer, list')

unfoldable pub traverse : {S : Type 0} → ℕ → Ptr → (Object → S → Bool × S) → S → Cmd Node (Bool × S)
traverse zero list apply s = λ _. out_of_fuel
traverse (suc k) list apply s = if is_empty list then pure (true, s) else do
  n ← load list
  let (more, s') = apply n.datapointer s
  if more then traverse k n.next apply s' else pure (false, s')

unfoldable pub iterator : Ptr → Ptr → Cmd Node Ptr
iterator list last = if last == null then pure list else do n ← load last; pure n.next

unfoldable pub length_loop : ℕ → Ptr → ℕ → Cmd Node ℕ
length_loop zero list n = λ _. out_of_fuel
length_loop (suc k) list n =
    if list == null then pure n else do m ← load list; length_loop k m.next (n + 1)

unfoldable pub size : ℕ → Ptr → Cmd Node ℕ
size k list = length_loop k list 0

unfoldable pub find_loop : ℕ → Ptr → (Object → Object → Bool) → Object → Ptr → Cmd Node (Option Ptr)
find_loop zero list equal key last = λ _. out_of_fuel
find_loop (suc k) list equal key last = do
  curr ← iterator list last
  if curr == null then pure none else do
    n ← load curr
    if equal key n.datapointer then pure (some curr) else find_loop k list equal key curr

-- `pp_keynode__` is written, `some`, exactly where the function returns `true`.
unfoldable pub find_key : ℕ → Ptr → (Object → Object → Bool) → Object → Cmd Node (Option Ptr)
find_key k list equal key = do
  require (not (list == null))
  require (not (key == null))
  find_loop k list equal key null

unfoldable pub print_loop : {S : Type 0} → ℕ → Ptr → (Object → S → S) → Ptr → S → Cmd Node S
print_loop zero list print last s = λ _. out_of_fuel
print_loop (suc k) list print last s = do
  curr ← iterator list last
  if curr == null
      then pure s
      else do n ← load curr; print_loop k list print curr (print n.datapointer s)

unfoldable pub print_list : {S : Type 0} → ℕ → Ptr → (Object → S → S) → S → Cmd Node S
print_list k list print s = print_loop k list print null s

-- `free_data_fn(data)` unless the function is null
abbrev pub free_data : {S : Type 0} → Option (Object → S → S) → Object → S → S
free_data none d s = s
free_data (some f) d s = f d s

-- The loop ends with the list pointer null.
unfoldable pub destroy : {S : Type 0} → ℕ → Ptr → Option (Object → S → S) → S → Cmd Node S
destroy zero list free s = λ _. out_of_fuel
destroy (suc k) list free s =
    if list == null
    then pure s
    else do n ← load list; memory_free list; destroy k n.next free (free_data free n.datapointer s)

unfoldable pub free_list : ℕ → Ptr → Cmd Node (Unit {0})
free_list k list = destroy k list none tt
