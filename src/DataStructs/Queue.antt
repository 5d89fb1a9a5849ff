-- ===== src/DataStructs/Queue.antt =====
-- src/libs/data_structs/queue.c: a queue of linked nodes with pointers to the first and the last.
-- Its `node_t` has the fields of list_rep.h, and is modelled by that record.
pub mod Fifo
pub mod Loops
use c_lang_project.DataStructs.ListRep.Chain.{Cells}
use c_lang_project.DataStructs.ListRep.{Node, Object, node}
use c_lang_project.Common.{
  ◌+◌, ◌==◌, Bool, Option, false, if◌then◌else◌, none, some, suc, true, zero, ℕ,
}
use c_lang_project.Lang.Memory.{
  ◌>>=◌, ◌>>◌, Cmd, Ptr, load, memory_alloc, memory_failed, memory_free, null, out_of_fuel, pure,
  store, throw, Heap,
}

pub record Queue : Type 0 where
  pub front : Ptr
  pub rear : Ptr

unfoldable pub allocate_node : Ptr → Object → Cmd Node Ptr
allocate_node fresh d = memory_alloc fresh (node d null)

unfoldable pub iterator : Ptr → Ptr → Cmd Node Ptr
iterator p last = if last == null then pure p else do n ← load last; pure n.next

unfoldable pub free_node : Ptr → Cmd Node (Unit {0})
free_node p = memory_free p

-- `fresh` is what `malloc` returns for the structure.
unfoldable pub new : Ptr → Cmd Node Queue
new fresh =
    if fresh == null
    then (λ h. throw memory_failed)
    else pure (record { front = null; rear = null })

unfoldable pub is_empty : Queue → Bool
is_empty q = q.front == null

-- `NEXT(p) = r`
unfoldable pub set_next : Ptr → Ptr → Cmd Node (Unit {0})
set_next p r = do n ← load p; store p (record n { next = r })

unfoldable pub add : Ptr → Queue → Object → Cmd Node Queue
add fresh q d = do
  p ← allocate_node fresh d
  if is_empty q
      then pure (record { front = p; rear = p })
      else do set_next q.rear p; pure (record q { rear = p })

-- The removed data, `none` where the C function returns `false`, and the queue.
unfoldable pub remove : Queue → Cmd Node (Option Object × Queue)
remove q = if is_empty q then pure (none, q) else do
  n ← load q.front
  let q' =
      if q.rear == q.front
      then record { front = null; rear = null }
      else record q { front = n.next }
  free_node q.front
  pure (some n.datapointer, q')

unfoldable pub length_loop : ℕ → Queue → Ptr → ℕ → Cmd Node ℕ
length_loop zero q curr n = λ _. out_of_fuel
length_loop (suc k) q curr n = do
  next ← iterator q.front curr
  if next == null then pure n else length_loop k q next (n + 1)

unfoldable pub size : ℕ → Queue → Cmd Node ℕ
unfolding length_loop
size k q = length_loop k q null 0

-- `free_data_fn(data)`, or `FREE(data)` if the function is null; `release` is what that does.
abbrev pub free_data : {S : Type 0} → (Object → S → S) → Option (Object → S → S) → Object → S → S
free_data release none d s = release d s
free_data release (some f) d s = f d s

unfoldable pub destroy_loop :
    {S : Type 0} → ℕ → Queue → (Object → S → S) → Option (Object → S → S) → S → Cmd Node S
destroy_loop zero q release free s = λ _. out_of_fuel
destroy_loop (suc k) q release free s = do
  (out, q') ← remove q
  elim out [ none ↦ pure s | some d ↦ destroy_loop k q' release free (free_data release free d s) ]

-- `true` if the structure itself is freed.
unfoldable pub destroy :
    {S : Type 0} → ℕ → Queue → (Object → S → S) → Option (Object → S → S) → S → Cmd Node (Bool × S)
unfolding destroy_loop
destroy k q release free s =
    if is_empty q then pure (false, s) else do s' ← destroy_loop k q release free s; pure (true, s')

unfoldable pub free_queue : {S : Type 0} → ℕ → Queue → (Object → S → S) → S → Cmd Node (Bool × S)
unfolding destroy
free_queue k q release s = destroy k q release none s
