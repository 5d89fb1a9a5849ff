-- ===== src/DataStructs/DoubleList.antt =====
-- src/libs/data_structs/double_list.c: lists of nodes that lead both ways. A function that is given
-- a `DoubleList_T*` returns the new pointer. A walk runs on fuel.
use c_lang_project.Common.Int.{negsuc, ℤ, pos}
use c_lang_project.Common.{
  ◌+◌, ◌==◌, Bool, Option, false, if◌then◌else◌, none, some, suc, true, zero, ℕ,
}
use c_lang_project.Lang.Memory.{
  ◌>>=◌, ◌>>◌, Cmd, Ptr, load, memory_alloc, memory_free, null, out_of_fuel, precondition_failed,
  pure, store, throw,
}
use c_lang_project.DataStructs.ListRep.{Object}
use c_lang_project.DataStructs.List.{free_data}
pub mod Links
pub mod Change
pub mod Splice
pub mod Walk

pub record Node : Type 0 where
  pub datapointer : Object
  pub next : Ptr
  pub prev : Ptr

abbrev pub node : Object → Ptr → Ptr → Node
node d p q = record { datapointer = d; next = p; prev = q }

-- `__allocate_double_node`
unfoldable pub allocate_node : Ptr → Object → Cmd Node Ptr
allocate_node fresh d = memory_alloc fresh (node d null null)

-- `NEXT(p) = q` and `PREV(p) = q`
unfoldable pub set_next : Ptr → Ptr → Cmd Node (Unit {0})
set_next p q = do n ← load p; store p (record n { next = q })

unfoldable pub set_prev : Ptr → Ptr → Cmd Node (Unit {0})
set_prev p q = do n ← load p; store p (record n { prev = q })

-- The same where the pointer is not null.
unfoldable pub link_next : Ptr → Ptr → Cmd Node (Unit {0})
link_next p q = if p == null then pure tt else set_next p q

unfoldable pub link_prev : Ptr → Ptr → Cmd Node (Unit {0})
link_prev p q = if p == null then pure tt else set_prev p q

-- `__delete_double_node`
unfoldable pub delete_node : Ptr → Ptr → Cmd Node Ptr
delete_node list p = do
  n ← load p
  link_next n.prev n.next
  link_prev n.next n.prev
  memory_free p
  pure (if p == list then (if n.next == null then n.prev else n.next) else list)

unfoldable pub new : Ptr
new = null

unfoldable pub is_empty : Ptr → Bool
is_empty list = list == null

unfoldable pub insert : Ptr → Ptr → Object → Cmd Node Ptr
insert fresh list d =
    let alone : Ptr → Cmd Node Ptr = λ p. (do set_prev p null; set_next p null; pure p) in
    let before : Ptr → Cmd Node Ptr = λ p. (do
      set_next p list
      n ← load list
      set_prev p n.prev
      set_prev list p
      m ← load p
      link_next m.prev p
      pure p) in
    do p ← allocate_node fresh d; if is_empty list then alone p else before p

-- The walk to the last node, from `p`.
unfoldable pub last_loop : ℕ → Ptr → Cmd Node Ptr
last_loop zero p = λ _. out_of_fuel
last_loop (suc k) p = do n ← load p; if n.next == null then pure p else last_loop k n.next

unfoldable pub append : ℕ → Ptr → Ptr → Object → Cmd Node Ptr
append k fresh list d =
    let behind : Ptr → Cmd Node Ptr =
      λ p. (do last ← last_loop k list; set_next last p; set_prev p last; pure list) in
    do p ← allocate_node fresh d; if is_empty list then pure p else behind p

unfoldable pub length_loop : ℕ → Ptr → ℕ → Cmd Node ℕ
length_loop zero list n = λ _. out_of_fuel
length_loop (suc k) list n =
    let walk : Cmd Node ℕ = (do m ← load list; length_loop k m.next (n + 1)) in
    if list == null then pure n else walk

unfoldable pub size : ℕ → Ptr → Cmd Node ℕ
size k list = length_loop k list 0

-- The walk of `DoubleList_nth` with `i - 1` steps forward, or `i - 1` steps back.
unfoldable pub forward : ℕ → Ptr → Cmd Node Ptr
forward zero p = pure p
forward (suc i) p =
    let walk : Cmd Node Ptr = (do n ← load p; forward i n.next) in
    if p == null then pure p else walk

unfoldable pub backward : ℕ → Ptr → Cmd Node Ptr
backward zero p = pure p
backward (suc i) p =
    let walk : Cmd Node Ptr = (do n ← load p; backward i n.prev) in
    if p == null then pure p else walk

-- `idx` is `pos (suc i)` for the number `suc i`, and `negsuc i` for `- (suc i)`.
unfoldable pub nth : ℕ → Ptr → ℤ → Cmd Node Ptr
nth k list (pos zero) = λ _. throw precondition_failed
nth k list (pos (suc i)) = if is_empty list then pure null else forward i list
nth k list (negsuc i) =
    let back : Cmd Node Ptr = (do p ← last_loop k list; backward i p) in
    if is_empty list then pure null else back

-- The data handed out, `none` where the C function returns `false`, and the new list pointer.
unfoldable pub delete_head : Ptr → Cmd Node (Option Object × Ptr)
delete_head list =
    if is_empty list
    then pure (none, list)
    else do n ← load list; list' ← delete_node list list; pure (some n.datapointer, list')

unfoldable pub traverse : {S : Type 0} → ℕ → Ptr → (Object → S → Bool × S) → S → Cmd Node (Bool × S)
traverse zero list apply s = λ _. out_of_fuel
traverse (suc k) list apply s = if list == null then pure (true, s) else do
  n ← load list
  let (more, s') = apply n.datapointer s
  let rest = traverse k n.next apply s'
  if more then rest else pure (false, s')

-- `DoubleList_cut`: the new list pointer. `start` and `end` are the nodes that the pointers `pp_start`
-- and `pp_end` lead to.
unfoldable pub cut : Ptr → Ptr → Ptr → Cmd Node Ptr
cut list start end = do
  s ← load start
  e ← load end
  link_next s.prev e.next
  e' ← load end
  s' ← load start
  link_prev e'.next s'.prev
  e'' ← load end
  set_next end null
  set_prev start null
  pure (if list == start then e''.next else list)

-- `DoubleList_paste`: the new target. The source pointer becomes null.
unfoldable pub paste : ℕ → Ptr → Ptr → Cmd Node Ptr
paste k target source =
    let behind : Cmd Node Ptr = (do
      last ← nth k source (negsuc 0)
      t ← load target
      set_next last t.next
      t' ← load target
      link_prev t'.next last
      set_prev source target
      set_next target source
      pure target) in
    if is_empty source then pure target else if is_empty target then pure source else behind

unfoldable pub destroy : {S : Type 0} → ℕ → Ptr → Option (Object → S → S) → S → Cmd Node (Ptr × S)
destroy zero list free s = λ _. out_of_fuel
destroy (suc k) list free s =
    if list == null
    then pure (list, s)
    else do n ← load list; memory_free list; destroy k n.next free (free_data free n.datapointer s)

unfoldable pub free_list : ℕ → Ptr → Cmd Node (Ptr × Unit {0})
free_list k list = destroy k list none tt
