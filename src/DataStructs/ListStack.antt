-- ===== src/DataStructs/ListStack.antt =====
-- src/libs/data_structs/list_stack.c: a stack over the linked list of list.c. `count` counts
-- allocated nodes, so it does not overflow. `destroy` ends with the structure freed, so it returns
-- only what the free function made of the data.
pub mod Lifo
use c_lang_project.DataStructs.List.{delete_head, insert}
use c_lang_project.DataStructs.ListRep.{Node, Object}
use c_lang_project.Lang.Memory.{Cmd, Ptr, memory_failed, null, pure, throw, ◌>>=◌, ◌>>◌}
use c_lang_project.Common.{◌+◌, ◌-◌, ◌==◌, Bool, List, Option, if◌then◌else◌, none, some, ℕ}
use c_lang_project.DataStructs.List

pub record LStack : Type 0 where
  pub count : ℕ
  pub storage : Ptr

-- `fresh` is what `malloc` returns for the structure.
unfoldable pub new : Ptr → Cmd Node LStack
new fresh =
    if fresh == null
    then (λ h. throw memory_failed)
    else pure (record { count = 0; storage = List.new })

unfoldable pub is_empty : LStack → Bool
is_empty st = st.count == 0

unfoldable pub push : Ptr → LStack → Object → Cmd Node LStack
push fresh st d = do
  p ← List.insert fresh st.storage d
  pure (record { count = st.count + 1; storage = p })

unfoldable pub pop : ℕ → LStack → Cmd Node (Option Object × LStack)
pop k st = if st.count == 0 then pure (none, st) else do
  (out, p) ← List.delete_head k st.storage
  pure (out, record { count = st.count - 1; storage = p })

-- The second half of `LStack_peel`: what was popped is pushed again.
abbrev pub push_back : Ptr → Option Object → LStack → Cmd Node (Option Object × LStack)
push_back fresh none st = pure (none, st)
push_back fresh (some d) st = do st' ← push fresh st d; pure (some d, st')

-- `fresh` serves the push.
unfoldable pub peel : ℕ → Ptr → LStack → Cmd Node (Option Object × LStack)
peel k fresh st = do (out, st') ← pop k st; push_back fresh out st'

unfoldable pub destroy : {S : Type 0} → ℕ → LStack → Option (Object → S → S) → S → Cmd Node S
destroy k st free s = if is_empty st then pure s else List.destroy k st.storage free s

unfoldable pub free_stack : ℕ → LStack → Cmd Node (Unit {0})
unfolding destroy
free_stack k st = destroy k st none tt
