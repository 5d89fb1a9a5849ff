-- ===== src/DataStructs/ArrayStack.antt =====
-- src/libs/data_structs/array_stack.c: a stack in an array that grows. `storage` is the block that
-- `malloc` or `realloc` returned, as long as it was asked for, with whatever lies in it; `top` is
-- the index of the next free cell. `size` is an `unsigned`, which wraps at 2 ^ 32.
pub mod Lifo
use c_lang_project.Lang.Array.{load_at, store_at}
use c_lang_project.Lang.Memory.{memory_failed, precondition_failed}
use c_lang_project.DataStructs.ListRep.{Object}
use c_lang_project.Common.{
  ◌%◌, ◌+◌, ◌++◌, ◌-◌, ◌==◌, Bool, List, Option, ◌^◌, get_elem?, if◌then◌else◌, length, ltb, none,
  set, some, suc, take, zero, ℕ,
}
use c_lang_project.Lang.Result.{◌>>=◌, Result, done, from_option, no_fuel, raise, undefined}

pub record Stack : Type 0 where
  pub storage : List Object
  pub top : ℕ
  pub size : ℕ

abbrev pub resize_step : ℕ
resize_step = 100

abbrev pub k_initial_size : ℕ
k_initial_size = 50

-- `block` is what `malloc` returns for `initial_size` objects.
unfoldable pub new : Option (List Object) → ℕ → Result Stack
new block initial_size =
    if ltb 0 initial_size
    then elim block [
      | none ↦ raise memory_failed
      | some b ↦ done (record { storage = b; top = 0; size = initial_size })
    ]
    else raise precondition_failed

unfoldable pub new_def : Option (List Object) → Result Stack
unfolding new
new_def block = new block k_initial_size

unfoldable pub is_empty : Stack → Bool
is_empty st = st.top == 0

-- `RESIZE`: `more` is what `realloc` puts behind the old cells, `none` if it fails.
unfoldable pub grow : Option (List Object) → Stack → Result Stack
grow none st = raise memory_failed
grow (some more) st =
    let n = (st.size + resize_step) % 2 ^ 32 in
    done (record { storage = take n (st.storage ++ more); top = st.size; size = n })

unfoldable pub push : Option (List Object) → Stack → Object → Result Stack
push more st d = do
  st' ← (if st.top == st.size then grow more st else done st)
  a ← store_at st'.storage st'.top d
  done (record st' { storage = a; top = st'.top + 1 })

-- The popped data, `none` where the C function returns `false`.
unfoldable pub pop : Stack → Result (Option Object × Stack)
pop st =
    if is_empty st
    then done (none, st)
    else do d ← load_at st.storage (st.top - 1); done (some d, record st { top = st.top - 1 })

-- The second half of `Stack_peel`: what was popped is pushed again.
abbrev pub push_back : Option (List Object) → Option Object → Stack → Result (Option Object × Stack)
push_back more none st = done (none, st)
push_back more (some d) st = do st' ← push more st d; done (some d, st')

unfoldable pub peel : Option (List Object) → Stack → Result (Option Object × Stack)
peel more st = do (out, st') ← pop st; push_back more out st'

-- `free_data_fn(data)`, or `FREE(data)` if the function is null; `release` is what that does.
abbrev pub free_data : {S : Type 0} → (Object → S → S) → Option (Object → S → S) → Object → S → S
free_data release none d s = release d s
free_data release (some f) d s = f d s

unfoldable pub destroy_loop :
    {S : Type 0} → ℕ → Stack → (Object → S → S) → Option (Object → S → S) → S → Result S
destroy_loop zero st release free s = no_fuel
destroy_loop (suc k) st release free s = do
  (out, st') ← pop st
  elim out [ none ↦ done s | some d ↦ destroy_loop k st' release free (free_data release free d s) ]

-- The blocks are freed at the end.
unfoldable pub destroy :
    {S : Type 0} → Stack → (Object → S → S) → Option (Object → S → S) → S → Result S
unfolding destroy_loop
destroy st release free s =
    if is_empty st then done s else destroy_loop (st.top + 1) st release free s

unfoldable pub free_stack : {S : Type 0} → Stack → (Object → S → S) → S → Result S
unfolding destroy
free_stack st release s = destroy st release none s
