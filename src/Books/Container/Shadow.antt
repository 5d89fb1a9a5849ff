-- ===== src/Books/Container/Shadow.antt =====
-- src/bin/books/advanced_data_structures/ch1/shd_stack.c: a stack in an array, which is copied to a
-- larger one a few items at a time. `none` is a NULL pointer.
pub mod Copy
pub mod Laws
use c_lang_project.Lang.Array.{load_at, store_at}
use c_lang_project.Common.{
  ◌*◌, ◌+◌, ◌-◌, ◌==◌, Bool, List, Option, ◌^◌, false, if◌then◌else◌, leb, ltb, none, some, suc,
  true, zero, ℕ,
}
use c_lang_project.Lang.Result.{◌>>=◌, Result, done, from_option, undefined}

pub record Stack : Type 0 where
  pub base : Option (List ℕ)
  pub size : ℕ
  pub max_size : ℕ
  pub copy : Option (List ℕ)
  pub copy_size : ℕ

-- `cells`: what `malloc` returns for `base`.
abbrev pub create_stack : List ℕ → ℕ → Stack
create_stack cells size = record {
  base = some cells;
  size = 0;
  max_size = size;
  copy = none;
  copy_size = 0;
}

abbrev pub stack_empty : Stack → Bool
stack_empty st = st.size == 0

-- The loop that copies at most `additional_copies` items.
unfoldable pub copy_items : ℕ → List ℕ → ℕ → List ℕ → ℕ → Result (List ℕ × ℕ)
copy_items zero base size copy n = done (copy, n)
copy_items (suc k) base size copy n =
    if ltb n size
    then (load_at base n >>= λ x.
        store_at copy n x >>= λ copy'. copy_items k base size copy' (n + 1))
    else done (copy, n)

-- `2 * max_size` is an `int`.
abbrev pub doubled : ℕ → Result ℕ
doubled n = if ltb (2 * n) (2 ^ 31) then done (2 * n) else undefined

-- Where the copy is complete, it takes the place of `base`.
unfoldable pub settle : Stack → Result Stack
settle st =
    if st.copy_size == st.size
    then (doubled st.max_size >>= λ n.
        done (record { base = st.copy; size = st.size; max_size = n; copy = none; copy_size = 0 }))
    else done st

-- The copy, if there is one, or the new block; `fresh` is what `malloc` returns.
abbrev pub allocated : (ℕ → List ℕ) → Stack → Result (List ℕ)
allocated fresh st = elim st.copy [
  | some c ↦ done c
  | none ↦ doubled st.max_size >>= λ n. done (fresh n)
]

abbrev pub is_copying : Stack → Bool
is_copying st = elim st.copy [ some c ↦ true | none ↦ false ]

-- `0.75 * max_size` is exact.
abbrev pub has_to_copy : Stack → Bool
has_to_copy st = if is_copying st then true else leb (3 * st.max_size) (4 * st.size)

unfoldable pub continue_copy : (ℕ → List ℕ) → List ℕ → Stack → Result Stack
continue_copy fresh base st =
    if has_to_copy st
    then (allocated fresh st >>= λ c. copy_items 4 base st.size c st.copy_size >>= λ p.
        settle (record st { copy = some p.0; copy_size = p.1 }))
    else done st

unfoldable pub push : (ℕ → List ℕ) → ℕ → Stack → Result Stack
push fresh x st = from_option st.base >>= λ base. store_at base st.size x >>= λ base'.
    continue_copy fresh base' (record st { base = some base'; size = st.size + 1 })

-- A read below `base` is undefined.
unfoldable pub pop : Stack → Result (ℕ × Stack)
pop st =
    if st.size == 0
    then undefined
    else (from_option st.base >>= λ base. load_at base (st.size - 1) >>= λ x.
        settle (record st { size = st.size - 1 }) >>= λ st'. done (x, st'))

unfoldable pub top_element : Stack → Result ℕ
top_element st =
    if st.size == 0 then undefined else (from_option st.base >>= λ base. load_at base (st.size - 1))
