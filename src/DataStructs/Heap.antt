-- ===== src/DataStructs/Heap.antt =====
-- src/libs/data_structs/heap.c: a binary heap in an array that grows. `storage` is the whole
-- block; its first `next` cells are the heap. A `cmp_data_FN` returns a negative number, zero or a
-- positive one. Indices stay below twice the length of a block that exists, so they do not wrap.
pub mod Order
pub mod Up
pub mod Down
pub mod Insert
pub mod Delete
use c_lang_project.Common.Int.{negsuc, ℤ, pos}
use c_lang_project.Lang.Memory.{memory_failed}
use c_lang_project.Lang.Array.{load_at, store_at}
use c_lang_project.DataStructs.ListRep.{Object}
use c_lang_project.Common.{
  ◌%◌, ◌*◌, ◌+◌, ◌++◌, ◌-◌, ◌/◌, ◌==◌, Bool, List, Option, ◌^◌, false, if◌then◌else◌, leb, ltb,
  none, some, suc, take, true, zero, ◌||◌, ℕ,
}
use c_lang_project.Lang.Result.{◌>>=◌, Result, done, no_fuel, raise}

pub record Heap : Type 0 where
  pub storage : List Object
  pub next : ℕ
  pub size : ℕ

abbrev pub k_resize_step : ℕ
k_resize_step = 128

abbrev pub is_neg : ℤ → Bool
is_neg (pos n) = false
is_neg (negsuc n) = true

abbrev pub is_pos : ℤ → Bool
is_pos (pos n) = ltb 0 n
is_pos (negsuc n) = false

abbrev pub parent : ℕ → ℕ
parent c = (c - 1) / 2

-- The exchange of two cells through `tmpvalue`.
unfoldable pub exchange : List Object → ℕ → ℕ → Result (List Object)
exchange a i j = do x ← load_at a i; y ← load_at a j; b ← store_at a i y; store_at b j x

unfoldable pub siftup : ℕ → List Object → ℕ → (Object → Object → ℤ) → Result (List Object)
siftup zero a i cmp = no_fuel
siftup (suc k) a i cmp =
    let step : Result (List Object) = do
      x ← load_at a i
      y ← load_at a (parent i)
      let rise = exchange a i (parent i) >>= λ b. siftup k b (parent i) cmp
      if is_neg (cmp x y) then rise else done a
    in if i == 0 then done a else step

-- `n` is `nextelement_idx`.
unfoldable pub siftdown : ℕ → List Object → ℕ → ℕ → (Object → Object → ℤ) → Result (List Object)
siftdown zero a n p cmp = no_fuel
siftdown (suc k) a n p cmp =
    let left = 2 * p + 1 in
    let right = left + 1 in
    let two : Result (List Object) = do
      x ← load_at a p
      l ← load_at a left
      r ← load_at a right
      let child = if is_neg (cmp l r) then left else right
      let sink = exchange a p child >>= λ b. siftdown k b n child cmp
      if is_pos (cmp x l) || is_pos (cmp x r) then sink else done a
    in let one : Result (List Object) = do
      x ← load_at a p
      l ← load_at a left
      if is_pos (cmp x l) then exchange a p left else done a
      in if leb n left then done a else if leb n right then one else two

-- `block` is what `malloc` returns.
unfoldable pub new : Option (List Object) → Result Heap
new none = raise memory_failed
new (some b) = done (record { storage = b; next = 0; size = k_resize_step })

unfoldable pub is_empty : Heap → Bool
is_empty hp = hp.next == 0

-- `RESIZE`: `more` is what `realloc` puts behind the old cells, `none` if it fails.
unfoldable pub grow : Option (List Object) → Heap → Result Heap
grow none hp = raise memory_failed
grow (some more) hp =
    let n = (hp.size + k_resize_step) % 2 ^ 64 in
    done (record hp { storage = take n (hp.storage ++ more); size = n })

unfoldable pub insert : Option (List Object) → Heap → Object → (Object → Object → ℤ) → Result Heap
insert more hp d cmp = do
  hp' ← (if hp.next == hp.size then grow more hp else done hp)
  a ← store_at hp'.storage hp'.next d
  b ← siftup (hp'.next + 1) a hp'.next cmp
  done (record hp' { storage = b; next = hp'.next + 1 })

-- The deleted data, `none` where the C function returns `false`.
unfoldable pub delete : Heap → ℕ → (Object → Object → ℤ) → Result (Option Object × Heap)
delete hp i cmp = if leb hp.next i then done (none, hp) else do
  d ← load_at hp.storage i
  let n = hp.next - 1
  let moved : Result (List Object) = do
    x ← load_at hp.storage n
    a ← store_at hp.storage i x
    siftdown (n + 1) a n i cmp
  b ← (if i == n then done hp.storage else moved)
  done (some d, record hp { storage = b; next = n })
