-- ===== src/Lang/Memory.antt =====
-- src/libs/lang/memory.c, include/lang/memory.h, include/lang/assert.h and
-- include/lang/except.h, as the data structures use them. A heap maps an address to the node
-- that lies there. `malloc` is not part of the repository: an operation that allocates takes its
-- answer as an argument, and 0 is the null pointer.
use c_lang_project.Common.{ℕ, Bool, true, false, Option, none, some, ◌==◌, if◌then◌else◌}

abbrev pub Ptr : Type 0
Ptr = ℕ

abbrev pub null : Ptr
null = 0

-- The exceptions that the data structures can raise.
pub data Except : Type 0 where
  memory_failed : Except
  precondition_failed : Except
  postcondition_failed : Except

abbrev pub Heap : Type 0 → Type 0
Heap N = Ptr → Option N

-- `fault` is undefined behaviour: a null pointer or a dangling one is followed or freed.
pub data Run (N A : Type 0) : Type 0 where
  ok : A → Heap N → Run N A
  throw : Except → Run N A
  fault : Run N A
  out_of_fuel : Run N A

abbrev pub Cmd : Type 0 → Type 0 → Type 0
Cmd N A = Heap N → Run N A

abbrev pub pure : {N A : Type 0} → A → Cmd N A
pure a h = ok a h

abbrev pub and_then : {N A B : Type 0} → Run N A → (A → Cmd N B) → Run N B
and_then (ok a h) k = k a h
and_then (throw e) k = throw e
and_then fault k = fault
and_then out_of_fuel k = out_of_fuel

infixl 5 ◌>>=◌ ◌>>◌
abbrev pub ◌>>=◌ : {N A B : Type 0} → Cmd N A → (A → Cmd N B) → Cmd N B
◌>>=◌ m k h = and_then (m h) k

abbrev pub ◌>>◌ : {N B : Type 0} → Cmd N (Unit {0}) → Cmd N B → Cmd N B
m >> k = m >>= λ _. k

abbrev pub require : {N : Type 0} → Bool → Cmd N (Unit {0})
require true h = ok tt h
require false h = throw precondition_failed

abbrev pub ensure : {N : Type 0} → Bool → Cmd N (Unit {0})
ensure true h = ok tt h
ensure false h = throw postcondition_failed

unfoldable pub write : {N : Type 0} → Heap N → Ptr → Option N → Heap N
write h p c q = if p == q then c else h q

abbrev pub load_cell : {N : Type 0} → Option N → Cmd N N
load_cell none h = fault
load_cell (some n) h = ok n h

-- `*p`
unfoldable pub load : {N : Type 0} → Ptr → Cmd N N
load p h = if p == null then fault else load_cell (h p) h

-- an assignment through `p`
unfoldable pub store : {N : Type 0} → Ptr → N → Cmd N (Unit {0})
unfolding load write
store p n h = and_then (load p h) (λ _ h'. ok tt (write h' p (some n)))

-- `NEW`: `fresh` is what `malloc` returns.
unfoldable pub memory_alloc : {N : Type 0} → Ptr → N → Cmd N Ptr
unfolding write
memory_alloc fresh n h =
    if fresh == null then throw memory_failed else ok fresh (write h fresh (some n))

-- `FREE`: the null pointer is passed over.
unfoldable pub memory_free : {N : Type 0} → Ptr → Cmd N (Unit {0})
unfolding load write
memory_free p h =
    if p == null then ok tt h else and_then (load p h) (λ _ h'. ok tt (write h' p none))
