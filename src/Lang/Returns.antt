-- ===== src/Lang/Returns.antt =====
-- Total correctness of a run: no fault, no exception, enough fuel, and a postcondition.
use c_lang_project.Lang.Memory.{Heap, Run, ok, Cmd, and_then}

pub data Returns {N A : Type 0} (P : A → Heap N → Type 0) : Run N A → Type 0 where
  returns : {a : A} {h : Heap N} → P a h → Returns P (ok a h)

module _ {N A : Type 0} {P : A → Heap N → Type 0} where
  pub Returns-bind :
      {B : Type 0} {Q : B → Heap N → Type 0} {r : Run N A} {k : A → Cmd N B}
      → Returns P r
      → ((a : A) (h : Heap N) → P a h → Returns Q (k a h))
      → Returns Q (and_then r k)
  Returns-bind (returns p) next = next _ _ p

  pub Returns-mono :
      {Q : A → Heap N → Type 0} {r : Run N A}
      → Returns P r
      → ((a : A) (h : Heap N) → P a h → Q a h)
      → Returns Q r
  Returns-mono (returns p) weaken = returns (weaken _ _ p)
