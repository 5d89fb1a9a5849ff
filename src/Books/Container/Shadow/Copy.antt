-- ===== src/Books/Container/Shadow/Copy.antt =====
-- The copy of shd_stack.c is complete before the array is full.
use c_lang_project.Lang.Array.Access.{at-set, load_at-ok, store_at-ok}
use c_lang_project.Lang.Array.{at}
use c_lang_project.Books.Container.Shadow.{Stack, copy_items, settle}
use c_lang_project.Books.Container.Items.{Agree, Stacked, Stacked-Agree}
use c_lang_project.Common.{
  ◌*◌, ◌+◌, ◌<◌, ==-false, ==-true, List, ◌^◌, ap, arith, inl, inr, length, length-set, le→ltb,
  lt→ltb, none, refl, set, some, suc, zero, ℕ, ◌∙◌, ◌≡◌, ◌≤◌, ◌⊎◌,
}
use native.Mathlib.Decide.{dec_lt, ℕ_discrete}
use c_lang_project.Lang.Result.{Ends, Ends-mono, ends, ◌>>=◌, Ends-bind}

-- After `k` rounds, `n` items more are copied, or all of them.
pub record Copied (k : ℕ) (base : List ℕ) (size : ℕ) (copy : List ℕ) (n : ℕ) (p : List ℕ × ℕ)
    : Type 0 where
  pub whole : length p.0 ≡ length copy
  pub same : Agree p.1 base p.0
  pub within : p.1 ≤ size
  pub further : (p.1 ≡ n + k) ⊎ (p.1 ≡ size)

copied_one :
    (base copy : List ℕ) (n : ℕ)
    → n < length copy
    → Agree n base copy
    → Agree (n + 1) base (set copy n (at base n))
copied_one base copy n room h i l = elim (ℕ_discrete n i) [
  | yes e ↦ at-set copy n i (at base n) room ∙ rw (==-true n i e) (ap (at base) e)
  | no ne ↦ at-set copy n i (at base n) room ∙ rw (==-false n i ne) (h i (omega arith))
]

pub copy_items-Copied :
    (k : ℕ) (base : List ℕ) (size : ℕ) (copy : List ℕ) (n : ℕ)
    → size ≤ length base
    → size ≤ length copy
    → n ≤ size
    → Agree n base copy
    → Ends (Copied k base size copy n) (copy_items k base size copy n)
unfolding copy_items
copy_items-Copied zero base size copy n lb lc le h =
    ends (record { whole = refl; same = h; within = le; further = inl (omega arith) })
copy_items-Copied (suc k) base size copy n lb lc le h = elim (dec_lt n size) [
  | yes more ↦
      rw
        (
          lt→ltb n size more,
          load_at-ok base n (omega arith),
          store_at-ok copy n (at base n) (omega arith),
        )
        (Ends-mono
          (copy_items-Copied k base size (set copy n (at base n)) (n + 1) lb
            (omega (arith, length-set copy n (at base n))) (omega arith)
            (copied_one base copy n (omega arith) h))
          λ p c. record {
            whole = c.whole ∙ length-set copy n (at base n);
            same = c.same;
            within = c.within;
            further = omega (arith, c.further);
          })
  | no all ↦
      rw (le→ltb n size (omega arith))
        (ends (record { whole = refl; same = h; within = le; further = inr (omega arith) }))
]

-- The progress of the copy: none is needed, or it is ahead of the pushes to come.
pub data InStep (st : Stack) (base : List ℕ) : Type 0 where
  idle : st.copy ≡ none → st.copy_size ≡ 0 → 4 * st.size < 3 * st.max_size → InStep st base
  copying :
      (c : List ℕ)
      → st.copy ≡ some c
      → length c ≡ 2 * st.max_size
      → Agree st.copy_size base c
      → 0 < st.copy_size
      → st.copy_size < st.size
      → 4 * st.size ≤ 3 * st.max_size + st.copy_size
      → InStep st base

-- A stack that holds `xs`, from the top down.
pub data IsStack (st : Stack) (xs : List ℕ) : Type 0 where
  is_stack :
      (base : List ℕ)
      → st.base ≡ some base
      → length base ≡ st.max_size
      → st.size ≡ length xs
      → Stacked base xs
      → InStep st base
      → IsStack st xs

-- There is always room for a push.
pub InStep-room : (st : Stack) (base : List ℕ) → InStep st base → st.size < st.max_size
InStep-room st base (idle e z few) = omega arith
InStep-room st base (copying c e l same some_copied fewer pace) = omega arith

-- A copy in progress, or a complete one.
pub settle-IsStack :
    (base c : List ℕ) (xs : List ℕ) (s m n : ℕ)
    → s ≡ length xs
    → length base ≡ m
    → length c ≡ 2 * m
    → 2 * m < 2 ^ 31
    → Stacked base xs
    → Agree n base c
    → 0 < n
    → n ≤ s
    → s ≤ m
    → 4 * s ≤ 3 * m + n
    → Ends
        (λ st. IsStack st xs)
        (settle (record { base = some base; size = s; max_size = m; copy = some c; copy_size = n }))
unfolding settle
settle-IsStack base c xs s m n es lb lc small h same some_copied le fits pace =
    elim (ℕ_discrete n s) [
      | yes e ↦
          rw (==-true n s e, lt→ltb (2 * m) (2 ^ 31) small)
            (ends (
              is_stack c refl lc es (Stacked-Agree base c xs (λ i l. same i (omega arith)) h)
                (idle refl refl (omega arith))))
      | no ne ↦ rw (==-false n s ne) (
          ends (is_stack base refl lb es h (copying c refl lc same some_copied (omega arith) pace)))
    ]

-- Four items more, and the end of the copy where it is complete.
pub advance-IsStack :
    (base c : List ℕ) (xs : List ℕ) (s m n : ℕ)
    → s ≡ length xs
    → length base ≡ m
    → length c ≡ 2 * m
    → 2 * m < 2 ^ 31
    → Stacked base xs
    → Agree n base c
    → 0 < s
    → n ≤ s
    → s ≤ m
    → 4 * s ≤ 3 * m + n + 4
    → Ends
        (λ st. IsStack st xs)
        (copy_items 4 base s c n >>= λ p.
          settle
            (record { base = some base; size = s; max_size = m; copy = some p.0; copy_size = p.1 }))
advance-IsStack base c xs s m n es lb lc small h same some_item le fits pace =
    Ends-bind (copy_items-Copied 4 base s c n (omega arith) (omega arith) le same) λ p r.
      settle-IsStack base p.0 xs s m p.1 es lb (r.whole ∙ lc) small h r.same
        (omega (arith, r.further)) r.within fits (omega (arith, r.further))
