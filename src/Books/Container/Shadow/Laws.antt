-- ===== src/Books/Container/Shadow/Laws.antt =====
-- shd_stack.c is last in, first out, up to the last item.
use c_lang_project.Lang.Array.Access.{at-set, store_at-ok}
use c_lang_project.Books.Container.Shadow.{Stack, continue_copy, pop, push, settle}
use c_lang_project.Books.Container.Shadow.Copy.{
  IsStack, advance-IsStack, idle, settle-IsStack, is_stack, copying,
}
use c_lang_project.Books.Container.Items.{Agree, Stacked-set, load_at-top}
use c_lang_project.Common.{
  ◌*◌, ◌+◌, ◌-◌, ◌<◌, ◌==◌, ==-false, ==-true, Bool-cases, List, [], ◌^◌, arith, false, inl, inr,
  leb, length, length-set, lt→ltb, refl, set, sym, true, ℕ, ◌∙◌, ◌∷◌, ◌≡◌, ◌≤◌,
}
use c_lang_project.Lang.Result.{Ends, Ends-bind, ends, undefined}

-- `malloc` returns a block as long as it was asked for, and `2 * max_size` is an `int`.
pub record CanGrow (st : Stack) (fresh : ℕ → List ℕ) : Type 0 where
  pub given : length (fresh (2 * st.max_size)) ≡ 2 * st.max_size
  pub small : 2 * st.max_size < 2 ^ 31

Agree-set : (a c : List ℕ) (n k x : ℕ) → n ≤ k → k < length a → Agree n a c → Agree n (set a k x) c
Agree-set a c n k x le room h i l =
    h i l ∙ sym (at-set a k i x room ∙ rw (==-false k i (omega arith)))

-- push of shd_stack.c on a stack whose copy, if one is in progress, is ahead of the pushes to
-- come, with malloc returning a block of the size asked for and 2 * max_size an int, ends without
-- a write out of bounds in such a stack, with the new item on top of the others.
pub shadow_push-IsStack :
    (fresh : ℕ → List ℕ) (x : ℕ) (st : Stack) (xs : List ℕ)
    → IsStack st xs
    → CanGrow st fresh
    → Ends (λ s. IsStack s (x ∷ xs)) (push fresh x st)
unfolding push continue_copy
shadow_push-IsStack fresh x st xs (is_stack a eb lb es h (idle en z few)) g =
    let room : length xs < length a = omega arith in
    rw (eb, es, store_at-ok a (length xs) x room, en)
      (elim (Bool-cases (leb (3 * st.max_size) (4 * (length xs + 1)))) [
        | inl full ↦
            rw (full, lt→ltb (2 * st.max_size) (2 ^ 31) g.small, z)
              (advance-IsStack (set a (length xs) x) (fresh (2 * st.max_size)) (x ∷ xs)
                (length xs + 1) st.max_size 0 (omega arith) (length-set a (length xs) x ∙ lb)
                g.given g.small (Stacked-set a x xs room h) (λ i l. absurd (omega arith))
                (omega arith) (omega arith) (omega arith) (omega arith))
        | inr fine ↦ rw fine (
            ends (
              is_stack (set a (length xs) x) refl (length-set a (length xs) x ∙ lb) (omega arith)
                (Stacked-set a x xs room h) (idle refl z (ground arith))))
      ])
shadow_push-IsStack fresh x st xs
      (is_stack a eb lb es h (copying c ec lc same some_copied fewer pace)) g =
    let room : length xs < length a = omega arith in
    rw (eb, es, store_at-ok a (length xs) x room, ec)
      (advance-IsStack (set a (length xs) x) c (x ∷ xs) (length xs + 1) st.max_size st.copy_size
        (omega arith) (length-set a (length xs) x ∙ lb) lc g.small (Stacked-set a x xs room h)
        (Agree-set a c st.copy_size (length xs) x (omega arith) room same) (omega arith)
        (omega arith) (omega arith) (omega arith))

-- pop of shd_stack.c on a stack of two items or more, whose copy, if one is in progress, is ahead
-- of the pushes to come, with 2 * max_size an int, hands out the item on top and leaves such a
-- stack of the others.
pub shadow_pop-IsStack :
    (st : Stack) (x y : ℕ) (xs : List ℕ)
    → IsStack st (x ∷ y ∷ xs)
    → 2 * st.max_size < 2 ^ 31
    → Ends (λ p. (p.0 ≡ x) × IsStack p.1 (y ∷ xs)) (pop st)
unfolding pop settle
shadow_pop-IsStack st x y xs (is_stack a eb lb es h (idle en z few)) small =
    let below : (st.copy_size == st.size - 1) ≡ false = ==-false _ _ (omega arith) in
    rw
      (
        ==-false st.size 0 (omega arith),
        eb,
        load_at-top a st.size x (y ∷ xs) h es (omega arith),
        below,
      )
      (ends (refl, is_stack a refl lb (omega arith) h.1 (idle en z (omega arith))))
shadow_pop-IsStack st x y xs (is_stack a eb lb es h (copying c ec lc same some_copied fewer pace))
      small =
    rw
      (
        ==-false st.size 0 (omega arith),
        eb,
        load_at-top a st.size x (y ∷ xs) h es (omega arith),
        ec,
      )
      (Ends-bind
        (settle-IsStack a c (y ∷ xs) (st.size - 1) st.max_size st.copy_size (omega arith) lb lc
          small h.1 same some_copied (omega arith) (omega arith) (omega arith))
        λ st' h'. ends (refl, h'))

-- pop of shd_stack.c on a stack with one item, with 2 * max_size an int, hands out the item, and
-- then push writes through a NULL pointer.
pub pop_last-undefined :
    (fresh : ℕ → List ℕ) (y : ℕ) (st : Stack) (x : ℕ)
    → IsStack st (x ∷ [])
    → 2 * st.max_size < 2 ^ 31
    → Ends (λ p. (p.0 ≡ x) × (push fresh y p.1 ≡ undefined)) (pop st)
unfolding pop settle push
pop_last-undefined fresh y st x (is_stack a eb lb es h (idle en z few)) small =
    let above : (st.copy_size == st.size - 1) ≡ true = ==-true _ _ (omega arith) in
    rw
      (
        ==-false st.size 0 (omega arith),
        eb,
        load_at-top a st.size x [] h es (omega arith),
        above,
        lt→ltb (2 * st.max_size) (2 ^ 31) small,
        en,
      )
      (ends (refl, refl))
pop_last-undefined fresh y st x
      (is_stack a eb lb es h (copying c ec lc same some_copied fewer pace)) small =
    absurd (omega arith)
