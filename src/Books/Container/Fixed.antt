-- ===== src/Books/Container/Fixed.antt =====
-- src/bin/books/advanced_data_structures/ch1/ar_stack.c: a stack in an array. `top` is the distance of
-- the pointer `top` from `base`, and `size` the number of cells, whatever lies in them at first.
use c_lang_project.Lang.Array.Access.{store_at-ok}
use c_lang_project.Books.Container.Items.{Stacked, Stacked-set, load_at-top}
use c_lang_project.Books.Container.{Container, is_nil, on_top}
use c_lang_project.Common.Int.{negsuc, ℤ, pos}
use c_lang_project.Lang.Array.{load_at, store_at}
use c_lang_project.Common.{
  ◌+◌, ◌-◌, ◌==◌, Bool, List, if◌then◌else◌, ltb, ℕ, ==-false, ==-true, [], arith, false, length,
  length-set, ltb→lt, lt→ltb, refl, true, ◌∙◌, ◌∷◌, ◌≡◌, ◌≤◌,
}
use c_lang_project.Lang.Result.{◌>>=◌, Result, done, undefined, Ends, ends}

pub record Stack : Type 0 where
  pub base : List ℕ
  pub top : ℕ
  pub size : ℕ

-- `cells`: what `malloc` returns for `base`.
abbrev pub create_stack : List ℕ → ℕ → Stack
create_stack cells size = record { base = cells; top = 0; size = size }

abbrev pub stack_empty : Stack → Bool
stack_empty st = st.top == 0

unfoldable pub push : ℕ → Stack → Result (ℤ × Stack)
push x st =
    if ltb st.top st.size
    then (store_at st.base st.top x >>= λ a. done (pos 0, record st { base = a; top = st.top + 1 }))
    else done (negsuc 0, st)

-- A read below `base` is undefined.
unfoldable pub pop : Stack → Result (ℕ × Stack)
pop st =
    if st.top == 0
    then undefined
    else (load_at st.base (st.top - 1) >>= λ x. done (x, record st { top = st.top - 1 }))

unfoldable pub top_element : Stack → Result ℕ
top_element st = if st.top == 0 then undefined else load_at st.base (st.top - 1)

-- A stack of `n` cells that holds `xs`, from the top down.
pub record IsStack (n : ℕ) (st : Stack) (xs : List ℕ) : Type 0 where
  pub whole : length st.base ≡ n
  pub sized : st.size ≡ n
  pub counted : st.top ≡ length xs
  pub fits : length xs ≤ n
  pub cells : Stacked st.base xs

pub create_stack-IsStack :
    (n : ℕ) (cells : List ℕ) → length cells ≡ n → IsStack n (create_stack cells n) []
create_stack-IsStack n cells e = record {
  whole = e;
  sized = refl;
  counted = refl;
  fits = omega arith;
  cells = tt;
}

module _ (n : ℕ) (st : Stack) where
  pub push-IsStack :
      (x : ℕ) (xs : List ℕ)
      → IsStack n st xs
      → ltb (length xs) n ≡ true
      → Ends (λ p. (p.0 ≡ pos 0) × IsStack n p.1 (x ∷ xs)) (push x st)
  unfolding push
  push-IsStack x xs h room =
      let lt = ltb→lt (length xs) n room in
      rw
        (
          lt→ltb st.top st.size (omega (arith, h.counted, h.sized)),
          store_at-ok st.base st.top x (omega (arith, h.counted, h.whole)),
          h.counted,
        )
        (ends (
          refl,
          record {
            whole = length-set st.base (length xs) x ∙ h.whole;
            sized = h.sized;
            counted = omega arith;
            fits = omega arith;
            cells = Stacked-set st.base x xs (omega (arith, h.whole)) h.cells;
          },
        ))

  pub push_full-IsStack :
      (x : ℕ) (xs : List ℕ)
      → IsStack n st xs
      → ltb (length xs) n ≡ false
      → Ends (λ p. (p.0 ≡ negsuc 0) × IsStack n p.1 xs) (push x st)
  unfolding push
  push_full-IsStack x xs h full =
      let test : ltb st.top st.size ≡ false = ground (arith, h.counted, h.sized) in
      rw test (ends (refl, h))

  pub pop-IsStack :
      (x : ℕ) (xs : List ℕ)
      → IsStack n st (x ∷ xs)
      → Ends (λ p. (p.0 ≡ x) × IsStack n p.1 xs) (pop st)
  unfolding pop
  pop-IsStack x xs h =
      rw
        (
          ==-false st.top 0 (omega (arith, h.counted)),
          load_at-top st.base st.top x xs h.cells h.counted
              (omega (arith, h.counted, h.fits, h.whole)),
        )
        (ends (
          refl,
          record {
            whole = h.whole;
            sized = h.sized;
            counted = omega (arith, h.counted);
            fits = omega (arith, h.fits);
            cells = h.cells.1;
          },
        ))

  pub top_element-IsStack : (x : ℕ) (xs : List ℕ) → IsStack n st (x ∷ xs) → top_element st ≡ done x
  unfolding top_element
  top_element-IsStack x xs h =
      rw
        (
          ==-false st.top 0 (omega (arith, h.counted)),
          load_at-top st.base st.top x xs h.cells h.counted
              (omega (arith, h.counted, h.fits, h.whole)),
        )
        refl

pub stack_empty-is_nil :
    (n : ℕ) (st : Stack) (xs : List ℕ) → IsStack n st xs → stack_empty st ≡ is_nil xs
stack_empty-is_nil n st [] h = ==-true _ _ h.counted
stack_empty-is_nil n st (x ∷ xs) h = ==-false _ _ (omega (arith, h.counted))

-- `ar_stack.c` with `n` cells.
abbrev pub fixed : ℕ → Container
fixed n = record {
  State = Stack;
  add = push;
  remove = pop;
  first = top_element;
  empty = stack_empty;
  place = on_top;
  takes = λ k. ltb k n;
  Holds = IsStack n;
  add_law = λ x s xs. push-IsStack n s x xs;
  full_law = λ x s xs. push_full-IsStack n s x xs;
  remove_law = λ s x xs. pop-IsStack n s x xs;
  first_law = λ s x xs. top_element-IsStack n s x xs;
  empty_law = λ s xs h. stack_empty-is_nil n s xs h;
}
