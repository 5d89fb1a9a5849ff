-- ===== src/Books/Container/Blocks.antt =====
-- src/bin/books/advanced_data_structures/ch1/bl_stack.c: a stack in blocks of one size. `previous`
-- lists the records that the pointers `previous` lead through; no other pointer leads to them.
use c_lang_project.Common.Int.{pos}
use c_lang_project.Lang.Array.Access.{store_at-ok}
use c_lang_project.Books.Container.{Container, is_nil, on_top}
use c_lang_project.Lang.Array.{load_at, store_at}
use c_lang_project.Books.Container.Items.{Stacked, load_at-top, Stacked-set}
use c_lang_project.Common.{
  ◌+◌, ◌++◌, ◌-◌, ◌<◌, ◌==◌, ==-false, Bool, List, [], ap, arith, false, if◌then◌else◌, length, ltb,
  refl, sym, true, ℕ, ◌∙◌, ◌∷◌, ◌≡◌, ◌≤◌, ==-true, length-set, le→ltb, lt→ltb,
}
use native.Mathlib.Decide.{dec_lt}
use mathlib.Core.Bool.{false≢true}
use c_lang_project.Lang.Result.{◌>>=◌, Ends, Ends-mono, Result, done, ends, undefined, Ends-bind}

pub record Block : Type 0 where
  pub base : List ℕ
  pub top : ℕ
  pub size : ℕ

pub record Stack : Type 0 where
  pub block : Block
  pub previous : List Block

-- `cells`: what `malloc` returns for `base`.
abbrev pub create_stack : List ℕ → ℕ → Stack
create_stack cells size = record {
  block = record { base = cells; top = 0; size = size };
  previous = [];
}

-- `previous == NULL`.
abbrev pub is_no_block : List Block → Bool
is_no_block [] = true
is_no_block (b ∷ bs) = false

abbrev pub stack_empty : Stack → Bool
stack_empty st = if st.block.top == 0 then is_no_block st.previous else false

-- `fresh`: what `malloc` returns for a new `base`.
unfoldable pub push : (ℕ → List ℕ) → ℕ → Stack → Result Stack
push fresh x st =
    let b = st.block in
    if ltb b.top b.size
    then (store_at b.base b.top x >>= λ a.
        done (record st { block = record b { base = a; top = b.top + 1 } }))
    else (store_at (fresh b.size) 0 x >>= λ a. done (record {
      block = record { base = a; top = 1; size = b.size };
      previous = b ∷ st.previous;
    }))

-- A read below `base` is undefined.
unfoldable pub take_top : Block → List Block → Result (ℕ × Stack)
take_top b older =
    if b.top == 0
    then undefined
    else (load_at b.base (b.top - 1) >>= λ x.
        done (x, record { block = record b { top = b.top - 1 }; previous = older }))

-- The block is empty, and the one before it takes its place.
unfoldable pub pop_older : List Block → Result (ℕ × Stack)
pop_older [] = undefined
pop_older (old ∷ older) = take_top old older

unfoldable pub pop : Stack → Result (ℕ × Stack)
pop st = if st.block.top == 0 then pop_older st.previous else take_top st.block st.previous

abbrev pub top_older : List Block → Result ℕ
top_older [] = undefined
top_older (old ∷ older) = if old.top == 0 then undefined else load_at old.base (old.top - 1)

unfoldable pub top_element : Stack → Result ℕ
top_element st =
    if st.block.top == 0 then top_older st.previous else load_at st.block.base (st.block.top - 1)

-- A block of `n` cells that holds `xs`, from the top down.
pub record IsBlock (n : ℕ) (b : Block) (xs : List ℕ) : Type 0 where
  pub whole : length b.base ≡ n
  pub sized : b.size ≡ n
  pub counted : b.top ≡ length xs
  pub fits : length xs ≤ n
  pub cells : Stacked b.base xs

-- The older blocks are full. Their items, the newest first.
pub data IsFull (n : ℕ) : List Block → List ℕ → Type 0 where
  no_block : IsFull n [] []
  more :
      {b : Block} {bs : List Block} {xs ys : List ℕ}
      → IsBlock n b xs
      → length xs ≡ n
      → IsFull n bs ys
      → IsFull n (b ∷ bs) (xs ++ ys)

-- A stack in blocks of `n` cells that holds `xs`, from the top down.
pub data IsStack (n : ℕ) (st : Stack) (xs : List ℕ) : Type 0 where
  is_stack :
      (newer older : List ℕ)
      → IsBlock n st.block newer
      → IsFull n st.previous older
      → xs ≡ newer ++ older
      → IsStack n st xs

pub create_stack-IsStack :
    (n : ℕ) (cells : List ℕ) → length cells ≡ n → IsStack n (create_stack cells n) []
create_stack-IsStack n cells e =
    is_stack [] []
      (record { whole = e; sized = refl; counted = refl; fits = omega arith; cells = tt }) no_block
      refl

module _ (n : ℕ) (some_cell : 0 < n) where
  take_top-IsStack :
      (b : Block) (bs : List Block) (x : ℕ) (xs ys zs : List ℕ)
      → IsBlock n b (x ∷ xs)
      → IsFull n bs ys
      → zs ≡ xs ++ ys
      → Ends (λ p. (p.0 ≡ x) × IsStack n p.1 zs) (take_top b bs)
  unfolding take_top
  take_top-IsStack b bs x xs ys zs h below e =
      rw
        (
          ==-false b.top 0 (omega (arith, h.counted)),
          load_at-top b.base b.top x xs h.cells h.counted
              (omega (arith, h.counted, h.fits, h.whole)),
        )
        (ends (
          refl,
          is_stack xs ys
              (record {
                whole = h.whole;
                sized = h.sized;
                counted = omega (arith, h.counted);
                fits = omega (arith, h.fits);
                cells = h.cells.1;
              })
              below e,
        ))

  -- Below an empty block lies a full one.
  pop_older-IsStack :
      (bs : List Block) (x : ℕ) (xs ys : List ℕ)
      → IsFull n bs ys
      → x ∷ xs ≡ ys
      → Ends (λ p. (p.0 ≡ x) × IsStack n p.1 xs) (pop_older bs)
  unfolding pop_older
  pop_older-IsStack _ x xs _ no_block e = cc
  pop_older-IsStack _ x xs _ (more {xs = []} h full below) e = absurd (omega arith)
  pop_older-IsStack _ x xs _ (more {b = b} {bs = bs} {xs = y ∷ zs} {ys = ys} h full below) e =
      let ex : x ≡ y = cc in
      Ends-mono (take_top-IsStack b bs y zs ys xs h below cc) λ p (ey, st). (ey ∙ sym ex, st)

  top_older-IsStack :
      (bs : List Block) (x : ℕ) (xs ys : List ℕ)
      → IsFull n bs ys
      → x ∷ xs ≡ ys
      → top_older bs ≡ done x
  top_older-IsStack _ x xs _ no_block e = cc
  top_older-IsStack _ x xs _ (more {xs = []} h full below) e = absurd (omega arith)
  top_older-IsStack _ x xs _ (more {b = b} {bs = bs} {xs = y ∷ zs} {ys = ys} h full below) e =
      let ex : x ≡ y = cc in
      rw
        (
          ==-false b.top 0 (omega (arith, h.counted)),
          load_at-top b.base b.top y zs h.cells h.counted
              (omega (arith, h.counted, h.fits, h.whole)),
        )
        (ap done (sym ex))

  pub pop-IsStack :
      (st : Stack) (x : ℕ) (xs : List ℕ)
      → IsStack n st (x ∷ xs)
      → Ends (λ p. (p.0 ≡ x) × IsStack n p.1 xs) (pop st)
  unfolding pop
  pop-IsStack st x xs (is_stack [] ys h below e) =
      rw (==-true st.block.top 0 h.counted) (pop_older-IsStack st.previous x xs ys below e)
  pop-IsStack st x xs (is_stack (y ∷ zs) ys h below e) =
      let ex : x ≡ y = cc in
      rw (==-false st.block.top 0 (omega (arith, h.counted))) (
        Ends-mono (take_top-IsStack st.block st.previous y zs ys xs h below cc)
          λ p (ey, s). (ey ∙ sym ex, s))

  pub top_element-IsStack :
      (st : Stack) (x : ℕ) (xs : List ℕ) → IsStack n st (x ∷ xs) → top_element st ≡ done x
  unfolding top_element
  top_element-IsStack st x xs (is_stack [] ys h below e) =
      rw (==-true st.block.top 0 h.counted) (top_older-IsStack st.previous x xs ys below e)
  top_element-IsStack st x xs (is_stack (y ∷ zs) ys h below e) =
      let ex : x ≡ y = cc in
      rw
        (
          ==-false st.block.top 0 (omega (arith, h.counted)),
          load_at-top st.block.base st.block.top y zs h.cells h.counted
              (omega (arith, h.counted, h.fits, h.whole)),
        )
        (ap done (sym ex))

  is_no_block-is_nil : (bs : List Block) (ys : List ℕ) → IsFull n bs ys → is_no_block bs ≡ is_nil ys
  is_no_block-is_nil _ _ no_block = refl
  is_no_block-is_nil _ _ (more {xs = []} h full below) = absurd (omega arith)
  is_no_block-is_nil _ _ (more {xs = y ∷ zs} h full below) = refl

  pub stack_empty-is_nil : (st : Stack) (xs : List ℕ) → IsStack n st xs → stack_empty st ≡ is_nil xs
  stack_empty-is_nil st xs (is_stack [] ys h below e) =
      rw (==-true st.block.top 0 h.counted, e) (is_no_block-is_nil st.previous ys below)
  stack_empty-is_nil st xs (is_stack (y ∷ zs) ys h below e) =
      rw (==-false st.block.top 0 (omega (arith, h.counted)), e) refl

  module _ (fresh : ℕ → List ℕ) (given : length (fresh n) ≡ n) where
    pub push-IsStack :
        (x : ℕ) (st : Stack) (xs : List ℕ)
        → IsStack n st xs
        → Ends (λ s. IsStack n s (x ∷ xs)) (push fresh x st)
    unfolding push
    push-IsStack x st xs (is_stack ys zs h below e) = elim (dec_lt (length ys) n) [
      | yes room ↦
          rw
            (
              lt→ltb st.block.top st.block.size (omega (arith, h.counted, h.sized)),
              store_at-ok st.block.base st.block.top x (omega (arith, h.counted, h.whole)),
              h.counted,
            )
            (ends (
              is_stack (x ∷ ys) zs
                (record {
                  whole = length-set st.block.base (length ys) x ∙ h.whole;
                  sized = h.sized;
                  counted = omega arith;
                  fits = omega arith;
                  cells = Stacked-set st.block.base x ys (omega (arith, h.whole)) h.cells;
                })
                below (ap (◌∷◌ x) e)))
      | no full ↦
          let size_given : length (fresh st.block.size) ≡ n =
            ap (λ k. length (fresh k)) h.sized ∙ given in
          rw
            (
              le→ltb st.block.top st.block.size (omega (arith, h.counted, h.sized)),
              store_at-ok (fresh st.block.size) 0 x (omega (arith, size_given)),
            )
            (ends (
              is_stack (x ∷ []) (ys ++ zs)
                (record {
                  whole = length-set (fresh st.block.size) 0 x ∙ size_given;
                  sized = h.sized;
                  counted = refl;
                  fits = omega arith;
                  cells = Stacked-set (fresh st.block.size) x [] (omega (arith, size_given)) tt;
                })
                (more h (omega (arith, h.fits)) below) (ap (◌∷◌ x) e)))
    ]

-- `bl_stack.c` with blocks of `n` cells.
abbrev pub blocks : (n : ℕ) → 0 < n → (fresh : ℕ → List ℕ) → length (fresh n) ≡ n → Container
blocks n some_cell fresh given = record {
  State = Stack;
  add = λ x s. push fresh x s >>= λ s'. done (pos 0, s');
  remove = pop;
  first = top_element;
  empty = stack_empty;
  place = on_top;
  takes = λ k. true;
  Holds = IsStack n;
  add_law = λ x s xs h room.
      Ends-bind (push-IsStack n some_cell fresh given x s xs h) λ s' h'. ends (refl, h');
  full_law = λ x s xs h full. absurd (false≢true (sym full));
  remove_law = λ s x xs. pop-IsStack n some_cell s x xs;
  first_law = λ s x xs. top_element-IsStack n some_cell s x xs;
  empty_law = λ s xs h. stack_empty-is_nil n some_cell s xs h;
}
