-- ===== src/Books/Container/Circular.antt =====
-- src/bin/books/advanced_data_structures/ch1/ar_queue.c: a queue in an array, whose indices wrap.
pub mod Wrap
use c_lang_project.Common.Int.{negsuc, ℤ, pos, int_bound}
use c_lang_project.Lang.Array.Access.{load_at-ok, store_at-ok}
use c_lang_project.Lang.Array.{at, load_at, store_at}
use c_lang_project.Books.Container.{Container, add, at_end, first, is_nil, remove}
use c_lang_project.Common.{
  ◌%◌, ◌+◌, ◌<◌, ◌==◌, ==-false, ==-true, Bool, List, [], ap, arith, false, if◌then◌else◌, length,
  length-append, length-set, ltb, ltb→lt, refl, sym, true, ℕ, ◌∙◌, ◌∷◌, ◌≡◌, ◌≤◌, lt→ltb,
}
use c_lang_project.Books.Container.Circular.Wrap.{Queued, Queued-mod, Queued-snoc, mod-ne}
use native.Mathlib.Nat.{mod-lt, mod-eq_of_lt, mod-add-mod, add-mod_right}
use native.Mathlib.Decide.{ℕ_discrete}
use c_lang_project.Lang.Result.{◌>>=◌, Ends, Result, done, ends, undefined}

pub record Queue : Type 0 where
  pub base : List ℕ
  pub front : ℕ
  pub rear : ℕ
  pub size : ℕ

-- `cells`: what `malloc` returns for `base`.
abbrev pub create_queue : List ℕ → ℕ → Queue
create_queue cells size = record { base = cells; front = 0; rear = 0; size = size }

abbrev pub queue_empty : Queue → Bool
queue_empty qu = qu.front == qu.rear

-- `(k + d) % size` on ints: the sum may overflow, and the remainder by 0 is undefined.
abbrev pub step_by : ℕ → ℕ → ℕ → Result ℕ
step_by d k size =
    if size == 0
    then undefined
    else if ltb (k + d) int_bound
    then done ((k + d) % size)
    else undefined

unfoldable pub enqueue : ℕ → Queue → Result (ℤ × Queue)
enqueue x qu = step_by 2 qu.rear qu.size >>= λ full.
    if qu.front == full
    then done (negsuc 0, qu)
    else (store_at qu.base qu.rear x >>= λ a.
        step_by 1 qu.rear qu.size >>= λ rear'. done (pos 0, record qu { base = a; rear = rear' }))

unfoldable pub dequeue : Queue → Result (ℕ × Queue)
dequeue qu = step_by 1 qu.front qu.size >>= λ front'.
    load_at qu.base qu.front >>= λ x. done (x, record qu { front = front' })

unfoldable pub front_element : Queue → Result ℕ
front_element qu = load_at qu.base qu.front

-- A queue of `n` cells that holds `xs`, from the front on. Two cells stay free.
pub record IsQueue (n : ℕ) (qu : Queue) (xs : List ℕ) : Type 0 where
  pub whole : length qu.base ≡ n
  pub sized : qu.size ≡ n
  pub start : qu.front < n
  pub counted : qu.rear ≡ (qu.front + length xs) % n
  pub fits : length xs + 2 ≤ n
  pub small : n + 1 < int_bound
  pub cells : Queued qu.base n qu.front xs

pub create_queue-IsQueue :
    (n : ℕ) (cells : List ℕ)
    → length cells ≡ n
    → 2 ≤ n
    → n + 1 < int_bound
    → IsQueue n (create_queue cells n) []
create_queue-IsQueue n cells e two small = record {
  whole = e;
  sized = refl;
  start = omega arith;
  counted = sym (mod-eq_of_lt {n = 0} {m = n} (omega arith));
  fits = two;
  small = small;
  cells = tt;
}

module _ (n : ℕ) (qu : Queue) where
  pub queue_empty-is_nil : (xs : List ℕ) → IsQueue n qu xs → queue_empty qu ≡ is_nil xs
  queue_empty-is_nil [] h =
      ==-true _ _ (sym (mod-eq_of_lt h.start) ∙ sym (h.counted ∙ ap (λ k. k % n) (omega arith)))
  queue_empty-is_nil (x ∷ xs) h = ==-false _ _ λ e.
      mod-ne n qu.front (length (x ∷ xs)) (omega arith) (omega (arith, h.fits))
        (mod-eq_of_lt h.start ∙ e ∙ h.counted)

  rear_below : (xs : List ℕ) → IsQueue n qu xs → qu.rear < n
  rear_below xs h =
      let some_cells : 0 < n = omega (arith, h.start) in
      omega (arith, h.counted, mod-lt (qu.front + length xs) some_cells)

  -- No step from an index of the array overflows.
  step-by :
      (xs : List ℕ)
      → IsQueue n qu xs
      → (d k : ℕ) → k + d ≤ n + 1
      → step_by d k qu.size ≡ done ((k + d) % n)
  step-by xs h d k near =
      let some_cells : 0 < n = omega (arith, h.start) in
      let small = h.small in
      rw (h.sized, ==-false n 0 (omega arith), lt→ltb (k + d) int_bound (omega arith)) refl

  -- The test for a full queue.
  next_two :
      (xs : List ℕ) → IsQueue n qu xs → (qu.front == (qu.rear + 2) % n) ≡ (length xs + 2 == n)
  next_two xs h =
      let e : (qu.rear + 2) % n ≡ (qu.front + (length xs + 2)) % n =
        ap (λ r. (r + 2) % n) h.counted
        ∙ mod-add-mod (qu.front + length xs) n 2
        ∙ ap (λ k. k % n) (omega arith) in
      elim (ℕ_discrete (length xs + 2) n) [
        | yes full ↦
            ==-true _ _ (
              sym (mod-eq_of_lt h.start)
              ∙ sym (add-mod_right qu.front n)
              ∙ ap (λ k. (qu.front + k) % n) (sym full)
              ∙ sym e)
            ∙ sym (==-true _ _ full)
        | no room ↦
            ==-false _ _ (λ same.
              mod-ne n qu.front (length xs + 2) (omega arith) (omega (arith, h.fits))
                (mod-eq_of_lt h.start ∙ same ∙ e))
            ∙ sym (==-false _ _ room)
      ]

  pub enqueue-IsQueue :
      (x : ℕ) (xs : List ℕ)
      → IsQueue n qu xs
      → ltb (length xs + 2) n ≡ true
      → Ends (λ p. (p.0 ≡ pos 0) × IsQueue n p.1 (at_end x xs)) (enqueue x qu)
  unfolding enqueue
  enqueue-IsQueue x xs h room =
      let lt = ltb→lt _ _ room in
      let step = step-by xs h in
      let below = rear_below xs h in
      let long : length (at_end x xs) ≡ length xs + 1 = length-append xs (x ∷ []) ∙ omega arith in
      rw
        (
          step 2 qu.rear (omega arith),
          next_two xs h,
          ==-false (length xs + 2) n (omega arith),
          store_at-ok qu.base qu.rear x (
              omega
                (arith, h.counted, h.whole, mod-lt (qu.front + length xs) {m = n} (omega arith))),
          step 1 qu.rear (omega arith),
        )
        (ends (
          refl,
          record {
            whole = length-set qu.base qu.rear x ∙ h.whole;
            sized = h.sized;
            start = h.start;
            counted =
                ap (λ r. (r + 1) % n) h.counted
                ∙ mod-add-mod (qu.front + length xs) n 1
                ∙ ap (λ k. k % n) (omega (arith, long));
            fits = omega (arith, long);
            small = h.small;
            cells =
                rw h.counted (Queued-snoc qu.base n qu.front x xs h.whole (omega arith) h.cells);
          },
        ))

  pub enqueue_full-IsQueue :
      (x : ℕ) (xs : List ℕ)
      → IsQueue n qu xs
      → ltb (length xs + 2) n ≡ false
      → Ends (λ p. (p.0 ≡ negsuc 0) × IsQueue n p.1 xs) (enqueue x qu)
  unfolding enqueue
  enqueue_full-IsQueue x xs h full =
      let e : length xs + 2 ≡ n = ground (arith, h.fits) in
      let below = rear_below xs h in
      rw (step-by xs h 2 qu.rear (omega arith), next_two xs h, ==-true _ _ e) (ends (refl, h))

  front_cell : (x : ℕ) (xs : List ℕ) → IsQueue n qu (x ∷ xs) → load_at qu.base qu.front ≡ done x
  front_cell x xs h =
      load_at-ok qu.base qu.front (omega (arith, h.start, h.whole))
      ∙ ap done (ap (at qu.base) (sym (mod-eq_of_lt h.start)) ∙ h.cells.0)

  pub dequeue-IsQueue :
      (x : ℕ) (xs : List ℕ)
      → IsQueue n qu (x ∷ xs)
      → Ends (λ p. (p.0 ≡ x) × IsQueue n p.1 xs) (dequeue qu)
  unfolding dequeue
  dequeue-IsQueue x xs h =
      let some_cells : 0 < n = omega (arith, h.start) in
      let start = h.start in
      rw (step-by (x ∷ xs) h 1 qu.front (omega arith), front_cell x xs h)
        (ends (
          refl,
          record {
            whole = h.whole;
            sized = h.sized;
            start = mod-lt (qu.front + 1) some_cells;
            counted =
                h.counted
                ∙ ap (λ k. k % n) (omega arith)
                ∙ sym (mod-add-mod (qu.front + 1) n (length xs));
            fits = omega (arith, h.fits);
            small = h.small;
            cells = Queued-mod qu.base n (qu.front + 1) xs h.cells.1;
          },
        ))

  pub front_element-IsQueue :
      (x : ℕ) (xs : List ℕ) → IsQueue n qu (x ∷ xs) → front_element qu ≡ done x
  unfolding front_element
  front_element-IsQueue x xs h = front_cell x xs h

-- `ar_queue.c` with `n` cells, which has room for `n - 2` items.
abbrev pub circular : ℕ → Container
circular n = record {
  State = Queue;
  add = enqueue;
  remove = dequeue;
  first = front_element;
  empty = queue_empty;
  place = at_end;
  takes = λ k. ltb (k + 2) n;
  Holds = IsQueue n;
  add_law = λ x s xs. enqueue-IsQueue n s x xs;
  full_law = λ x s xs. enqueue_full-IsQueue n s x xs;
  remove_law = λ s x xs. dequeue-IsQueue n s x xs;
  first_law = λ s x xs. front_element-IsQueue n s x xs;
  empty_law = λ s xs h. queue_empty-is_nil n s xs h;
}
