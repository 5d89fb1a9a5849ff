-- ===== src/Books/Container/Runs.antt =====
-- The programs with arrays, from their creation on, give the answers of a list.
use c_lang_project.Common.Int.{int_bound}
use c_lang_project.Books.Container.Client.{run-list_run}
use c_lang_project.Books.Container.Fixed.{fixed}
use c_lang_project.Lang.Result.{done}
use c_lang_project.Books.Container.Circular.{circular, create_queue, create_queue-IsQueue}
use c_lang_project.Books.Container.Blocks.{blocks, create_stack, create_stack-IsStack}
use c_lang_project.Books.Container.{Answer, Call, at_end, list_run, on_top, run}
use c_lang_project.Common.{◌+◌, ◌<◌, List, [], length, ltb, true, ℕ, ◌≡◌, ◌≤◌}
use c_lang_project.Books.Container.Fixed
use c_lang_project.Books.Container.Circular
use c_lang_project.Books.Container.Blocks

module _ (ks : List Call) (answers : List Answer) (n : ℕ) (cells : List ℕ)
    (given : length cells ≡ n) where
  -- From create_stack on, whatever calls of push, pop, top_element and stack_empty of ar_stack.c
  -- are defined for a list that takes a new item in front while it has fewer than size, are
  -- defined for the stack, with the same answers.
  pub fixed-run-list_run :
      list_run on_top (λ k. ltb k n) ks [] ≡ done answers
      → run (Fixed.fixed n) ks (Fixed.create_stack cells n) ≡ done answers
  fixed-run-list_run e =
      run-list_run (Fixed.fixed n) ks (Fixed.create_stack cells n) [] answers
        (Fixed.create_stack-IsStack n cells given) e

  -- From create_queue with at least two and fewer than INT_MAX cells on, whatever calls of
  -- enqueue, dequeue, front_element and queue_empty of ar_queue.c are defined for a list that
  -- takes a new item at its end while it has fewer than size - 2, are defined for the queue, with
  -- the same answers.
  pub circular-run-list_run :
      2 ≤ n
      → n + 1 < int_bound
      → list_run at_end (λ k. ltb (k + 2) n) ks [] ≡ done answers
      → run (Circular.circular n) ks (Circular.create_queue cells n) ≡ done answers
  circular-run-list_run two small e =
      run-list_run (Circular.circular n) ks (Circular.create_queue cells n) [] answers
        (Circular.create_queue-IsQueue n cells given two small) e

  -- From create_stack with at least one cell on, with malloc returning blocks of the size asked
  -- for, whatever calls of push, pop, top_element and stack_empty of bl_stack.c are defined for a
  -- list that takes a new item in front, are defined for the stack, with the same answers.
  pub blocks-run-list_run :
      (some_cell : 0 < n) (fresh : ℕ → List ℕ) (more : length (fresh n) ≡ n)
      → list_run on_top (λ k. true) ks [] ≡ done answers
      → run (Blocks.blocks n some_cell fresh more) ks (Blocks.create_stack cells n) ≡ done answers
  blocks-run-list_run some_cell fresh more e =
      run-list_run (Blocks.blocks n some_cell fresh more) ks (Blocks.create_stack cells n) []
        answers (Blocks.create_stack-IsStack n cells given) e
