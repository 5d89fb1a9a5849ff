-- ===== src/DataStructs/Queue/Loops.antt =====
-- The loops of src/libs/data_structs/queue.c: `Queue_length` and `Queue_destroy`.
use c_lang_project.TinyC.Code.{c}
use c_lang_project.DataStructs.List.Walk.{Without, fold}
use c_lang_project.Lang.Returns.{Returns, Returns-bind, Returns-mono, returns}
use c_lang_project.DataStructs.ListRep.{Node, Object}
use c_lang_project.DataStructs.Queue.Fifo.{IsQueue, remove-cons, remove-nil}
use c_lang_project.Lang.Memory.{Heap, Ptr, null, ok}
use c_lang_project.DataStructs.ListRep.Chain.{Cells, Chain, first, load-ok, not-null, objects}
use c_lang_project.Common.{
  ◌+◌, ◌<◌, ◌==◌, Option, [], ap, arith, false, length, refl, suc, true, zero, ℕ, ◌∙◌, ◌∷◌, ◌≡◌,
}
use c_lang_project.DataStructs.Queue.{
  length_loop, size, iterator, destroy_loop, destroy, is_empty, Queue, free_data,
}

length_loop-length :
    (k : ℕ) (h : Heap Node) (q : Queue) (p : Ptr) (d : Object) (xs : Cells) (n : ℕ)
    → Chain h null ((p, d) ∷ xs)
    → length xs < k
    → length_loop k q p n h ≡ ok (n + length xs) h
unfolding length_loop iterator
length_loop-length zero h q p d xs n c f = absurd (omega arith)
length_loop-length (suc k) h q p d [] n (ne, out, e, c) f =
    rw (not-null h p d null ne e, load-ok h p d null ne e) (ap (λ m. ok m h) (omega arith))
length_loop-length (suc k) h q p d ((r, v) ∷ xs) n (ne, out, e, (ne', out', e', c)) f =
    rw (not-null h p d r ne e, load-ok h p d r ne e, not-null h r v (first null xs) ne' e')
      (length_loop-length k h q r v xs (n + 1) (ne', out', e', c) (omega arith)
        ∙ ap (λ m. ok m h) (omega arith))

-- With fuel above the number of nodes, Queue_length returns the number of data in the queue.
pub size-length_queue :
    (k : ℕ) (h : Heap Node) (q : Queue) (xs : Cells)
    → IsQueue h q xs
    → length xs < k
    → size k q h ≡ ok (length xs) h
unfolding size length_loop iterator
size-length_queue zero h q xs v f = absurd (omega arith)
size-length_queue (suc k) h q [] v f = rw v.items.start
size-length_queue (suc k) h q ((p, d) ∷ xs) v f =
    let (ne, out, e, c) = v.items.chain in
    rw (v.items.start, not-null h p d (first null xs) ne e)
      (length_loop-length k h (record { front = p; rear = q.rear }) p d xs 1 v.items.chain
          (omega arith)
        ∙ ap (λ m. ok m h) (omega arith))

module _ {S : Type 0} (release : Object → S → S) (free : Option (Object → S → S)) where
  destroy_loop-Without :
      (k : ℕ) (h : Heap Node) (q : Queue) (xs : Cells) (s : S)
      → IsQueue h q xs
      → length xs < k
      → Returns
          (λ s' g. (s' ≡ fold (objects xs) (free_data release free) s) × Without xs h g)
          (destroy_loop k q release free s h)
  unfolding destroy_loop
  destroy_loop-Without zero h q xs s v f = absurd (omega arith)
  destroy_loop-Without (suc k) h q [] s v f = rw (remove-nil h q v) (returns (refl, λ a. refl))
  destroy_loop-Without (suc k) h q ((p, d) ∷ xs) s v f =
      let out = v.items.chain.1 in
      Returns-bind (remove-cons h q p d xs v) λ (got, q') g (e, v', same, freed). rw e (
        Returns-mono (destroy_loop-Without k g q' xs (free_data release free d s) v' (omega arith))
          λ s' g' (said, gone). (said, λ a. ground (arith, gone a, same a)))

  -- With fuel above the number of nodes, Queue_destroy of a queue that is not empty frees every
  -- node and then the structure, and hands the data to the free function from the front to the
  -- rear.
  pub destroy-cons :
      (k : ℕ) (h : Heap Node) (q : Queue) (x : Ptr × Object) (xs : Cells) (s : S)
      → IsQueue h q (x ∷ xs)
      → suc (length xs) < k
      → Returns
          (λ (gone, s') g.
            (gone ≡ true)
            × (s' ≡ fold (objects (x ∷ xs)) (free_data release free) s)
            × Without (x ∷ xs) h g)
          (destroy k q release free s h)
  unfolding destroy is_empty
  destroy-cons k h q x xs s v f =
      let (ne, out, e, c) = v.items.chain in
      let there : (q.front == null) ≡ false = ground (arith, v.items.start) in
      rw there (
        Returns-bind (destroy_loop-Without k h q (x ∷ xs) s v f)
          λ s' g (said, gone). returns (refl, said, gone))

  -- Queue_destroy of an empty queue returns with the structure still allocated.
  pub destroy-nil :
      (k : ℕ) (h : Heap Node) (q : Queue) (s : S)
      → IsQueue h q []
      → destroy k q release free s h ≡ ok (false, s) h
  unfolding destroy is_empty
  destroy-nil k h q s v = rw v.items.start
