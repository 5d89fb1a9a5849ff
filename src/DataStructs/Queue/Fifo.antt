-- ===== src/DataStructs/Queue/Fifo.antt =====
-- The queue of src/libs/data_structs/queue.c is first in, first out.
use c_lang_project.Lang.Returns.{Returns, returns}
use c_lang_project.DataStructs.Queue.{
  Queue, add, allocate_node, free_node, is_empty, new, remove, set_next,
}
use c_lang_project.DataStructs.ListRep.{Node, Object, node}
use c_lang_project.Lang.Memory.{Heap, Ptr, null, ok, write, memory_alloc}
use c_lang_project.DataStructs.ListRep.Chain.{
  Cells, Chain, Chain-append, Chain-relink, Chain-write, IsList, SameOutside, first, first-append,
  first-ne-null, has, has-append, last-in_heap, load-ok, memory_free-ok, not-has_of_none, not-null,
  store-ok, unsnoc,
}
use c_lang_project.Common.{
  ◌++◌, ◌==◌, Option, [], ap, arith, false, none, refl, some, subst, sym, true, ◌∙◌, ◌∷◌, ◌≡◌, ◌≢◌,
}

-- The address of the last node.
abbrev pub last : Cells → Ptr
last [] = null
last ((p, _) ∷ []) = p
last (_ ∷ x ∷ xs) = last (x ∷ xs)

-- The nodes `xs` from the front to the rear.
pub record IsQueue (h : Heap Node) (q : Queue) (xs : Cells) : Type 0 where
  pub items : IsList h q.front xs
  pub back : q.rear ≡ last xs

last-append : (xs : Cells) (p : Ptr) (d : Object) → last (xs ++ (p, d) ∷ []) ≡ p
last-append [] p d = refl
last-append (x ∷ []) p d = refl
last-append (x ∷ y ∷ xs) p d = last-append (y ∷ xs) p d

-- `Queue_new` is an empty queue.
pub new-IsQueue :
    (h : Heap Node) (fresh : Ptr)
    → fresh ≢ null
    → Returns (λ q g. IsQueue g q [] × (g ≡ h) × (is_empty q ≡ true)) (new fresh h)
unfolding new is_empty
new-IsQueue h fresh ne =
    let there : (fresh == null) ≡ false = ground arith in
    rw there
      (returns (record { items = record { start = refl; chain = tt }; back = refl }, refl, refl))

abbrev pub Added : Heap Node → Ptr → Object → Cells → Queue → Heap Node → Type 0
Added h fresh d xs q g =
    IsQueue g q (xs ++ (fresh, d) ∷ []) × SameOutside (xs ++ (fresh, d) ∷ []) h g

-- A queue that is not empty is written at its last node.
add-behind :
    (h : Heap Node) (fresh front : Ptr) (d : Object) (ys : Cells) (r : Ptr) (v : Object)
    → Chain h null (ys ++ (r, v) ∷ [])
    → front ≡ first r ys
    → fresh ≢ null
    → h fresh ≡ none
    → Returns
        (Added h fresh d (ys ++ (r, v) ∷ []))
        (add fresh (record { front = front; rear = r }) d h)
unfolding add is_empty allocate_node memory_alloc set_next write
add-behind h fresh front d ys r v c start ne unused =
    let zs : Cells = ys ++ (r, v) ∷ [] in
    let h1 = write h fresh (some (node d null)) in
    let out = not-has_of_none h null zs fresh c unused in
    let c1 = Chain-write h null zs fresh (some (node d null)) c out in
    let (ne', e') = last-in_heap h1 null ys r v c1 in
    let got : (fresh == null) ≡ false = ground arith in
    let some_there : (first r ys == null) ≡ false = ground (arith, first-ne-null h null ys r v c) in
    rw
      (
        start,
        got,
        some_there,
        load-ok h1 r v null ne' e',
        store-ok h1 r v null ne' e' (node v fresh),
      )
      (returns (
        record {
          items = record {
            start = ground (
              arith,
              first-append null zs ((fresh, d) ∷ []),
              first-append fresh ys ((r, v) ∷ []),
            );
            chain =
                Chain-append _ null zs ((fresh, d) ∷ []) (Chain-relink h1 null fresh ys r v c1)
                  (ne, refl, ground (arith, has-append fresh ys ((r, v) ∷ [])), tt)
                  (λ a i. grind arith);
          };
          back = sym (last-append zs fresh d);
        },
        λ a o. ground (arith, has-append a zs ((fresh, d) ∷ []), has-append a ys ((r, v) ∷ [])),
      ))

-- Queue_add, with malloc succeeding, puts the new node behind the others, keeps front and rear
-- right, and writes no cell outside the new queue.
pub add-snoc :
    (h : Heap Node) (fresh : Ptr) (q : Queue) (d : Object) (xs : Cells)
    → IsQueue h q xs
    → fresh ≢ null
    → h fresh ≡ none
    → Returns (Added h fresh d xs) (add fresh q d h)
unfolding add is_empty allocate_node memory_alloc write
add-snoc h fresh q d [] v ne unused =
    let got : (fresh == null) ≡ false = ground arith in
    rw (v.items.start, got)
      (returns (
        record {
          items = record { start = refl; chain = (ne, refl, ground arith, tt) };
          back = refl;
        },
        λ a o. ground arith,
      ))
add-snoc h fresh q d (x ∷ xs) v ne unused =
    let (ys, (r, w), e) = unsnoc x xs in
    let c : Chain h null (ys ++ (r, w) ∷ []) = subst (Chain h null) e v.items.chain in
    let start : q.front ≡ first r ys =
      v.items.start ∙ ap (first null) e ∙ first-append null ys ((r, w) ∷ []) in
    let rear : q.rear ≡ r = v.back ∙ ap last e ∙ last-append ys r w in
    rw (e, rear) (add-behind h fresh q.front d ys r w c start ne unused)

abbrev pub Removed : Heap Node → Ptr × Object → Cells → Option Object × Queue → Heap Node → Type 0
Removed h (p, d) xs (out, q) g =
    (out ≡ some d) × IsQueue g q xs × SameOutside ((p, d) ∷ xs) h g × (g p ≡ none)

-- Behind the front node, the last node is another one.
last-ne-front :
    (p : Ptr) (x : Ptr × Object) (xs : Cells)
    → has p (x ∷ xs) ≡ false
    → (last (x ∷ xs) == p) ≡ false
last-ne-front p x [] out = ground arith
last-ne-front p x (y ∷ xs) out = last-ne-front p y xs (ground arith)

-- Queue_remove on a queue that is not empty hands out the datum at the front, frees its node, and
-- leaves the queue of the others with front and rear right, also when it becomes empty.
pub remove-cons :
    (h : Heap Node) (q : Queue) (p : Ptr) (d : Object) (xs : Cells)
    → IsQueue h q ((p, d) ∷ xs)
    → Returns (Removed h (p, d) xs) (remove q h)
unfolding remove is_empty free_node write
remove-cons h q p d [] v =
    let (ne, out, e, c) = v.items.chain in
    let there = not-null h p d null ne e in
    let only : (p == p) ≡ true = ground arith in
    rw (v.items.start, v.back, there, load-ok h p d null ne e, only, memory_free-ok h p d null ne e)
      (returns (
        refl,
        record { items = record { start = refl; chain = tt }; back = refl },
        λ a o. ground arith,
        ground arith,
      ))
remove-cons h q p d (x ∷ xs) v =
    let (ne, out, e, c) = v.items.chain in
    let there = not-null h p d x.0 ne e in
    let more = last-ne-front p x xs out in
    rw (v.items.start, v.back, there, load-ok h p d x.0 ne e, more, memory_free-ok h p d x.0 ne e)
      (returns (
        refl,
        record {
          items = record { start = refl; chain = Chain-write h null (x ∷ xs) p none c out };
          back = refl;
        },
        λ a o. ground arith,
        ground arith,
      ))

-- On an empty queue `Queue_remove` says so and changes nothing.
pub remove-nil : (h : Heap Node) (q : Queue) → IsQueue h q [] → remove q h ≡ ok (none, q) h
unfolding remove is_empty
remove-nil h q v = rw v.items.start
