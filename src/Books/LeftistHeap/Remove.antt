-- ===== src/Books/LeftistHeap/Remove.antt =====
-- `remove_heap` of left_heap.c.
use c_lang_project.Books.LeftistHeap.Invariant.{size}
use c_lang_project.Lang.Result.{done}
use c_lang_project.Books.LeftistHeap.{Tree, nil, node, rank, remove_heap, remove_loop}
use c_lang_project.Common.{◌*◌, ◌+◌, ◌<◌, ==-false, ap, arith, suc, zero, ℕ, ◌∙◌, ◌≡◌, ◌≤◌}

abbrev rounds : Tree → ℕ
rounds nil = 1
rounds (node n k o l r) = 1 + 2 * size l + rounds r

rounds-le : (t : Tree) → rounds t ≤ 2 * size t + 1
rounds-le nil = omega arith
rounds-le (node n k o l r) = omega (arith, rounds-le r)

remove_loop-size :
    (fuel : ℕ) (t : Tree) (returned : ℕ)
    → rounds t ≤ fuel
    → remove_loop fuel t returned ≡ done (returned + size t)
unfolding remove_loop
remove_loop-size zero nil returned h = absurd (omega arith)
remove_loop-size zero (node n k o l r) returned h = absurd (omega arith)
remove_loop-size (suc fuel) nil returned h = ap done (omega arith)
remove_loop-size (suc fuel) (node n k o nil r) returned h =
    remove_loop-size fuel r (returned + 1) (omega arith) ∙ ap done (omega arith)
remove_loop-size (suc fuel) (node n k o (node n' k' o' l m) r) returned h =
    remove_loop-size fuel (node n' k' o' l (node n k o m r)) returned (omega arith)
    ∙ ap done (omega arith)

-- With fuel for two rounds for each node and one more, remove_heap of a heap that is not empty
-- ends, and has called return_node as often as the heap has nodes.
pub remove_heap-size :
    (fuel : ℕ) (t : Tree) → 0 < rank t → 2 * size t + 1 ≤ fuel → remove_heap fuel t ≡ done (size t)
unfolding remove_heap
remove_heap-size fuel t some_node h =
    rw (==-false (rank t) 0 (omega arith))
      (remove_loop-size fuel t 0 (omega (arith, rounds-le t)) ∙ ap done (omega arith))
