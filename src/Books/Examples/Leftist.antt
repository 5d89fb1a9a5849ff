-- ===== src/Books/Examples/Leftist.antt =====
-- left_heap.c at small inputs.
use c_lang_project.Common.{arith, inr, refl, ◌≡◌}
use c_lang_project.Lang.Result.{Ends, done}
use c_lang_project.Books.LeftistHeap.{
  Tree, nil, node, delete_min, find_min_key, insert, merge, merge_loop, merge_paths, settle,
}
use c_lang_project.Books.LeftistHeap
use c_lang_project.Books.LeftistHeap.Invariant.{IsValid, IsLeftistHeap}
use c_lang_project.Books.LeftistHeap.Merge.{Joined, merge-Joined}
use c_lang_project.Books.LeftistHeap.DeleteMin.{Deleted, delete_min-Deleted}

abbrev heap : Tree
heap = node 2 3 31 (node 1 5 51 nil nil) (node 1 8 81 nil nil)

abbrev heap-IsValid : IsValid heap
heap-IsValid = record { leftist = omega arith; heap = omega arith; some_node = omega arith }

abbrev other : Tree
other = node 1 4 41 (node 1 9 91 nil nil) nil

abbrev other-IsLeftistHeap : IsLeftistHeap other
other-IsLeftistHeap =
    inr (record { leftist = omega arith; heap = omega arith; some_node = omega arith })

merge-Joined_example : Ends (Joined heap other) (LeftistHeap.merge heap other)
merge-Joined_example =
    merge-Joined heap other (inr heap-IsValid) other-IsLeftistHeap (omega arith) (omega arith)

delete_min-Deleted_example :
    Ends (λ r. Ends (Deleted heap r) (LeftistHeap.find_min_key heap)) (LeftistHeap.delete_min heap)
delete_min-Deleted_example = delete_min-Deleted heap heap-IsValid (omega arith)

delete_min_merges : LeftistHeap.delete_min heap ≡ done (31, node 1 5 51 (node 1 8 81 nil nil) nil)
unfolding LeftistHeap.delete_min LeftistHeap.merge LeftistHeap.merge_paths LeftistHeap.merge_loop
    LeftistHeap.settle
delete_min_merges = refl
