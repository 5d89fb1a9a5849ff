-- ===== src/Books/Examples/Skew.antt =====
-- skew_heap.c at small inputs.
use c_lang_project.Lang.Result.{Ends, done}
use c_lang_project.Common.{◌+◌, arith, inr, refl, true, ◌≡◌}
use c_lang_project.Books.SkewHeap
use c_lang_project.Books.SkewHeap.{Tree, nil, node}
use c_lang_project.Books.SkewHeap.Laws.{
  Holds, Deleted, IsHeap, contents, merge-Holds, delete_min-Deleted_skew,
}

abbrev evens : Tree
evens = node 2 102 (node 6 106 nil nil) (node 4 104 nil nil)

abbrev odds : Tree
odds = node 1 101 (node 5 105 nil nil) (node 3 103 nil nil)

abbrev evens-IsHeap : IsHeap 0 evens
evens-IsHeap = (
  omega arith,
  omega arith,
  (omega arith, omega arith, tt, tt),
  (omega arith, omega arith, tt, tt),
)

abbrev odds-IsHeap : IsHeap 0 odds
odds-IsHeap = (
  omega arith,
  omega arith,
  (omega arith, omega arith, tt, tt),
  (omega arith, omega arith, tt, tt),
)

merge-Holds_example :
    Ends (Holds (λ w. contents w evens + contents w odds)) (SkewHeap.merge evens odds)
merge-Holds_example = merge-Holds evens odds (inr evens-IsHeap) (inr odds-IsHeap)

delete_min-Deleted_skew_example : Ends (Deleted 2 102 evens) (SkewHeap.delete_min evens)
delete_min-Deleted_skew_example =
    delete_min-Deleted_skew 2 102 (node 6 106 nil nil) (node 4 104 nil nil) evens-IsHeap

insert_exchanges :
    SkewHeap.insert true 5 105 evens
    ≡ done (node 2 102 (node 4 104 nil (node 5 105 nil nil)) (node 6 106 nil nil))
unfolding SkewHeap.insert SkewHeap.insert_path
insert_exchanges = refl
