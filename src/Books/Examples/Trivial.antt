-- ===== src/Books/Examples/Trivial.antt =====
-- triv_tree.c at small inputs.
use c_lang_project.Books.TrivialTree.Remove.{remove_tree-available}
use c_lang_project.Books.TrivialTree.Interval.{Listed, interval_find-select, items, select}
use c_lang_project.Books.TrivialTree.Operations.{nodes}
use c_lang_project.Books.TrivialTree.{
  delete, delete_found, find_iterative, find_recursive, insert, interval_find, remove_tree, follow,
  interval_loop,
}
use c_lang_project.Books.NodePool.Counts.{available}
use c_lang_project.Books.SearchTree.{Tree, descend, leaf, node}
use c_lang_project.Books.NodePool.{Pool, hand_out, return_node, get_node}
use c_lang_project.Lang.Result.{Ends, done}
use c_lang_project.Common.{◌+◌, [], arith, inr, refl, ℕ, ◌∷◌, ◌≡◌}
use c_lang_project.Books.TrivialTree
use c_lang_project.Books.TrivialTree.Operations.Insert.{Inserted, insert-IsSearchTree}
use c_lang_project.Books.TrivialTree.Operations.Delete.{Deleted, delete-IsSearchTree}

-- Nodes 1 to 5, of a block of which the pool still has node 6 and those behind it.
abbrev three_keys : Tree ℕ
three_keys = node 20 1 (leaf 10 2 101) (node 30 3 (leaf 20 4 201) (leaf 30 5 301))

abbrev pool : Pool
pool = record { free = []; block = 6; size_left = 251; nodes_taken = 5; nodes_returned = 0 }

insert-IsSearchTree_example :
    Ends
      (Inserted 900 900 three_keys 25 251 pool)
      (TrivialTree.insert 900 900 three_keys 25 251 pool)
unfolding hand_out
insert-IsSearchTree_example =
    insert-IsSearchTree 900 900 three_keys 25 251 pool (inr (omega arith)) (omega arith)
      (omega arith) (omega arith) (omega arith) (omega arith)

delete-IsSearchTree_example :
    Ends (Deleted three_keys 20 pool) (TrivialTree.delete three_keys 20 pool)
delete-IsSearchTree_example =
    delete-IsSearchTree three_keys 20 pool (inr (omega arith)) (omega arith) (omega arith)

-- The node above the leaf takes the contents of the other child, whose node is given back.
delete_moves :
    TrivialTree.delete three_keys 20 pool
    ≡ done (record {
      answer = 201;
      tree = node 20 1 (leaf 10 2 101) (leaf 30 3 301);
      pool = record pool { free = 5 ∷ 4 ∷ []; nodes_returned = 2 };
    })
unfolding TrivialTree.delete TrivialTree.delete_found descend return_node
delete_moves = refl

remove_tree-available_example :
    Ends
      (λ p. (x : ℕ) → available x p ≡ nodes x three_keys + available x pool)
      (remove_tree 6 three_keys pool)
remove_tree-available_example = remove_tree-available 6 three_keys pool (omega arith) (omega arith)

interval_find-select_example :
    Ends
      (Listed 15 30 pool [] (select 15 30 (items three_keys)))
      (interval_find 6 (λ i. 900) three_keys 15 30 pool)
interval_find-select_example =
    interval_find-select 15 30 (λ i. 900) 6 0 40 three_keys pool (omega arith) (omega arith)
      (omega arith) (record { room = omega arith; no_null = refl; granted = λ i. omega arith })

interval_finds :
    interval_find 6 (λ i. 900) three_keys 15 31 pool
    ≡ done (
      (7, 20, 201) ∷ (6, 30, 301) ∷ [],
      record pool { block = 8; size_left = 249; nodes_taken = 7 },
    )
unfolding interval_find TrivialTree.interval_loop TrivialTree.follow TrivialTree.list_leaf get_node
    hand_out
interval_finds = refl
