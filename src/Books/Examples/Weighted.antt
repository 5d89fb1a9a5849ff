-- ===== src/Books/Examples/Weighted.antt =====
-- w_bl_tree.c at a small input, with exact comparisons.
use c_lang_project.Common.Int.{pos}
use c_lang_project.Lang.Result.{Ends, done}
use c_lang_project.Common.{◌*◌, Bool, arith, inr, ltb, refl, true, ℕ, ◌≡◌}
use c_lang_project.Books.WeightBalanced
use c_lang_project.Books.WeightBalanced.Balance.{Compares}
use c_lang_project.Books.WeightBalanced.Insert.{IsWeightBalanced, Inserted, insert-IsWeightBalanced}
use c_lang_project.Books.WeightBalanced.Delete.{Deleted, delete-IsWeightBalanced}
use c_lang_project.Books.SearchTree.{Tree, leaf, node, descend}

abbrev light : ℕ → ℕ → Bool
light n w = ltb (125 * n) (36 * w)

abbrev heavy : ℕ → ℕ → Bool
heavy n w = ltb (293 * w) (1000 * n)

light-Compares : Compares light heavy
light-Compares = record {
  light_true = λ n w e. ground arith;
  light_false = λ n w e. ground arith;
  heavy_true = λ n w e. ground arith;
  heavy_false = λ n w e. ground arith;
}

abbrev leaning : Tree ℕ
leaning = node 30 3 (node 20 2 (leaf 10 1 101) (leaf 20 1 201)) (leaf 30 1 301)

abbrev leaning-IsWeightBalanced : IsWeightBalanced leaning
leaning-IsWeightBalanced = inr (omega arith, omega arith, omega arith)

insert-IsWeightBalanced_example :
    Ends (Inserted leaning 5 51) (WeightBalanced.insert light heavy true leaning 5 51)
insert-IsWeightBalanced_example =
    insert-IsWeightBalanced light heavy light-Compares leaning 5 51 leaning-IsWeightBalanced
      (omega arith) (omega arith) (omega arith)

delete-IsWeightBalanced_example :
    Ends (Deleted leaning 30) (WeightBalanced.delete light heavy leaning 30)
delete-IsWeightBalanced_example =
    delete-IsWeightBalanced light heavy light-Compares leaning 30 leaning-IsWeightBalanced
      (omega arith)

insert_rotates :
    WeightBalanced.insert light heavy true leaning 5 51
    ≡ done (
      node 20 4
          (node 10 2 (leaf 5 1 51) (leaf 10 1 101))
          (node 30 2 (leaf 20 1 201) (leaf 30 1 301)),
      pos 0,
    )
unfolding WeightBalanced.insert WeightBalanced.insert_found WeightBalanced.rebuild
    WeightBalanced.rebalance WeightBalanced.lighter_right WeightBalanced.single_right descend
insert_rotates = refl
