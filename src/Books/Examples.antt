-- ===== src/Books/Examples.antt =====
-- The programs of the book at small inputs.
mod Trivial
mod Leftist
mod Weighted
mod Colored
mod Containers
mod Skew
mod Splay
use c_lang_project.Common.Int.{pos}
use c_lang_project.Books.HeightBalanced.{
  delete, insert, insert_found, lower_left, rebalance, rebuild, single_right,
}
use c_lang_project.Books.SearchTree.{Tree, descend, leaf, node}
use c_lang_project.Lang.Result.{Ends, done}
use c_lang_project.Common.{◌<◌, [], arith, inr, length, refl, true, ℕ, ◌≡◌}
use c_lang_project.Books.HeightBalanced
use c_lang_project.Books.HeightBalanced.Insert.{IsHeightBalanced, Inserted, insert-IsHeightBalanced}
use c_lang_project.Books.HeightBalanced.Delete.{Deleted, delete-IsHeightBalanced}
use c_lang_project.Books.HeightBalanced.Bounds.{path-lt}

-- A tree that the next key on the left throws out of balance.
abbrev leaning : Tree ℕ
leaning = node 30 2 (node 20 1 (leaf 10 0 101) (leaf 20 0 201)) (leaf 30 0 301)

abbrev leaning-IsHeightBalanced : IsHeightBalanced leaning
leaning-IsHeightBalanced = inr (omega arith, omega arith)

insert-IsHeightBalanced_example :
    Ends (Inserted leaning 5 51) (HeightBalanced.insert true leaning 5 51)
insert-IsHeightBalanced_example =
    insert-IsHeightBalanced leaning 5 51 leaning-IsHeightBalanced (omega arith) (omega arith)

insert_rotates :
    HeightBalanced.insert true leaning 5 51
    ≡ done (
      node 20 2
          (node 10 1 (leaf 5 0 51) (leaf 10 0 101))
          (node 30 1 (leaf 20 0 201) (leaf 30 0 301)),
      pos 0,
    )
unfolding HeightBalanced.insert descend HeightBalanced.insert_found HeightBalanced.rebuild
    HeightBalanced.rebalance HeightBalanced.lower_left HeightBalanced.single_right
insert_rotates = refl

delete-IsHeightBalanced_example : Ends (Deleted leaning 30) (HeightBalanced.delete leaning 30)
delete-IsHeightBalanced_example =
    delete-IsHeightBalanced leaning 30 leaning-IsHeightBalanced (omega arith)

path-lt_example : length (descend 10 leaning []).path < 66
path-lt_example = path-lt leaning 10 (omega arith) (omega arith) (omega arith)
