-- ===== src/Books/Examples/Splay.antt =====
-- spla_tree.c at small inputs.

use c_lang_project.Lang.Result.{Ends, done}
use c_lang_project.Common.{arith, inr, refl, true, ◌≡◌, [], ◌∷◌}
use c_lang_project.Books.SplayTree
use c_lang_project.Lang.Memory.{null}
use c_lang_project.Books.NodePool.{Pool, get_node, hand_out, return_node}
use c_lang_project.Books.SplayTree.{Tree, nil, node}
use c_lang_project.Books.SplayTree.Find.{Found, IsSplay, find-Found}
use c_lang_project.Books.SplayTree.Insert.{Inserted, insert-Inserted_splay}

abbrev leaning : Tree
leaning = node 9 109 (node 7 107 (node 3 103 nil (node 5 105 nil nil)) nil) nil

abbrev leaning-IsSplay : IsSplay leaning
leaning-IsSplay = inr (
  omega arith,
  omega arith,
  omega arith,
  (
    omega arith,
    omega arith,
    omega arith,
    (omega arith, omega arith, omega arith, tt, (omega arith, omega arith, omega arith, tt, tt)),
    tt,
  ),
  tt,
)

-- Nodes 1 to 4 are in the tree.
abbrev pool : Pool
pool = record { free = []; block = 5; size_left = 252; nodes_taken = 4; nodes_returned = 0 }

find-Found_example : Ends (Found leaning 5 pool) (SplayTree.find (λ i. 900) leaning 5 pool)
find-Found_example =
    find-Found (λ i. 900) leaning 5 pool leaning-IsSplay
      (record { room = omega arith; no_null = refl; granted = λ i. omega arith }) (omega arith)

insert-Inserted_splay_example : Ends (Inserted leaning 4 104) (SplayTree.insert true 4 104 leaning)
insert-Inserted_splay_example =
    insert-Inserted_splay leaning 4 104 leaning-IsSplay (omega arith) (omega arith)

-- Where the key is not there, the nodes of the stack are lost.
find_leaks :
    SplayTree.find (λ i. 900) leaning 6 pool
    ≡ done (null, leaning, record pool { block = 9; size_left = 248; nodes_taken = 8 })
unfolding SplayTree.find SplayTree.descend SplayTree.find_found get_node hand_out
find_leaks = refl

find_splays :
    SplayTree.find (λ i. 900) leaning 5 pool
    ≡ done (
      105,
      node 5 105 (node 3 103 nil nil) (node 9 109 (node 7 107 nil nil) nil),
      record {
        free = 5 ∷ 6 ∷ 7 ∷ 8 ∷ [];
        block = 9;
        size_left = 248;
        nodes_taken = 8;
        nodes_returned = 4;
      },
    )
unfolding SplayTree.find SplayTree.descend SplayTree.find_found SplayTree.splay
    SplayTree.return_nodes get_node hand_out return_node
find_splays = refl

delete_takes_least :
    SplayTree.delete (node 5 105 (node 3 103 nil nil) (node 9 109 (node 7 107 nil nil) nil)) 5
    ≡ done (105, node 7 107 (node 3 103 nil nil) (node 9 109 nil nil))
unfolding SplayTree.delete SplayTree.delete_path SplayTree.delete_node SplayTree.take_least
delete_takes_least = refl
