-- ===== src/Books/TrivialTree/Operations.antt =====
-- Searching, inserting and deleting in the trees of triv_tree.c.
pub mod Insert
pub mod Delete
use c_lang_project.Books.NodePool.Counts.{is_node}
use c_lang_project.Books.TrivialTree.{find_iterative, find_recursive, frame_address}
use c_lang_project.Books.SearchTree.{
  Frame, IsSearch, Tree, descend-lookup, is_empty, leaf, lookup, max_key, node, other, plug,
  went_left, went_right,
}
use c_lang_project.Common.{◌+◌, List, [], arith, sym, true, ℕ, ◌∙◌, ◌∷◌, ◌≡◌, ◌⊎◌}

-- A search tree for distinct `int` keys, or the empty tree.
abbrev pub IsSearchTree : Tree ℕ → Type 0
IsSearchTree t = (is_empty t ≡ true) ⊎ IsSearch 0 max_key t

-- How many nodes of the tree have the address `x`.
abbrev pub nodes : ℕ → Tree ℕ → ℕ
nodes x (leaf k n o) = is_node x n
nodes x (node k n l r) = is_node x n + nodes x l + nodes x r

abbrev nodes_on : ℕ → List (Frame ℕ) → ℕ
nodes_on x [] = 0
nodes_on x (f ∷ fs) = is_node x (frame_address f) + nodes x (other f) + nodes_on x fs

pub nodes-plug :
    (x : ℕ) (fs : List (Frame ℕ)) (t : Tree ℕ) → nodes x (plug fs t) ≡ nodes_on x fs + nodes x t
nodes-plug x [] t = omega arith
nodes-plug x (went_left k n r ∷ fs) t = omega (arith, nodes-plug x fs (node k n t r))
nodes-plug x (went_right k n l ∷ fs) t = omega (arith, nodes-plug x fs (node k n l t))

pub find_iterative-lookup : (t : Tree ℕ) (q : ℕ) → find_iterative t q ≡ lookup t q
unfolding find_iterative lookup
find_iterative-lookup (leaf k h o) q = ground arith
find_iterative-lookup (node k h l r) q = descend-lookup q (node k h l r) []

find_recursive-lookup : (t : Tree ℕ) (q : ℕ) → find_recursive t q ≡ lookup t q
unfolding find_recursive lookup
find_recursive-lookup (leaf k n o) q = ground arith
find_recursive-lookup (node k n l r) q = rw (find_recursive-lookup l q, find_recursive-lookup r q)

-- The two search functions of triv_tree.c find the same on every tree.
pub find_recursive-find_iterative : (t : Tree ℕ) (q : ℕ) → find_recursive t q ≡ find_iterative t q
find_recursive-find_iterative t q = find_recursive-lookup t q ∙ sym (find_iterative-lookup t q)
