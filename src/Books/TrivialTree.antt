-- ===== src/Books/TrivialTree.antt =====
-- src/bin/books/advanced_data_structures/ch2/triv_tree.c: search trees without balancing. The
-- number that a node holds here is its address.
pub mod Operations
pub mod Remove
use c_lang_project.Lang.Memory.{null}
use c_lang_project.Common.Int.{negsuc, ℤ, pos}
use c_lang_project.Books.NodePool.{Pool, get_node, return_node, take_node}
use c_lang_project.DataStructs.ListRep.{Object}
use c_lang_project.Books.SearchTree.{
  Found, Frame, Tree, descend, is_empty, leaf, node, other, plug, split, went_left, went_right,
}
use c_lang_project.Common.{
  ◌&&◌, ◌==◌, List, [], if◌then◌else◌, leb, length, ltb, suc, zero, ◌||◌, ℕ, ◌∷◌,
}
use c_lang_project.Lang.Result.{◌>>=◌, Result, done, no_fuel, undefined}
use mathlib.Core.Bool.{not}
pub mod Interval

-- `tree->left == NULL || (tree->right == NULL && ...)` and so on, for a leaf.
unfoldable pub find_recursive : Tree ℕ → ℕ → Object
find_recursive (leaf k n o) q =
    if o == null || not (k == q) then null else if k == q then o else null
find_recursive (node k n l r) q = if ltb q k then find_recursive l q else find_recursive r q

unfoldable pub find_iterative : Tree ℕ → ℕ → Object
unfolding descend
find_iterative t q =
    if is_empty t then null else let f = descend q t [] in if f.key == q then f.object else null

-- What an operation answers, the tree, and the nodes that are left.
pub record State (A : Type 0) : Type 0 where
  pub answer : A
  pub tree : Tree ℕ
  pub pool : Pool

-- `insert` at the leaf where the search for the key ends, which is node `n`. The malloc of the two
-- calls of get_node answers `m` and `m'`, if it is asked.
unfoldable pub insert_found : ℕ → ℕ → Tree ℕ → ℕ → Object → Pool → Found ℕ → Result (State ℤ)
insert_found m m' t k o p f =
    if f.key == k
    then done (record { answer = negsuc 0; tree = t; pool = p })
    else get_node m p >>= λ (old_leaf, p'). get_node m' p' >>= λ (new_leaf, p'').
        if old_leaf == null || new_leaf == null
        then undefined
        else done (record {
          answer = pos 0;
          tree = plug f.path (split f.info old_leaf new_leaf f.key f.object k o);
          pool = p'';
        })

-- `tree->left`, `tree->key` and `tree->right` of an empty tree are written.
abbrev pub fill_empty : Tree ℕ → ℕ → Object → Tree ℕ
fill_empty (leaf k n o') k' o = leaf k' n o
fill_empty (node k n l r) k' o = node k n l r

unfoldable pub insert : ℕ → ℕ → Tree ℕ → ℕ → Object → Pool → Result (State ℤ)
unfolding descend
insert m m' t k o p =
    if is_empty t
    then done (record { answer = pos 0; tree = fill_empty t k o; pool = p })
    else insert_found m m' t k o p (descend k t [])

abbrev pub address : Tree ℕ → ℕ
address (leaf k n o) = n
address (node k n l r) = n

-- The contents of a node, copied to the node `n`.
abbrev pub copy_to : ℕ → Tree ℕ → Tree ℕ
copy_to n (leaf k n' o) = leaf k n o
copy_to n (node k n' l r) = node k n l r

abbrev pub frame_address : Frame ℕ → ℕ
frame_address (went_left k n r) = n
frame_address (went_right k n l) = n

-- `delete` in a tree with a node, from where the search for the key ends.
unfoldable pub delete_found :
    Tree ℕ → ℕ → Pool → List (Frame ℕ) → ℕ → ℕ → Object → Result (State Object)
delete_found t k p [] key n o = undefined
delete_found t k p (f ∷ fs) key n o =
    if key == k
    then (return_node n p >>= λ p'. return_node (address (other f)) p' >>= λ p''.
        done
          (record { answer = o; tree = plug fs (copy_to (frame_address f) (other f)); pool = p'' }))
    else done (record { answer = null; tree = t; pool = p })

unfoldable pub delete : Tree ℕ → ℕ → Pool → Result (State Object)
unfolding descend
delete (leaf key n o) k p =
    if o == null
    then done (record { answer = null; tree = leaf key n o; pool = p })
    else if key == k
    then done (record { answer = o; tree = leaf key n null; pool = p })
    else done (record { answer = null; tree = leaf key n o; pool = p })
delete (node key n l r) k p =
    let f = descend k (node key n l r) [] in
    delete_found (node key n l r) k p f.path f.key f.info f.object

-- The loop of `remove_tree`: a leaf on the left goes, and a node on the left is rotated up.
unfoldable pub remove_loop : ℕ → Tree ℕ → Pool → Result Pool
remove_loop zero t p = no_fuel
remove_loop (suc fuel) (leaf k n o) p = return_node n p
remove_loop (suc fuel) (node k n (leaf kl nl o) r) p =
    return_node nl p >>= λ p'. return_node n p' >>= λ p''. remove_loop fuel r p''
remove_loop (suc fuel) (node k n (node kl nl a b) r) p =
    remove_loop fuel (node kl nl a (node k n b r)) p

unfoldable pub remove_tree : ℕ → Tree ℕ → Pool → Result Pool
remove_tree fuel t p = if is_empty t then return_node (address t) p else remove_loop fuel t p

-- The nodes of result_list, from its head on.
abbrev pub Results : Type 0
Results = List (ℕ × ℕ × Object)

-- `node_stack[200]`.
abbrev pub stack_room : ℕ
stack_room = 200

abbrev pub push : Tree ℕ → List (Tree ℕ) → Result (List (Tree ℕ))
push t stack = if ltb (length stack) stack_room then done (t ∷ stack) else undefined

-- The subtrees that the loop of `interval_find` pushes for a node.
unfoldable pub follow : ℕ → ℕ → ℕ → Tree ℕ → Tree ℕ → List (Tree ℕ) → Result (List (Tree ℕ))
follow a b k l r stack =
    if leb b k then push l stack else if leb k a then push r stack else (push l stack >>= push r)

-- What the loop of `interval_find` does at a leaf. A node of result_list is its address, key and
-- object; its `right` is the next one of the list.
unfoldable pub list_leaf : (ℕ → ℕ) → ℕ → ℕ → ℕ → Object → Results → Pool → Result (Results × Pool)
list_leaf m a b k o result p =
    if leb a k && ltb k b
    then (take_node m p >>= λ (n, p'). done ((n, k, o) ∷ result, p'))
    else done (result, p)

-- The loop of `interval_find`.
unfoldable pub interval_loop :
    ℕ → (ℕ → ℕ) → ℕ → ℕ → List (Tree ℕ) → Results → Pool → Result (Results × Pool)
interval_loop zero m a b stack result p = no_fuel
interval_loop (suc fuel) m a b [] result p = done (result, p)
interval_loop (suc fuel) m a b (leaf k n o ∷ stack) result p =
    list_leaf m a b k o result p >>= λ (result', p'). interval_loop fuel m a b stack result' p'
interval_loop (suc fuel) m a b (node k n l r ∷ stack) result p =
    follow a b k l r stack >>= λ stack'. interval_loop fuel m a b stack' result p

unfoldable pub interval_find : ℕ → (ℕ → ℕ) → Tree ℕ → ℕ → ℕ → Pool → Result (Results × Pool)
interval_find fuel m t a b p = interval_loop fuel m a b (t ∷ []) [] p
