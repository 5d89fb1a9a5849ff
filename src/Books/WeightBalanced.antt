-- ===== src/Books/WeightBalanced.antt =====
-- src/bin/books/advanced_data_structures/ch3/w_bl_tree.c: weight-balanced search trees. The number
-- that a node holds is its `weight`, the number of its leaves. The comparisons with the floating
-- point numbers ALPHA and EPSILON are parameters: `light n w` is n < ALPHA * w, and `heavy n w` is
-- n > (ALPHA + EPSILON) * w. Code that leaves the trees, as a rotation at a leaf would, is
-- undefined here.
pub mod Balance
pub mod Rebuild
pub mod Bounds
pub mod Insert
pub mod Delete
use c_lang_project.Lang.Memory.{null}
use c_lang_project.Common.Int.{negsuc, ℤ, pos, int_bound}
use c_lang_project.DataStructs.ListRep.{Object}
use c_lang_project.Common.{◌+◌, ◌==◌, Bool, List, [], if◌then◌else◌, length, ltb, ℕ, ◌∷◌}
use c_lang_project.Lang.Result.{◌>>=◌, Result, done, undefined}
use c_lang_project.Books.SearchTree.{Tree, Frame, leaf, node, descend, fill, is_empty, other, split}

-- `node->weight`.
abbrev pub weight : Tree ℕ → ℕ
weight (leaf k w o) = w
weight (node k w l r) = w

unfoldable pub left_rotation : Tree ℕ → Result (Tree ℕ)
left_rotation (node k w l (node k' w' m r)) = done (node k' w (node k w' l m) r)
left_rotation t = undefined

unfoldable pub right_rotation : Tree ℕ → Result (Tree ℕ)
right_rotation (node k w (node k' w' l m) r) = done (node k' w l (node k w' m r))
right_rotation t = undefined

-- A sum of two ints that are not negative.
abbrev pub add_int : ℕ → ℕ → Result ℕ
add_int m n = if ltb (m + n) int_bound then done (m + n) else undefined

-- `t->weight = t->left->weight + t->right->weight`, for a child `t`.
abbrev pub weigh : Tree ℕ → Result (Tree ℕ)
weigh (leaf k w o) = undefined
weigh (node k w l r) = add_int (weight l) (weight r) >>= λ w'. done (node k w' l r)

abbrev pub weigh_left : Tree ℕ → Result (Tree ℕ)
weigh_left (leaf k w o) = undefined
weigh_left (node k w l r) = weigh l >>= λ l'. done (node k w l' r)

abbrev pub weigh_right : Tree ℕ → Result (Tree ℕ)
weigh_right (leaf k w o) = undefined
weigh_right (node k w l r) = weigh r >>= λ r'. done (node k w l r')

abbrev pub weight_of_left : Tree ℕ → Result ℕ
weight_of_left (leaf k w o) = undefined
weight_of_left (node k w l r) = done (weight l)

abbrev pub weight_of_right : Tree ℕ → Result ℕ
weight_of_right (leaf k w o) = undefined
weight_of_right (node k w l r) = done (weight r)

unfoldable pub single_right : Tree ℕ → Result (Tree ℕ)
unfolding right_rotation
single_right t = right_rotation t >>= weigh_right

unfoldable pub single_left : Tree ℕ → Result (Tree ℕ)
unfolding left_rotation
single_left t = left_rotation t >>= weigh_left

unfoldable pub double_right : ℕ → ℕ → Tree ℕ → Tree ℕ → Result (Tree ℕ)
unfolding left_rotation right_rotation
double_right k w l r = do
  l' ← left_rotation l
  t ← right_rotation (node k w l' r)
  t' ← weigh_right t
  weigh_left t'

unfoldable pub double_left : ℕ → ℕ → Tree ℕ → Tree ℕ → Result (Tree ℕ)
unfolding left_rotation right_rotation
double_left k w l r = do
  r' ← right_rotation r
  t ← left_rotation (node k w l r')
  t' ← weigh_right t
  weigh_left t'

-- `path_stack[100]`.
abbrev pub path_room : ℕ
path_room = 100

module _ (light heavy : ℕ → ℕ → Bool) where
  -- The right subtree is too light, and the left one is.
  unfoldable pub lighter_right : ℕ → ℕ → Tree ℕ → Tree ℕ → Result (Tree ℕ)
  lighter_right k w l r = weight_of_left l >>= λ n.
      if heavy n w then single_right (node k w l r) else double_right k w l r

  unfoldable pub lighter_left : ℕ → ℕ → Tree ℕ → Tree ℕ → Result (Tree ℕ)
  lighter_left k w l r = weight_of_right r >>= λ n.
      if heavy n w then single_left (node k w l r) else double_left k w l r

  -- The body of the loop that rebalances.
  unfoldable pub rebalance : Tree ℕ → Result (Tree ℕ)
  rebalance (leaf k w o) = undefined
  rebalance (node k w l r) = add_int (weight l) (weight r) >>= λ w'.
      if light (weight r) w'
      then lighter_right k w' l r
      else if light (weight l) w'
      then lighter_left k w' l r
      else done (node k w' l r)

  -- The loop, up to the root.
  unfoldable pub rebuild : List (Frame ℕ) → Tree ℕ → Result (Tree ℕ)
  rebuild [] t = done t
  rebuild (f ∷ fs) t = rebalance (fill f t) >>= λ t'. rebuild fs t'

  -- `insert` from where the search for the key ends. `got`: both calls of `get_node` get a node.
  unfoldable pub insert_found :
      Bool → Tree ℕ → ℕ → Object → List (Frame ℕ) → ℕ → Object → Result (Tree ℕ × ℤ)
  insert_found got t k o path key object =
      if ltb path_room (length path)
      then undefined
      else if key == k
      then done (t, negsuc 0)
      else if got
      then (rebuild path (split 2 1 1 key object k o) >>= λ t'. done (t', pos 0))
      else undefined

  unfoldable pub insert : Bool → Tree ℕ → ℕ → Object → Result (Tree ℕ × ℤ)
  unfolding descend
  insert got t k o =
      if is_empty t
      then done (leaf k 1 o, pos 0)
      else let f = descend k t [] in insert_found got t k o f.path f.key f.object

  -- `delete` in a tree with a node, from where the search for the key ends.
  unfoldable pub delete_found : List (Frame ℕ) → ℕ → ℕ → ℕ → Object → Result (Object × Tree ℕ)
  delete_found [] k key w o = undefined
  delete_found (f ∷ fs) k key w o =
      if ltb path_room (length (f ∷ fs))
      then undefined
      else if key == k
      then (rebuild fs (other f) >>= λ t'. done (o, t'))
      else (rebuild fs (fill f (leaf key w o)) >>= λ t'. done (null, t'))

  unfoldable pub delete : Tree ℕ → ℕ → Result (Object × Tree ℕ)
  unfolding descend
  delete (leaf key w o) k =
      if o == null
      then done (null, leaf key w o)
      else if key == k
      then done (o, leaf key w null)
      else done (null, leaf key w o)
  delete (node key w l r) k =
      let f = descend k (node key w l r) [] in delete_found f.path k f.key f.info f.object

unfoldable pub find : Tree ℕ → ℕ → Object
unfolding descend
find t q =
    if is_empty t then null else let f = descend q t [] in if f.key == q then f.object else null
