-- ===== src/Books/HeightBalanced.antt =====
-- src/bin/books/advanced_data_structures/ch3/h_bl_tree.c: height-balanced search trees. The number
-- that a node holds is its `height`. Heights are small, so that a test `a - b == 2` is one for
-- a == b + 2. Code that leaves the trees, as a rotation at a leaf would, is undefined here.
pub mod Balance
pub mod Rebuild
pub mod Bounds
pub mod Insert
pub mod Delete
use c_lang_project.Lang.Memory.{null}
use c_lang_project.Common.Int.{negsuc, ℤ, pos}
use c_lang_project.DataStructs.ListRep.{Object}
use c_lang_project.Books.SearchTree.{
  Frame, Tree, descend, fill, is_empty, leaf, node, other, plug, split,
}
use c_lang_project.Common.{◌+◌, ◌==◌, Bool, List, [], if◌then◌else◌, length, ltb, ℕ, ◌∷◌}
use c_lang_project.Lang.Result.{◌>>=◌, Result, done, undefined}

-- `node->height`.
abbrev pub height : Tree ℕ → ℕ
height (leaf k h o) = h
height (node k h l r) = h

abbrev pub left_child : Tree ℕ → Result (Tree ℕ)
left_child (leaf k h o) = undefined
left_child (node k h l r) = done l

abbrev pub right_child : Tree ℕ → Result (Tree ℕ)
right_child (leaf k h o) = undefined
right_child (node k h l r) = done r

-- The node itself stays where it is, and its child is used again on the other side.
unfoldable pub left_rotation : Tree ℕ → Result (Tree ℕ)
left_rotation (node k h l (node k' h' m r)) = done (node k' h (node k h' l m) r)
left_rotation t = undefined

unfoldable pub right_rotation : Tree ℕ → Result (Tree ℕ)
right_rotation (node k h (node k' h' l m) r) = done (node k' h l (node k h' m r))
right_rotation t = undefined

-- The heights after a single rotation to the right, and to the left.
abbrev pub fit_right : Tree ℕ → Result (Tree ℕ)
fit_right (node k h l (node k' h' m r)) =
    done (node k (height m + 1 + 1) l (node k' (height m + 1) m r))
fit_right t = undefined

abbrev pub fit_left : Tree ℕ → Result (Tree ℕ)
fit_left (node k h (node k' h' l m) r) =
    done (node k (height m + 1 + 1) (node k' (height m + 1) l m) r)
fit_left t = undefined

-- The heights after a double rotation, from `tmp_height`.
abbrev pub fit_both : ℕ → Tree ℕ → Result (Tree ℕ)
fit_both n (node k h (node kl hl a b) (node kr hr c d)) =
    done (node k (n + 2) (node kl (n + 1) a b) (node kr (n + 1) c d))
fit_both n t = undefined

abbrev pub outer_left : Tree ℕ → Result ℕ
outer_left t = do l ← left_child t; m ← left_child l; done (height m)

abbrev pub outer_right : Tree ℕ → Result ℕ
outer_right t = do r ← right_child t; m ← right_child r; done (height m)

unfoldable pub single_right : Tree ℕ → Result (Tree ℕ)
unfolding right_rotation
single_right t = right_rotation t >>= fit_right

unfoldable pub single_left : Tree ℕ → Result (Tree ℕ)
unfolding left_rotation
single_left t = left_rotation t >>= fit_left

unfoldable pub double_right : ℕ → ℕ → Tree ℕ → Tree ℕ → Result (Tree ℕ)
unfolding left_rotation right_rotation
double_right k h l r = do
  l' ← left_rotation l
  t ← right_rotation (node k h l' r)
  n ← outer_left t
  fit_both n t

unfoldable pub double_left : ℕ → ℕ → Tree ℕ → Tree ℕ → Result (Tree ℕ)
unfolding left_rotation right_rotation
double_left k h l r = do
  r' ← right_rotation r
  t ← left_rotation (node k h l r')
  n ← outer_right t
  fit_both n t

-- The left subtree is higher by two.
unfoldable pub lower_left : ℕ → ℕ → Tree ℕ → Tree ℕ → Result (Tree ℕ)
lower_left k h l r = left_child l >>= λ ll.
    if height ll == height r + 1 then single_right (node k h l r) else double_right k h l r

unfoldable pub lower_right : ℕ → ℕ → Tree ℕ → Tree ℕ → Result (Tree ℕ)
lower_right k h l r = right_child r >>= λ rr.
    if height rr == height l + 1 then single_left (node k h l r) else double_left k h l r

-- The body of the loop that rebalances.
unfoldable pub rebalance : Tree ℕ → Result (Tree ℕ)
rebalance (leaf k h o) = undefined
rebalance (node k h l r) =
    if height l == height r + 2
    then lower_left k h l r
    else if height l + 2 == height r
    then lower_right k h l r
    else done (node k (if ltb (height r) (height l) then height l + 1 else height r + 1) l r)

-- The loop. It ends early where a node keeps its height.
unfoldable pub rebuild : List (Frame ℕ) → Tree ℕ → Result (Tree ℕ)
rebuild [] t = done t
rebuild (f ∷ fs) t = do
  t' ← rebalance (fill f t)
  if height t' == height (fill f t) then done (plug fs t') else rebuild fs t'

-- `path_stack[100]`.
abbrev pub path_room : ℕ
path_room = 100

unfoldable pub find : Tree ℕ → ℕ → Object
unfolding descend
find t q =
    if is_empty t then null else let f = descend q t [] in if f.key == q then f.object else null

-- `insert` from where the search for the key ends. `got`: both calls of `get_node` get a node.
unfoldable pub insert_found :
    Bool → Tree ℕ → ℕ → Object → List (Frame ℕ) → ℕ → Object → Result (Tree ℕ × ℤ)
insert_found got t k o path key object =
    if ltb path_room (length path)
    then undefined
    else if key == k
    then done (t, negsuc 0)
    else if got
    then (rebuild path (split 1 0 0 key object k o) >>= λ t'. done (t', pos 0))
    else undefined

unfoldable pub insert : Bool → Tree ℕ → ℕ → Object → Result (Tree ℕ × ℤ)
unfolding descend
insert got t k o =
    if is_empty t
    then done (leaf k 0 o, pos 0)
    else let f = descend k t [] in insert_found got t k o f.path f.key f.object

-- `delete` in a tree with a node, from where the search for the key ends.
unfoldable pub delete_found : List (Frame ℕ) → ℕ → ℕ → ℕ → Object → Result (Object × Tree ℕ)
delete_found [] k key h o = undefined
delete_found (f ∷ fs) k key h o =
    if ltb path_room (length (f ∷ fs))
    then undefined
    else if key == k
    then (rebuild fs (other f) >>= λ t'. done (o, t'))
    else (rebuild fs (fill f (leaf key h o)) >>= λ t'. done (null, t'))

unfoldable pub delete : Tree ℕ → ℕ → Result (Object × Tree ℕ)
unfolding descend
delete (leaf key h o) k =
    if o == null
    then done (null, leaf key h o)
    else if key == k
    then done (o, leaf key h null)
    else done (null, leaf key h o)
delete (node key h l r) k =
    let f = descend k (node key h l r) [] in delete_found f.path k f.key f.info f.object
