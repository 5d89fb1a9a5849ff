-- ===== src/Books/RedBlack.antt =====
-- src/bin/books/advanced_data_structures/ch3/rb_tree.c: red-black search trees, with a color in
-- every node and leaf. Code that leaves the trees, as a rotation at a leaf would, is undefined
-- here.
pub mod Remove
pub mod Keys
pub mod InsertKeys
pub mod DeleteKeys
pub mod Colors
pub mod InsertColors
pub mod Bounds
pub mod Insert
pub mod Shrink
pub mod Delete
use c_lang_project.Lang.Memory.{null}
use c_lang_project.Common.Int.{negsuc, ℤ, pos}
use c_lang_project.DataStructs.ListRep.{Object}
use c_lang_project.Books.SearchTree.{
  Found, Frame, Tree, descend, fill, is_empty, leaf, node, plug, split, went_left, went_right,
}
use c_lang_project.Common.{◌==◌, Bool, List, [], false, if◌then◌else◌, length, ltb, true, ℕ, ◌∷◌}
use c_lang_project.Lang.Result.{◌>>=◌, Result, done, undefined}

pub data Color : Type 0 where
  red : Color
  black : Color

-- `node->color == black`.
abbrev pub is_black : Tree Color → Bool
is_black (leaf k black o) = true
is_black (leaf k red o) = false
is_black (node k black l r) = true
is_black (node k red l r) = false

abbrev pub frame_black : Frame Color → Bool
frame_black (went_left k red r) = false
frame_black (went_left k black r) = true
frame_black (went_right k red l) = false
frame_black (went_right k black l) = true

abbrev pub left_child : Tree Color → Result (Tree Color)
left_child (leaf k c o) = undefined
left_child (node k c l r) = done l

abbrev pub right_child : Tree Color → Result (Tree Color)
right_child (leaf k c o) = undefined
right_child (node k c l r) = done r

-- `node->color = c`.
abbrev pub paint : Color → Tree Color → Tree Color
paint c (leaf k _ o) = leaf k c o
paint c (node k _ l r) = node k c l r

abbrev pub painted : Color → Tree Color → Result (Tree Color)
painted c t = done (paint c t)

-- A statement on `node->left`, or on `node->right`.
abbrev pub at_left : (Tree Color → Result (Tree Color)) → Tree Color → Result (Tree Color)
at_left f (leaf k c o) = undefined
at_left f (node k c l r) = f l >>= λ l'. done (node k c l' r)

abbrev pub at_right : (Tree Color → Result (Tree Color)) → Tree Color → Result (Tree Color)
at_right f (leaf k c o) = undefined
at_right f (node k c l r) = f r >>= λ r'. done (node k c l r')

-- The node itself stays where it is, and its child is used again on the other side.
abbrev pub left_rotation : Tree Color → Result (Tree Color)
left_rotation (node k c l (node k' c' m r)) = done (node k' c (node k c' l m) r)
left_rotation t = undefined

abbrev pub right_rotation : Tree Color → Result (Tree Color)
right_rotation (node k c (node k' c' l m) r) = done (node k' c l (node k c' m r))
right_rotation t = undefined

abbrev pub same_color : Bool → Bool → Bool
same_color true b = b
same_color false true = false
same_color false false = true

-- A round ends with a new node, and with whether the loop is finished.
abbrev pub finished : Tree Color → Result (Tree Color × Bool)
finished t = done (t, true)

abbrev pub unfinished : Tree Color → Result (Tree Color × Bool)
unfinished t = done (t, false)

-- Both children of `upper_node` are red.
abbrev pub pull_black : Tree Color → Result (Tree Color × Bool)
pull_black t = at_left (painted black) t >>= at_right (painted black) >>= painted red >>= unfinished

-- `current_node` is the left child, and red, and the other child is black.
abbrev pub lean_left : Tree Color → Tree Color → Result (Tree Color × Bool)
lean_left t upper = right_child t >>= λ m.
    if is_black m
    then (right_rotation upper >>= at_right (painted red) >>= painted black >>= finished)
    else (at_left left_rotation upper
        >>= right_rotation
        >>= at_right (painted black)
        >>= at_left (painted black)
        >>= painted red
        >>= unfinished)

abbrev pub lean_right : Tree Color → Tree Color → Result (Tree Color × Bool)
lean_right t upper = left_child t >>= λ m.
    if is_black m
    then (left_rotation upper >>= at_left (painted red) >>= painted black >>= finished)
    else (at_right right_rotation upper
        >>= left_rotation
        >>= at_right (painted black)
        >>= at_left (painted black)
        >>= painted red
        >>= unfinished)

-- The body of the loop of `insert`, at `upper_node`, whose child `t` is `current_node`.
unfoldable pub insert_round : Frame Color → Tree Color → Result (Tree Color × Bool)
insert_round (went_left k i r) t =
    if same_color (is_black t) (is_black r)
    then pull_black (node k i t r)
    else lean_left t (node k i t r)
insert_round (went_right k i l) t =
    if same_color (is_black l) (is_black t)
    then pull_black (node k i l t)
    else lean_right t (node k i l t)

-- The loop of `insert`. It takes two nodes from the stack in a round.
unfoldable pub insert_loop : List (Frame Color) → Tree Color → Result (Tree Color)
insert_loop [] t = done t
insert_loop (f ∷ []) t = insert_round f t >>= λ p. done p.0
insert_loop (f ∷ g ∷ gs) t = insert_round f t >>= λ p.
    if p.1
    then done (plug (g ∷ gs) p.0)
    else if is_black (fill g p.0)
    then done (plug (g ∷ gs) p.0)
    else insert_loop gs (fill g p.0)

-- `path_stack[100]`.
abbrev pub path_room : ℕ
path_room = 100

unfoldable pub find : Tree Color → ℕ → Object
unfolding descend
find t q =
    if is_empty t then null else let f = descend q t [] in if f.key == q then f.object else null

-- The new node, its loop, and `tree->color = black`.
unfoldable pub insert_at : List (Frame Color) → Color → Tree Color → Result (Tree Color)
unfolding insert_loop
insert_at path black t = painted black (plug path t)
insert_at path red t = insert_loop path t >>= painted black

-- `insert` from where the search for the key ends. `got`: both calls of `get_node` get a node.
unfoldable pub insert_found : Bool → Tree Color → ℕ → Object → Found Color → Result (Tree Color × ℤ)
insert_found got t k o f =
    if ltb path_room (length f.path)
    then undefined
    else if f.key == k
    then done (t, negsuc 0)
    else if got
    then (insert_at f.path f.info (split f.info red red f.key f.object k o) >>= λ t'.
        done (t', pos 0))
    else undefined

unfoldable pub insert : Bool → Tree Color → ℕ → Object → Result (Tree Color × ℤ)
unfolding descend
insert got t k o =
    if is_empty t then done (leaf k black o, pos 0) else insert_found got t k o (descend k t [])
