-- ===== src/Books/RedBlack/Remove.antt =====
-- `delete` of rb_tree.c.
use c_lang_project.Lang.Memory.{null}
use c_lang_project.DataStructs.ListRep.{Object}
use c_lang_project.Books.SearchTree.{
  Frame, Tree, descend, fill, leaf, node, other, plug, went_left, went_right,
}
use c_lang_project.Books.RedBlack.{
  Color, at_left, at_right, black, finished, frame_black, is_black, left_child, left_rotation,
  paint, painted, path_room, red, right_child, right_rotation, same_color, unfinished,
}
use c_lang_project.Common.{◌==◌, Bool, List, [], if◌then◌else◌, length, ltb, ℕ, ◌∷◌}
use c_lang_project.Lang.Result.{◌>>=◌, Result, done, undefined}

-- The rotations towards a left child that lacks a black node. `c` is the color that `upper` gets.
abbrev pub single_left : Tree Color → Result (Tree Color)
single_left t = left_rotation t >>= at_left (painted red) >>= painted black

abbrev pub double_left : Color → Tree Color → Result (Tree Color)
double_left c t =
    at_right right_rotation t
    >>= left_rotation
    >>= at_left (painted black)
    >>= at_right (painted black)
    >>= painted c

abbrev pub single_right : Tree Color → Result (Tree Color)
single_right t = right_rotation t >>= at_right (painted red) >>= painted black

abbrev pub double_right : Color → Tree Color → Result (Tree Color)
double_right c t =
    at_left left_rotation t
    >>= right_rotation
    >>= at_left (painted black)
    >>= at_right (painted black)
    >>= painted c

-- Below a black `upper`, a single rotation leaves a black node lacking.
abbrev pub after_single : Color → Tree Color → Result (Tree Color × Bool)
after_single black = unfinished
after_single red = finished

-- `tmp_node` is the left child of `upper`, which has the color `c` and the right child `other`.
abbrev pub lift_left : Color → Tree Color → Tree Color → Result (Tree Color × Bool)
lift_left c other upper = left_child other >>= λ m.
    if is_black m
    then (single_left upper >>= after_single c)
    else (double_left c upper >>= finished)

-- The same with a red `other`.
abbrev pub turn_left : Tree Color → Tree Color → Result (Tree Color × Bool)
turn_left other upper = left_child other >>= left_child >>= λ m.
    if is_black m
    then (left_rotation upper >>= at_left single_left >>= painted black >>= finished)
    else (left_rotation upper >>= at_left (double_left red) >>= painted black >>= finished)

abbrev pub lift_right : Color → Tree Color → Tree Color → Result (Tree Color × Bool)
lift_right c other upper = right_child other >>= λ m.
    if is_black m
    then (single_right upper >>= after_single c)
    else (double_right c upper >>= finished)

abbrev pub turn_right : Tree Color → Tree Color → Result (Tree Color × Bool)
turn_right other upper = right_child other >>= right_child >>= λ m.
    if is_black m
    then (right_rotation upper >>= at_right single_right >>= painted black >>= finished)
    else (right_rotation upper >>= at_right (double_right red) >>= painted black >>= finished)

-- The body of the loop, where `tmp_node` is the black node `t`, below `upper`.
unfoldable pub delete_round : Frame Color → Tree Color → Result (Tree Color × Bool)
delete_round (went_left k black r) t =
    if is_black r then lift_left black r (node k black t r) else turn_left r (node k black t r)
delete_round (went_left k red r) t = lift_left red r (node k red t r)
delete_round (went_right k black l) t =
    if is_black l then lift_right black l (node k black l t) else turn_right l (node k black l t)
delete_round (went_right k red l) t = lift_right red l (node k red l t)

-- The loop, once `tmp_node` has been taken from the stack. After a round that does not finish, the
-- next `tmp_node` is the one above `upper`.
unfoldable pub delete_loop : List (Frame Color) → Tree Color → Result (Tree Color)
delete_loop [] t = done (paint black t)
delete_loop (f ∷ []) t =
    if is_black t
    then (delete_round f t >>= λ p. done p.0)
    else done (plug (f ∷ []) (paint black t))
delete_loop (f ∷ g ∷ gs) t =
    if is_black t
    then (delete_round f t >>= λ p.
        if p.1 then done (plug (g ∷ gs) p.0) else delete_loop gs (fill g p.0))
    else done (plug (f ∷ g ∷ gs) (paint black t))

-- The node above the deleted leaf takes the place of its other child.
unfoldable pub cut_out : Frame Color → List (Frame Color) → Result (Tree Color)
unfolding delete_loop
cut_out f fs =
    let t = paint black (other f) in
    if same_color (frame_black f) (is_black (other f)) then delete_loop fs t else done (plug fs t)

-- `delete` in a tree with a node, from where the search for the key ends.
unfoldable pub delete_found :
    Tree Color → List (Frame Color) → ℕ → ℕ → Object → Result (Object × Tree Color)
delete_found t [] k key o = undefined
delete_found t (f ∷ fs) k key o =
    if ltb path_room (length (f ∷ fs))
    then undefined
    else if key == k
    then (cut_out f fs >>= λ t'. done (o, t'))
    else done (null, t)

unfoldable pub delete : Tree Color → ℕ → Result (Object × Tree Color)
unfolding descend
delete (leaf key c o) k =
    if o == null
    then done (null, leaf key c o)
    else if key == k
    then done (o, leaf key c null)
    else done (null, leaf key c o)
delete (node key c l r) k =
    let f = descend k (node key c l r) [] in delete_found (node key c l r) f.path k f.key f.object
