-- ===== src/Books/RedBlack/InsertKeys.antt =====
-- What the loop of `insert` of rb_tree.c leaves of the keys and objects.
use c_lang_project.Common.{List, [], false, true, ◌∷◌}
use c_lang_project.Books.RedBlack.Keys.{
  Led, Moved, Moved-fill, Moved-plug, Moved-refl, Moved-trans, Moves-round, Moves-then,
  at_left-Moves, at_right-Moves, left_rotation-Moves, painted-Moves, right_rotation-Moves,
}
use c_lang_project.Books.SearchTree.{Frame, Tree, fill, node, plug, went_left, went_right}
use c_lang_project.Books.RedBlack.{
  Color, at_left, at_right, black, insert_loop, insert_round, is_black, lean_left, lean_right,
  left_child, left_rotation, painted, pull_black, red, right_child, right_rotation, same_color,
}
use c_lang_project.Lang.Result.{
  IfDone, IfDone-bind, IfDone-bind_any, IfDone-if, IfDone-mono, if_done,
}

pull_black-Led : (t : Tree Color) → IfDone (Led t) (pull_black t)
pull_black-Led t = Moves-round false (
    Moves-then (painted red)
      (Moves-then (at_right (painted black)) (at_left-Moves (painted black) (painted-Moves black) t)
        (at_right-Moves (painted black) (painted-Moves black)))
      (painted-Moves red))

lean_left-Led : (t u : Tree Color) → IfDone (Led u) (lean_left t u)
lean_left-Led t u = IfDone-bind_any (right_child t) λ m.
    IfDone-if (is_black m)
      (Moves-round true (
        Moves-then (painted black)
          (Moves-then (at_right (painted red)) (right_rotation-Moves u)
            (at_right-Moves (painted red) (painted-Moves red)))
          (painted-Moves black)))
      (Moves-round false (
        Moves-then (painted red)
          (Moves-then (at_left (painted black))
            (Moves-then (at_right (painted black))
              (Moves-then right_rotation (at_left-Moves left_rotation left_rotation-Moves u)
                right_rotation-Moves)
              (at_right-Moves (painted black) (painted-Moves black)))
            (at_left-Moves (painted black) (painted-Moves black)))
          (painted-Moves red)))

lean_right-Led : (t u : Tree Color) → IfDone (Led u) (lean_right t u)
lean_right-Led t u = IfDone-bind_any (left_child t) λ m.
    IfDone-if (is_black m)
      (Moves-round true (
        Moves-then (painted black)
          (Moves-then (at_left (painted red)) (left_rotation-Moves u)
            (at_left-Moves (painted red) (painted-Moves red)))
          (painted-Moves black)))
      (Moves-round false (
        Moves-then (painted red)
          (Moves-then (at_left (painted black))
            (Moves-then (at_right (painted black))
              (Moves-then left_rotation (at_right-Moves right_rotation right_rotation-Moves u)
                left_rotation-Moves)
              (at_right-Moves (painted black) (painted-Moves black)))
            (at_left-Moves (painted black) (painted-Moves black)))
          (painted-Moves red)))

insert_round-Led : (f : Frame Color) (t : Tree Color) → IfDone (Led (fill f t)) (insert_round f t)
unfolding insert_round
insert_round-Led (went_left k i r) t =
    IfDone-if (same_color (is_black t) (is_black r)) (pull_black-Led (node k i t r))
      (lean_left-Led t (node k i t r))
insert_round-Led (went_right k i l) t =
    IfDone-if (same_color (is_black l) (is_black t)) (pull_black-Led (node k i l t))
      (lean_right-Led t (node k i l t))

pub insert_loop-Moved :
    (fs : List (Frame Color)) (t : Tree Color) → IfDone (Moved (plug fs t)) (insert_loop fs t)
unfolding insert_loop
insert_loop-Moved [] t = if_done (Moved-refl t)
insert_loop-Moved (f ∷ []) t = IfDone-bind (insert_round-Led f t) λ p m. if_done m
insert_loop-Moved (f ∷ g ∷ gs) t = IfDone-bind (insert_round-Led f t) λ p m.
    let up = Moved-plug gs (Moved-fill g m) in
    IfDone-if p.1 (if_done up) (
      IfDone-if (is_black (fill g p.0)) (if_done up)
        (IfDone-mono (insert_loop-Moved gs (fill g p.0)) λ u n. Moved-trans up n))
