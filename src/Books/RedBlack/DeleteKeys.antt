-- ===== src/Books/RedBlack/DeleteKeys.antt =====
-- What the loop of `delete` of rb_tree.c leaves of the keys and objects.
use c_lang_project.Books.RedBlack.Remove.{
  after_single, delete_loop, delete_round, double_left, double_right, lift_left, lift_right,
  single_left, single_right, turn_left, turn_right,
}
use c_lang_project.Common.{List, [], false, true, ◌∷◌}
use c_lang_project.Books.RedBlack.Keys.{
  Led, Moved, Moved-fill, Moved-paint, Moved-plug, Moved-trans, Moves, Moves-round, Moves-then,
  at_left-Moves, at_right-Moves, left_rotation-Moves, painted-Moves, right_rotation-Moves,
}
use c_lang_project.Books.SearchTree.{Frame, Tree, fill, node, plug, went_left, went_right}
use c_lang_project.Books.RedBlack.{
  Color, at_left, at_right, black, finished, is_black, left_child, left_rotation, painted, red,
  right_child, right_rotation,
}
use c_lang_project.Lang.Result.{
  ◌>>=◌, IfDone, IfDone-bind, IfDone-bind_any, IfDone-if, IfDone-mono, Result, if_done,
}

single_left-Moves : Moves single_left
single_left-Moves t =
    Moves-then (painted black)
      (Moves-then (at_left (painted red)) (left_rotation-Moves t)
        (at_left-Moves (painted red) (painted-Moves red)))
      (painted-Moves black)

single_right-Moves : Moves single_right
single_right-Moves t =
    Moves-then (painted black)
      (Moves-then (at_right (painted red)) (right_rotation-Moves t)
        (at_right-Moves (painted red) (painted-Moves red)))
      (painted-Moves black)

-- Both children become black, and then the node gets its color.
paint_all-Moves :
    (c : Color) {t : Tree Color} {r : Result (Tree Color)}
    → IfDone (Moved t) r
    → IfDone (Moved t) (r >>= at_left (painted black) >>= at_right (painted black) >>= painted c)
paint_all-Moves c m =
    Moves-then (painted c)
      (Moves-then (at_right (painted black))
        (Moves-then (at_left (painted black)) m
          (at_left-Moves (painted black) (painted-Moves black)))
        (at_right-Moves (painted black) (painted-Moves black)))
      (painted-Moves c)

double_left-Moves : (c : Color) → Moves (double_left c)
double_left-Moves c t = paint_all-Moves c (
    Moves-then left_rotation (at_right-Moves right_rotation right_rotation-Moves t)
      left_rotation-Moves)

double_right-Moves : (c : Color) → Moves (double_right c)
double_right-Moves c t = paint_all-Moves c (
    Moves-then right_rotation (at_left-Moves left_rotation left_rotation-Moves t)
      right_rotation-Moves)

after_single-Led :
    (c : Color) {t : Tree Color} {r : Result (Tree Color)}
    → IfDone (Moved t) r
    → IfDone (Led t) (r >>= after_single c)
after_single-Led black m = Moves-round false m
after_single-Led red m = Moves-round true m

lift_left-Led : (c : Color) (o u : Tree Color) → IfDone (Led u) (lift_left c o u)
lift_left-Led c o u = IfDone-bind_any (left_child o) λ m.
    IfDone-if (is_black m) (after_single-Led c (single_left-Moves u))
      (Moves-round true (double_left-Moves c u))

lift_right-Led : (c : Color) (o u : Tree Color) → IfDone (Led u) (lift_right c o u)
lift_right-Led c o u = IfDone-bind_any (right_child o) λ m.
    IfDone-if (is_black m) (after_single-Led c (single_right-Moves u))
      (Moves-round true (double_right-Moves c u))

turn_left-Led : (o u : Tree Color) → IfDone (Led u) (turn_left o u)
turn_left-Led o u = IfDone-bind_any (left_child o >>= left_child) λ m.
    IfDone-if (is_black m) (turn single_left single_left-Moves)
      (turn (double_left red) (double_left-Moves red))
  where
    turn :
        (g : Tree Color → Result (Tree Color))
        → Moves g
        → IfDone (Led u) (left_rotation u >>= at_left g >>= painted black >>= finished)
    turn g n = Moves-round true (
        Moves-then (painted black)
          (Moves-then (at_left g) (left_rotation-Moves u) (at_left-Moves g n))
          (painted-Moves black))

turn_right-Led : (o u : Tree Color) → IfDone (Led u) (turn_right o u)
turn_right-Led o u = IfDone-bind_any (right_child o >>= right_child) λ m.
    IfDone-if (is_black m) (turn single_right single_right-Moves)
      (turn (double_right red) (double_right-Moves red))
  where
    turn :
        (g : Tree Color → Result (Tree Color))
        → Moves g
        → IfDone (Led u) (right_rotation u >>= at_right g >>= painted black >>= finished)
    turn g n = Moves-round true (
        Moves-then (painted black)
          (Moves-then (at_right g) (right_rotation-Moves u) (at_right-Moves g n))
          (painted-Moves black))

delete_round-Led : (f : Frame Color) (t : Tree Color) → IfDone (Led (fill f t)) (delete_round f t)
unfolding delete_round
delete_round-Led (went_left k black r) t =
    IfDone-if (is_black r) (lift_left-Led black r (node k black t r))
      (turn_left-Led r (node k black t r))
delete_round-Led (went_left k red r) t = lift_left-Led red r (node k red t r)
delete_round-Led (went_right k black l) t =
    IfDone-if (is_black l) (lift_right-Led black l (node k black l t))
      (turn_right-Led l (node k black l t))
delete_round-Led (went_right k red l) t = lift_right-Led red l (node k red l t)

pub delete_loop-Moved :
    (fs : List (Frame Color)) (t : Tree Color) → IfDone (Moved (plug fs t)) (delete_loop fs t)
unfolding delete_loop
delete_loop-Moved [] t = if_done (Moved-paint black t)
delete_loop-Moved (f ∷ []) t =
    IfDone-if (is_black t) (IfDone-bind (delete_round-Led f t) λ p m. if_done m)
      (if_done (Moved-fill f (Moved-paint black t)))
delete_loop-Moved (f ∷ g ∷ gs) t =
    IfDone-if (is_black t)
      (IfDone-bind (delete_round-Led f t) λ p m.
        let up = Moved-plug gs (Moved-fill g m) in
        IfDone-if p.1 (if_done up)
          (IfDone-mono (delete_loop-Moved gs (fill g p.0)) λ u n. Moved-trans up n))
      (if_done (Moved-plug (f ∷ g ∷ gs) (Moved-paint black t)))
