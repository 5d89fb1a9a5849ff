-- ===== src/Books/RedBlack/Keys.antt =====
-- What the rotations and colors of rb_tree.c leave of the keys and objects.
use c_lang_project.Books.SearchTree.Regroup.{regroup}
use c_lang_project.Common.{List, [], refl, sym, ℕ, ◌∙◌, ◌∷◌, ◌≡◌, Bool}
use c_lang_project.Books.SearchTree.{
  Frame, IsSearch, Tree, fill, leaf, lookup, lt_of_IsSearch, node, plug, went_left, went_right,
}
use c_lang_project.Books.RedBlack.{
  Color, at_left, at_right, left_rotation, paint, painted, right_rotation,
}
use c_lang_project.Lang.Result.{
  ◌>>=◌, IfDone, IfDone-bind, IfDone-mono, Result, done, if_done, if_undefined,
}

-- The keys of `u` lie in order where those of `t` do, with the same objects.
pub record Moved (t u : Tree Color) : Type 0 where
  pub search : (a b : ℕ) → IsSearch a b t → IsSearch a b u
  pub same : (a b : ℕ) → IsSearch a b t → (q : ℕ) → lookup u q ≡ lookup t q

pub Moved-refl : (t : Tree Color) → Moved t t
Moved-refl t = record { search = λ a b s. s; same = λ a b s q. refl }

pub Moved-trans : {t u v : Tree Color} → Moved t u → Moved u v → Moved t v
Moved-trans m n = record {
  search = λ a b s. n.search a b (m.search a b s);
  same = λ a b s q. n.same a b (m.search a b s) q ∙ m.same a b s q;
}

pub Moved-paint : (c : Color) (t : Tree Color) → Moved t (paint c t)
unfolding lookup
Moved-paint c (leaf k i o) = record { search = λ a b s. s; same = λ a b s q. refl }
Moved-paint c (node k i l r) = record { search = λ a b s. s; same = λ a b s q. refl }

pub Moved-fill : (f : Frame Color) {t u : Tree Color} → Moved t u → Moved (fill f t) (fill f u)
unfolding lookup
Moved-fill (went_left k i r) m = record {
  search = λ a b s. (m.search a k s.0, s.1);
  same = λ a b s q. rw (m.same a k s.0 q);
}
Moved-fill (went_right k i l) m = record {
  search = λ a b s. (s.0, m.search k b s.1);
  same = λ a b s q. rw (m.same k b s.1 q);
}

pub Moved-plug :
    (fs : List (Frame Color)) {t u : Tree Color} → Moved t u → Moved (plug fs t) (plug fs u)
Moved-plug [] m = m
Moved-plug (f ∷ fs) m = Moved-plug fs (Moved-fill f m)

-- Statements that move keys and objects at most.
abbrev pub Moves : (Tree Color → Result (Tree Color)) → Type 0
Moves g = (t : Tree Color) → IfDone (Moved t) (g t)

pub painted-Moves : (c : Color) → Moves (painted c)
painted-Moves c t = if_done (Moved-paint c t)

pub left_rotation-Moves : Moves left_rotation
unfolding lookup
left_rotation-Moves (leaf k c o) = if_undefined
left_rotation-Moves (node k c l (leaf _ _ _)) = if_undefined
left_rotation-Moves (node k c l (node k' c' m r)) = if_done (record {
  search = λ a b (sl, (sm, sr)). ((sl, sm), sr);
  same = λ a b (sl, (sm, sr)) q. sym (regroup q _ _ _ k k' (lt_of_IsSearch k k' m sm));
})

pub right_rotation-Moves : Moves right_rotation
unfolding lookup
right_rotation-Moves (leaf k c o) = if_undefined
right_rotation-Moves (node k c (leaf _ _ _) r) = if_undefined
right_rotation-Moves (node k c (node k' c' l m) r) = if_done (record {
  search = λ a b ((sl, sm), sr). (sl, (sm, sr));
  same = λ a b ((sl, sm), sr) q. regroup q _ _ _ k' k (lt_of_IsSearch k' k m sm);
})

pub at_left-Moves : (g : Tree Color → Result (Tree Color)) → Moves g → Moves (at_left g)
at_left-Moves g m (leaf k c o) = if_undefined
at_left-Moves g m (node k c l r) =
    IfDone-bind (m l) λ l' moved. if_done (Moved-fill (went_left k c r) moved)

pub at_right-Moves : (g : Tree Color → Result (Tree Color)) → Moves g → Moves (at_right g)
at_right-Moves g m (leaf k c o) = if_undefined
at_right-Moves g m (node k c l r) =
    IfDone-bind (m r) λ r' moved. if_done (Moved-fill (went_right k c l) moved)

-- One statement after the other.
pub Moves-then :
    (g : Tree Color → Result (Tree Color)) {t : Tree Color} {r : Result (Tree Color)}
    → IfDone (Moved t) r
    → Moves g
    → IfDone (Moved t) (r >>= g)
Moves-then g m n = IfDone-bind m λ u tu. IfDone-mono (n u) λ v uv. Moved-trans tu uv

-- What a round leaves.
abbrev pub Led : Tree Color → Tree Color × Bool → Type 0
Led t (u, b) = Moved t u

-- A round: it ends with a node, and whether the loop is finished.
pub Moves-round :
    (b : Bool) {t : Tree Color} {r : Result (Tree Color)}
    → IfDone (Moved t) r
    → IfDone (Led t) (r >>= λ u. done (u, b))
Moves-round b m = IfDone-bind m λ u tu. if_done tu
