-- ===== src/Books/RedBlack/InsertColors.antt =====
-- The loop of `insert` of rb_tree.c restores the colors.
use c_lang_project.Books.SearchTree.{
  Frame, Tree, fill, leaf, node, other, plug, went_left, went_right,
}
use c_lang_project.Books.RedBlack.Colors.{
  Fits, IsColored, blacks, blacks-paint_black, blacks-pos, frame_blacks, is_black-fill,
  is_black-paint_black, paint_black-IsColored, plug-IsColored,
}
use c_lang_project.Lang.Result.{Ends, Ends-bind, done, ends}
use c_lang_project.Books.RedBlack.{
  Color, black, frame_black, insert_loop, insert_round, is_black, lean_left, lean_right, paint,
  pull_black, red,
}
use c_lang_project.Common.{
  ◌+◌, Bool, Bool-cases, List, [], ap, arith, false, if◌then◌else◌, inl, inr, refl, subst, sym,
  true, ℕ, ◌∙◌, ◌∷◌, ◌≡◌,
}
use mathlib.Core.Bool.{false≢true}

-- `current_node`: a red node, perhaps with red children.
pub data IsConflict (n : ℕ) : Tree Color → Type 0 where
  conflict :
      {k : ℕ} {l r : Tree Color}
      → blacks l ≡ n
      → blacks r ≡ n
      → IsColored l
      → IsColored r
      → IsConflict n (node k red l r)

-- What a round leaves: a black node where the loop is finished, and else a red one.
abbrev pub Raised : ℕ → Tree Color × Bool → Type 0
Raised n (u, b) = IsColored u × (blacks u ≡ n + 1) × (is_black u ≡ b)

-- Both children are red.
module _ (n k : ℕ) (t s : Tree Color) (c : IsConflict n t) (cs : IsColored s) (e : blacks s ≡ n)
    (red_too : is_black s ≡ false) where
  painted_conflict : IsColored (paint black t) × (blacks (paint black t) ≡ n + 1)
  painted_conflict = conflict_painted t c
    where
      conflict_painted :
          (t : Tree Color)
          → IsConflict n t
          → IsColored (paint black t) × (blacks (paint black t) ≡ n + 1)
      conflict_painted _ (conflict el er cl cr) = ((el ∙ sym er, cl, cr), ap (λ m. m + 1) el)

  painted_sibling : IsColored (paint black s) × (blacks (paint black s) ≡ n + 1)
  painted_sibling = (paint_black-IsColored s cs, blacks-paint_black s red_too ∙ ap (λ m. m + 1) e)

  pull_left-Raised : Ends (Raised n) (pull_black (node k black t s))
  pull_left-Raised = ends (
    (
      painted_conflict.1 ∙ sym painted_sibling.1,
      is_black-paint_black t,
      is_black-paint_black s,
      painted_conflict.0,
      painted_sibling.0,
    ),
    painted_conflict.1,
    refl,
  )

  pull_right-Raised : Ends (Raised n) (pull_black (node k black s t))
  pull_right-Raised = ends (
    (
      painted_sibling.1 ∙ sym painted_conflict.1,
      is_black-paint_black s,
      is_black-paint_black t,
      painted_sibling.0,
      painted_conflict.0,
    ),
    painted_sibling.1,
    refl,
  )

-- The other child is black.
module _ (n k : ℕ) (s : Tree Color) (cs : IsColored s) (e : blacks s ≡ n)
    (black_there : is_black s ≡ true) where
  lean_left-Raised :
      (t : Tree Color) → IsConflict n t → Ends (Raised n) (lean_left t (node k black t s))
  lean_left-Raised _ (conflict {l = l} {r = (leaf k'' red o)} el er cl cr) =
      absurd (omega (arith, blacks-pos s cs black_there))
  lean_left-Raised _ (conflict {l = l} {r = (leaf k'' black o)} el er cl cr) =
      ends ((omega arith, cl, (omega arith, refl, black_there, tt, cs)), omega arith, refl)
  lean_left-Raised _ (conflict {l = l} {r = (node k'' red x y)} el er cl (exy, bx, by, cx, cy)) =
      ends
        ((omega arith, refl, refl, (omega arith, cl, cx), (omega arith, cy, cs)), omega arith, refl)
  lean_left-Raised _ (conflict {l = l} {r = (node k'' black x y)} el er cl cr) =
      ends ((omega arith, cl, (omega arith, refl, black_there, cr, cs)), omega arith, refl)

  lean_right-Raised :
      (t : Tree Color) → IsConflict n t → Ends (Raised n) (lean_right t (node k black s t))
  lean_right-Raised _ (conflict {l = (leaf k'' red o)} {r = r} el er cl cr) =
      absurd (omega (arith, blacks-pos s cs black_there))
  lean_right-Raised _ (conflict {l = (leaf k'' black o)} {r = r} el er cl cr) =
      ends ((omega arith, (omega arith, black_there, refl, cs, tt), cr), omega arith, refl)
  lean_right-Raised _ (conflict {l = (node k'' red x y)} {r = r} el er (exy, bx, by, cx, cy) cr) =
      ends
        ((omega arith, refl, refl, (omega arith, cs, cx), (omega arith, cy, cr)), omega arith, refl)
  lean_right-Raised _ (conflict {l = (node k'' black x y)} {r = r} el er cl cr) =
      ends ((omega arith, (omega arith, black_there, refl, cs, cl), cr), omega arith, refl)

not_black-IsConflict : (n : ℕ) (t : Tree Color) → IsConflict n t → is_black t ≡ false
not_black-IsConflict n _ (conflict el er cl cr) = refl

insert_round-Raised :
    (n : ℕ) (f : Frame Color) (t : Tree Color)
    → IsConflict n t
    → frame_black f ≡ true
    → IsColored (other f)
    → blacks (other f) ≡ n
    → Ends (Raised n) (insert_round f t)
unfolding insert_round
insert_round-Raised n (went_left k black r) t c top cr e = elim (Bool-cases (is_black r)) [
  | inl b ↦ rw (not_black-IsConflict n t c, b) (lean_left-Raised n k r cr e b t c)
  | inr b ↦ rw (not_black-IsConflict n t c, b) (pull_left-Raised n k t r c cr e b)
]
insert_round-Raised n (went_right k black l) t c top cl e = elim (Bool-cases (is_black l)) [
  | inl b ↦ rw (b, not_black-IsConflict n t c) (lean_right-Raised n k l cl e b t c)
  | inr b ↦ rw (b, not_black-IsConflict n t c) (pull_right-Raised n k t l c cl e b)
]
insert_round-Raised n (went_left k red r) t c top cr e = absurd (false≢true top)
insert_round-Raised n (went_right k red l) t c top cl e = absurd (false≢true top)

fill-IsConflict :
    (f : Frame Color) (n : ℕ) (u : Tree Color)
    → frame_black f ≡ false
    → IsColored u
    → blacks u ≡ n
    → IsColored (other f)
    → blacks (other f) ≡ n
    → IsConflict n (fill f u)
fill-IsConflict (went_left k red r) n u b cu eu cr er = conflict eu er cu cr
fill-IsConflict (went_right k red l) n u b cu eu cl el = conflict el eu cl cu
fill-IsConflict (went_left k black r) n u b cu eu cr er = absurd (false≢true (sym b))
fill-IsConflict (went_right k black l) n u b cu eu cl el = absurd (false≢true (sym b))

-- A red child means a black parent.
top_of_red :
    (f : Frame Color) (fs : List (Frame Color)) (n : ℕ)
    → Fits (f ∷ fs) false n
    → frame_black f ≡ true
top_of_red f fs n (e, co, bs, fits) = elim (Bool-cases (frame_black f)) [
  | inl b ↦ b
  | inr b ↦ absurd (false≢true (bs b).0)
]

after_round :
    (g : Frame Color) (gs : List (Frame Color)) (n : ℕ) (p : Tree Color × Bool)
    → Raised n p
    → Fits (g ∷ gs) true (n + 1)
    → (Fits gs false (n + 1)
        → IsConflict (n + 1) (fill g p.0)
        → Ends (λ v. IsColored (paint black v)) (insert_loop gs (fill g p.0)))
    → Ends
        (λ v. IsColored (paint black v))
        (if p.1
          then done (plug (g ∷ gs) p.0)
          else if is_black (fill g p.0)
          then done (plug (g ∷ gs) p.0)
          else insert_loop gs (fill g p.0))
after_round g gs n (u, true) (cu, eu, bu) fits rec =
    ends (paint_black-IsColored _ (plug-IsColored (g ∷ gs) u cu (rw (bu, eu) fits)))
after_round g gs n (u, false) (cu, eu, bu) (eg, cg, bg, fits) rec =
    elim (Bool-cases (frame_black g)) [
      | inl black_above ↦
          rw (is_black-fill g u, black_above)
            (ends (
              paint_black-IsColored _ (
                plug-IsColored (g ∷ gs) u cu
                  (rw (bu, eu) (eg, cg, (λ z. absurd (false≢true (sym z ∙ black_above))), fits)))))
      | inr red_above ↦
          rw (is_black-fill g u, red_above)
            (rec (subst (λ b. Fits gs b (frame_blacks b (n + 1))) red_above fits)
              (fill-IsConflict g (n + 1) u red_above cu eu cg eg))
    ]

-- The tree is red-black again once its root is black.
pub insert_loop-IsColored :
    (fs : List (Frame Color)) (t : Tree Color) (n : ℕ)
    → Fits fs false n
    → IsConflict n t
    → Ends (λ u. IsColored (paint black u)) (insert_loop fs t)
unfolding insert_loop
insert_loop-IsColored [] _ n fits (conflict el er cl cr) = ends (el ∙ sym er, cl, cr)
insert_loop-IsColored (f ∷ []) t n (e, co, bs, fits) c =
    Ends-bind (insert_round-Raised n f t c (top_of_red f [] n (e, co, bs, fits)) co e)
      λ p r. ends (paint_black-IsColored p.0 r.0)
insert_loop-IsColored (f ∷ g ∷ gs) t n (e, co, bs, fits) c =
    let top = top_of_red f (g ∷ gs) n (e, co, bs, fits) in
    Ends-bind (insert_round-Raised n f t c top co e) λ p r.
      after_round g gs n p r (subst (λ b. Fits (g ∷ gs) b (frame_blacks b n)) top fits)
        (λ fits' c'. insert_loop-IsColored gs (fill g p.0) (n + 1) fits' c')
