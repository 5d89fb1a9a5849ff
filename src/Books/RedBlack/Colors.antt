-- ===== src/Books/RedBlack/Colors.antt =====
-- The colors of rb_tree.c: what makes a tree red-black, and ways into such trees.
use c_lang_project.DataStructs.ListRep.{Object}
use mathlib.Core.Bool.{false≢true}
use c_lang_project.Books.SearchTree.{
  Frame, Tree, fill, leaf, node, other, plug, went_left, went_right,
}
use c_lang_project.Books.RedBlack.{Color, black, frame_black, is_black, red, paint}
use c_lang_project.Common.{◌+◌, Bool, List, [], arith, false, refl, sym, true, ℕ, ◌∷◌, ◌≡◌, ◌≤◌}

-- How many black nodes lie on the way to the first leaf.
abbrev pub blacks : Tree Color → ℕ
blacks (leaf k red o) = 0
blacks (leaf k black o) = 1
blacks (node k red l r) = blacks l
blacks (node k black l r) = blacks l + 1

-- A red node has black children, and all ways down meet equally many black nodes.
abbrev pub IsColored : Tree Color → Type 0
IsColored (leaf k c o) = Unit {0}
IsColored (node k red l r) =
    (blacks l ≡ blacks r) × (is_black l ≡ true) × (is_black r ≡ true) × IsColored l × IsColored r
IsColored (node k black l r) = (blacks l ≡ blacks r) × IsColored l × IsColored r

-- With a node on top.
abbrev pub frame_blacks : Bool → ℕ → ℕ
frame_blacks false n = n
frame_blacks true n = n + 1

-- A way whose nodes were so above a subtree of a color and a number of black nodes.
abbrev pub Fits : List (Frame Color) → Bool → ℕ → Type 0
Fits [] b n = Unit {0}
Fits (f ∷ fs) b n =
    (blacks (other f) ≡ n)
    × IsColored (other f)
    × ((frame_black f ≡ false) → (b ≡ true) × (is_black (other f) ≡ true))
    × Fits fs (frame_black f) (frame_blacks (frame_black f) n)

-- Only a red leaf has no black node.
pub is_black-false : (t : Tree Color) → IsColored t → blacks t ≡ 0 → is_black t ≡ false
is_black-false (leaf k red o) c e = refl
is_black-false (leaf k black o) c e = absurd (omega arith)
is_black-false (node k red l r) (eq, bl, br, cl, cr) e = refl
is_black-false (node k black l r) (eq, cl, cr) e = absurd (omega arith)

pub blacks-pos : (t : Tree Color) → IsColored t → is_black t ≡ true → 1 ≤ blacks t
blacks-pos (leaf k red o) c e = cc
blacks-pos (leaf k black o) c e = omega arith
blacks-pos (node k red l r) c e = cc
blacks-pos (node k black l r) c e = omega arith

pub fill-IsColored :
    (f : Frame Color) (t : Tree Color)
    → IsColored t
    → IsColored (other f)
    → blacks (other f) ≡ blacks t
    → ((frame_black f ≡ false) → (is_black t ≡ true) × (is_black (other f) ≡ true))
    → IsColored (fill f t)
fill-IsColored (went_left k red r) t ct cr e bs = (sym e, (bs refl).0, (bs refl).1, ct, cr)
fill-IsColored (went_left k black r) t ct cr e bs = (sym e, ct, cr)
fill-IsColored (went_right k red l) t ct cl e bs = (e, (bs refl).1, (bs refl).0, cl, ct)
fill-IsColored (went_right k black l) t ct cl e bs = (e, cl, ct)

pub is_black-fill : (f : Frame Color) (t : Tree Color) → is_black (fill f t) ≡ frame_black f
is_black-fill (went_left k red r) t = refl
is_black-fill (went_left k black r) t = refl
is_black-fill (went_right k red l) t = refl
is_black-fill (went_right k black l) t = refl

pub blacks-fill :
    (f : Frame Color) (t : Tree Color)
    → blacks (other f) ≡ blacks t
    → blacks (fill f t) ≡ frame_blacks (frame_black f) (blacks t)
blacks-fill (went_left k red r) t e = refl
blacks-fill (went_left k black r) t e = refl
blacks-fill (went_right k red l) t e = e
blacks-fill (went_right k black l) t e = rw e refl

pub plug-IsColored :
    (fs : List (Frame Color)) (t : Tree Color)
    → IsColored t
    → Fits fs (is_black t) (blacks t)
    → IsColored (plug fs t)
plug-IsColored [] t c fits = c
plug-IsColored (f ∷ fs) t c (e, co, bs, fits) =
    plug-IsColored fs (fill f t) (fill-IsColored f t c co e bs)
      (rw (is_black-fill f t, blacks-fill f t e) fits)

-- Below a black node any color fits.
pub Fits-black : (fs : List (Frame Color)) (b : Bool) (n : ℕ) → Fits fs false n → Fits fs b n
Fits-black [] b n fits = tt
Fits-black (f ∷ fs) b n (e, co, bs, fits) = (e, co, (λ r. absurd (false≢true (bs r).0)), fits)

pub plug-Fits :
    (fs : List (Frame Color)) (t : Tree Color)
    → IsColored (plug fs t)
    → IsColored t × Fits fs (is_black t) (blacks t)
plug-Fits [] t c = (c, tt)
plug-Fits (went_left k red r ∷ fs) t c =
    let ((e, bl, br, cl, cr), fits) = plug-Fits fs (node k red t r) c in
    (cl, (sym e, cr, (λ _. (bl, br)), fits))
plug-Fits (went_left k black r ∷ fs) t c =
    let ((e, cl, cr), fits) = plug-Fits fs (node k black t r) c in
    (cl, (sym e, cr, (λ n. absurd (false≢true (sym n))), fits))
plug-Fits (went_right k red l ∷ fs) t c =
    let ((e, bl, br, cl, cr), fits) = plug-Fits fs (node k red l t) c in
    (cr, (e, cl, (λ _. (br, bl)), rw (sym e) fits))
plug-Fits (went_right k black l ∷ fs) t c =
    let ((e, cl, cr), fits) = plug-Fits fs (node k black l t) c in
    (cr, (e, cl, (λ n. absurd (false≢true (sym n))), rw (sym e) fits))

pub is_black-paint_black : (t : Tree Color) → is_black (paint black t) ≡ true
is_black-paint_black (leaf k i o) = refl
is_black-paint_black (node k i l r) = refl

pub paint_black-IsColored : (t : Tree Color) → IsColored t → IsColored (paint black t)
paint_black-IsColored (leaf k i o) c = tt
paint_black-IsColored (node k red l r) (e, bl, br, cl, cr) = (e, cl, cr)
paint_black-IsColored (node k black l r) c = c

pub blacks-paint_black :
    (t : Tree Color) → is_black t ≡ false → blacks (paint black t) ≡ blacks t + 1
blacks-paint_black (leaf k red i) e = refl
blacks-paint_black (leaf k black i) e = cc
blacks-paint_black (node k red l r) e = refl
blacks-paint_black (node k black l r) e = cc

pub blacks-leaf : (k : ℕ) (c : Color) (o : Object) → blacks (leaf k c o) ≤ 1
blacks-leaf k red o = omega arith
blacks-leaf k black o = omega arith
