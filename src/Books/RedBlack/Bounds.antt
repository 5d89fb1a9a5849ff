-- ===== src/Books/RedBlack/Bounds.antt =====
-- The room that rb_tree.c has for the way down.
use c_lang_project.Books.SearchTree.{
  Frame, IsSearch, Tree, fill, leaf, leaves, leaves-le, max_key, node, plug,
}
use c_lang_project.Books.RedBlack.Colors.{
  Fits, IsColored, blacks, blacks-fill, frame_blacks, plug-Fits,
}
use c_lang_project.Books.RedBlack.{Color, black, frame_black, is_black, path_room, red}
use c_lang_project.Common.{
  ◌*◌, ◌+◌, ◌<◌, Bool, Bool-cases, List, [], ◌^◌, arith, false, inl, inr, length, le→ltb, ltb, refl,
  subst, suc, sym, true, zero, ℕ, ◌∙◌, ◌∷◌, ◌≡◌, ◌≤◌,
}
use native.Mathlib.Decide.{dec_lt}

leaves-pos : (t : Tree Color) → 0 < leaves t
leaves-pos (leaf k c o) = omega arith
leaves-pos (node k c l r) = omega (arith, leaves-pos l)

-- A tree has at least 2 ^ n leaves above n black nodes.
pow2-le-leaves : (n : ℕ) (t : Tree Color) → IsColored t → n < blacks t → 2 ^ n ≤ leaves t
pow2-le-leaves n (leaf k red o) c h = absurd (omega arith)
pow2-le-leaves zero (leaf k black o) c h = omega arith
pow2-le-leaves (suc n) (leaf k black o) c h = absurd (omega arith)
pow2-le-leaves n (node k red l r) (e, bl, br, cl, cr) h = omega (arith, pow2-le-leaves n l cl h)
pow2-le-leaves zero (node k black l r) (e, cl, cr) h = omega (arith, leaves-pos l)
pow2-le-leaves (suc n) (node k black l r) (e, cl, cr) h =
    let pl = pow2-le-leaves n l cl (omega arith) in
    let pr = pow2-le-leaves n r cr (omega arith) in omega arith

pub blacks-lt : (t : Tree Color) → IsSearch 0 max_key t → IsColored t → blacks t < 34
blacks-lt t s c = elim (dec_lt (blacks t) 34) [
  | yes h ↦ h
  | no h ↦ absurd (omega (arith, pow2-le-leaves 33 t c (omega arith), leaves-le 0 max_key t s))
]

abbrev one_if : Bool → ℕ
one_if true = 1
one_if false = 0

-- At most every second node on a way is red.
length-le :
    (fs : List (Frame Color)) (t : Tree Color) (b : Bool) (n : ℕ)
    → Fits fs b n
    → blacks t ≡ n
    → length fs + 2 * n ≤ 2 * blacks (plug fs t) + one_if b
length-le [] t b n fits e = omega arith
length-le (f ∷ fs) t b n (eo, co, bs, fits) e = elim (Bool-cases (frame_black f)) [
  | inl top ↦
      let fits' = subst (λ c. Fits fs c (frame_blacks c n)) top fits in
      omega (arith, length-le fs (fill f t) true (n + 1) fits' (blacks_there top))
  | inr top ↦
      let fits' = subst (λ c. Fits fs c (frame_blacks c n)) top fits in
      let up = length-le fs (fill f t) false n fits' (blacks_there top) in
      rw ((bs top).0) (omega arith)
]
  where
    blacks_there : {c : Bool} → frame_black f ≡ c → blacks (fill f t) ≡ frame_blacks c n
    blacks_there top = blacks-fill f t (eo ∙ sym e) ∙ rw (top, e) refl

pub length-lt :
    (fs : List (Frame Color)) (t : Tree Color)
    → IsSearch 0 max_key (plug fs t)
    → IsColored (plug fs t)
    → length fs < 68
length-lt fs t s c =
    let (ct, fits) = plug-Fits fs t c in
    let room = length-le fs t (is_black t) (blacks t) fits refl in bound (is_black t) room
  where
    bound :
        (b : Bool) → length fs + 2 * blacks t ≤ 2 * blacks (plug fs t) + one_if b → length fs < 68
    bound true h = omega (arith, blacks-lt (plug fs t) s c)
    bound false h = omega (arith, blacks-lt (plug fs t) s c)

-- The way down in a red-black search tree fits in `path_stack`.
pub room_on_way :
    (fs : List (Frame Color)) (t : Tree Color)
    → IsSearch 0 max_key (plug fs t)
    → IsColored (plug fs t)
    → ltb path_room (length fs) ≡ false
room_on_way fs t s c = le→ltb _ _ (omega (arith, length-lt fs t s c))
