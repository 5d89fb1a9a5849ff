-- ===== src/Books/WeightBalanced/Bounds.antt =====
-- The room of `path_stack` in w_bl_tree.c: three steps up more than double the weight.
use c_lang_project.Books.WeightBalanced.{path_room, weight}
use c_lang_project.Books.WeightBalanced.Balance.{IsWeighted}
use c_lang_project.Books.SearchTree.{
  Frame, IsSearch, Tree, leaves-le, max_key, plug, went_left, went_right,
}
use c_lang_project.Books.WeightBalanced.Rebuild.{
  Fits, plug-Fits, weight-leaves, weight_pos, top-grows, weight-plug, top,
}
use c_lang_project.Common.{
  ◌*◌, List, [], arith, false, length, le→ltb, ltb, refl, suc, zero, ℕ, ◌∷◌, ◌≡◌, ◌≤◌,
}
use native.Mathlib.Decide.{dec_lt}

-- One node up.
record Rung (fs : List (Frame ℕ)) (h total : ℕ) : Type 0 where
  up : ℕ
  heavier : 125 * h ≤ 89 * up
  fits : Fits fs up
  same : total ≡ top fs up

climb : (f : Frame ℕ) (fs : List (Frame ℕ)) (h : ℕ) → Fits (f ∷ fs) h → Rung fs h (top (f ∷ fs) h)
climb (went_left k i r) fs h (e, even, wr, fits) = record {
  up = i;
  heavier = omega arith;
  fits = fits;
  same = refl;
}
climb (went_right k i l) fs h (e, even, wl, fits) = record {
  up = i;
  heavier = omega arith;
  fits = fits;
  same = refl;
}

-- `m`, doubled `j` times.
abbrev doubled : ℕ → ℕ → ℕ
doubled zero m = m
doubled (suc j) m = doubled j (2 * m)

doubled-le-top :
    (j : ℕ) (fs : List (Frame ℕ)) (h m : ℕ)
    → Fits fs h
    → 3 * j ≤ length fs
    → m ≤ h
    → doubled j m ≤ top fs h
doubled-le-top zero fs h m fits few le = omega (arith, top-grows fs h fits)
doubled-le-top (suc j) [] h m fits few le = absurd (omega arith)
doubled-le-top (suc j) (f ∷ []) h m fits few le = absurd (omega arith)
doubled-le-top (suc j) (f ∷ g ∷ []) h m fits few le = absurd (omega arith)
doubled-le-top (suc j) (f ∷ g ∷ d ∷ fs) h m fits few le =
    let s = climb f (g ∷ d ∷ fs) h fits in
    let s' = climb g (d ∷ fs) s.up s.fits in
    let s'' = climb d fs s'.up s'.fits in
    omega (
      arith,
      doubled-le-top j fs s''.up (2 * m) s''.fits (omega arith)
          (omega (arith, s.heavier, s'.heavier, s''.heavier)),
      s.same,
      s'.same,
      s''.same,
    )

-- Distinct int keys: the way to a leaf fits in `path_stack`.
pub room_on_way :
    (fs : List (Frame ℕ)) (t : Tree ℕ)
    → IsSearch 0 max_key (plug fs t)
    → IsWeighted (plug fs t)
    → ltb path_room (length fs) ≡ false
room_on_way fs t s w =
    let (wt, fits) = plug-Fits fs t w in
    le→ltb path_room (length fs) (elim (dec_lt (length fs) 99) [
      | yes h ↦ omega arith
      | no h ↦ absurd (
          omega (
            arith,
            doubled-le-top 33 fs (weight t) 1 fits (omega arith) (weight_pos t wt),
            weight-plug fs t,
            weight-leaves (plug fs t) w,
            leaves-le 0 max_key (plug fs t) s,
          ))
    ])
