-- ===== src/Books/RedBlack/Shrink.antt =====
-- A round of the loop of `delete` of rb_tree.c, at a node below which a black node is lacking.
use c_lang_project.Books.RedBlack.Remove.{
  lift_left, turn_left, delete_loop, delete_round, lift_right, turn_right,
}
use c_lang_project.Books.SearchTree.{Tree, leaf, node, Frame, fill, other, went_left, went_right}
use c_lang_project.Books.RedBlack.Colors.{
  IsColored, blacks, frame_blacks, Fits, blacks-leaf, blacks-pos,
}
use c_lang_project.Lang.Result.{Ends, ends, Ends-bind, Ends-mono}
use c_lang_project.Books.RedBlack.{Color, black, is_black, red, frame_black}
use c_lang_project.Common.{
  ◌+◌, Bool, arith, false, refl, sym, true, ℕ, ◌≡◌, ◌≤◌, ◌-◌, Bool-cases, List, [], inl, inr, ◌∷◌,
}
use mathlib.Core.Bool.{false≢true}

-- What the round leaves below a node of the color `c`, which had `n + 1` black nodes below it: as
-- many where it finishes, and else one less under a black node.
abbrev pub Settled : Bool → ℕ → Tree Color × Bool → Type 0
Settled c n (u, true) =
    IsColored u × (blacks u ≡ frame_blacks c (n + 1)) × ((c ≡ true) → is_black u ≡ true)
Settled c n (u, false) = IsColored u × (blacks u ≡ n + 1) × (is_black u ≡ true)

-- It ends in any case, and so if the lower tree `t` is colored.
abbrev pub Settles : Bool → ℕ → Tree Color → Tree Color × Bool → Type 0
Settles c n t p = IsColored t → is_black t ≡ true → blacks t ≡ n → Settled c n p

abbrev color_black : Color → Bool
color_black red = false
color_black black = true

module _ (n : ℕ) (some_black : 1 ≤ n) (k : ℕ) (t : Tree Color) where
  lift_left-Settles :
      (c : Color) (r : Tree Color)
      → IsColored r
      → is_black r ≡ true
      → blacks r ≡ n + 1
      → Ends (Settles (color_black c) n t) (lift_left c r (node k c t r))
  lift_left-Settles c (leaf k' i o) cr b e = absurd (omega (arith, blacks-leaf k' i o))
  lift_left-Settles c (node k' red x y) cr b e = absurd (false≢true b)
  lift_left-Settles c (node k' black (leaf k'' red o) y) (exy, cx, cy) b e = absurd (omega arith)
  lift_left-Settles red (node k' black (leaf k'' black o) y) (exy, cx, cy) b e =
      ends
        (λ ct bt et. ((omega arith, (omega arith, bt, refl, ct, tt), cy), omega arith, λ z. refl))
  lift_left-Settles black (node k' black (leaf k'' black o) y) (exy, cx, cy) b e =
      ends (λ ct bt et. ((omega arith, (omega arith, bt, refl, ct, tt), cy), omega arith, refl))
  lift_left-Settles red (node k' black (node k'' black x x') y) (exy, cx, cy) b e =
      ends
        (λ ct bt et. ((omega arith, (omega arith, bt, refl, ct, cx), cy), omega arith, λ z. refl))
  lift_left-Settles black (node k' black (node k'' black x x') y) (exy, cx, cy) b e =
      ends (λ ct bt et. ((omega arith, (omega arith, bt, refl, ct, cx), cy), omega arith, refl))
  lift_left-Settles red (node k' black (node k'' red x x') y) (exy, (ex, bx, bx', cx, cx'), cy) b
        e =
      ends (λ ct bt et. (
        (omega arith, refl, refl, (omega arith, ct, cx), (omega arith, cx', cy)),
        omega arith,
        λ z. absurd (false≢true z),
      ))
  lift_left-Settles black (node k' black (node k'' red x x') y) (exy, (ex, bx, bx', cx, cx'), cy) b
        e =
      ends (λ ct bt et.
        ((omega arith, (omega arith, ct, cx), (omega arith, cx', cy)), omega arith, λ z. refl))

  turn_left-Settles :
      (r : Tree Color)
      → IsColored r
      → is_black r ≡ false
      → blacks r ≡ n + 1
      → Ends (Settles true n t) (turn_left r (node k black t r))
  turn_left-Settles (leaf k' red o) cr b e = absurd (omega arith)
  turn_left-Settles (leaf k' black o) cr b e = absurd (false≢true (sym b))
  turn_left-Settles (node k' black x y) cr b e = absurd (false≢true (sym b))
  turn_left-Settles (node k' red (leaf k'' red o) y) (exy, bx, by, cx, cy) b e =
      absurd (false≢true bx)
  turn_left-Settles (node k' red (leaf k'' black o) y) (exy, bx, by, cx, cy) b e =
      absurd (omega arith)
  turn_left-Settles (node k' red (node k'' red x x') y) (exy, bx, by, cx, cy) b e =
      absurd (false≢true bx)
  turn_left-Settles (node k' red (node k'' black (leaf j red o) x') y)
        (exy, bx, by, (ex, cx, cx'), cy) b e =
      absurd (omega arith)
  turn_left-Settles (node k' red (node k'' black (leaf j black o) x') y)
        (exy, bx, by, (ex, cx, cx'), cy) b e =
      ends (λ ct bt et. (
        (omega arith, (omega arith, (omega arith, bt, refl, ct, tt), cx'), cy),
        omega arith,
        λ z. refl,
      ))
  turn_left-Settles (node k' red (node k'' black (node j black w w') x') y)
        (exy, bx, by, (ex, cx, cx'), cy) b e =
      ends (λ ct bt et. (
        (omega arith, (omega arith, (omega arith, bt, refl, ct, cx), cx'), cy),
        omega arith,
        λ z. refl,
      ))
  turn_left-Settles (node k' red (node k'' black (node j red w w') x') y)
        (exy, bx, by, (ex, (ew, bw, bw', cw, cw'), cx'), cy) b e =
      ends (λ ct bt et. (
        (
          omega arith,
          (omega arith, refl, refl, (omega arith, ct, cw), (omega arith, cw', cx')),
          cy,
        ),
        omega arith,
        λ z. refl,
      ))

  lift_right-Settles :
      (c : Color) (l : Tree Color)
      → IsColored l
      → is_black l ≡ true
      → blacks l ≡ n + 1
      → Ends (Settles (color_black c) n t) (lift_right c l (node k c l t))
  lift_right-Settles c (leaf k' i o) cr b e = absurd (omega (arith, blacks-leaf k' i o))
  lift_right-Settles c (node k' red x y) cr b e = absurd (false≢true b)
  lift_right-Settles c (node k' black y (leaf k'' red o)) (exy, cy, cx) b e = absurd (omega arith)
  lift_right-Settles red (node k' black y (leaf k'' black o)) (exy, cy, cx) b e =
      ends
        (λ ct bt et. ((omega arith, cy, (omega arith, refl, bt, tt, ct)), omega arith, λ z. refl))
  lift_right-Settles black (node k' black y (leaf k'' black o)) (exy, cy, cx) b e =
      ends (λ ct bt et. ((omega arith, cy, (omega arith, refl, bt, tt, ct)), omega arith, refl))
  lift_right-Settles red (node k' black y (node k'' black x x')) (exy, cy, cx) b e =
      ends
        (λ ct bt et. ((omega arith, cy, (omega arith, refl, bt, cx, ct)), omega arith, λ z. refl))
  lift_right-Settles black (node k' black y (node k'' black x x')) (exy, cy, cx) b e =
      ends (λ ct bt et. ((omega arith, cy, (omega arith, refl, bt, cx, ct)), omega arith, refl))
  lift_right-Settles red (node k' black y (node k'' red x x')) (exy, cy, (ex, bx, bx', cx, cx')) b
        e =
      ends (λ ct bt et. (
        (omega arith, refl, refl, (omega arith, cy, cx), (omega arith, cx', ct)),
        omega arith,
        λ z. absurd (false≢true z),
      ))
  lift_right-Settles black (node k' black y (node k'' red x x')) (exy, cy, (ex, bx, bx', cx, cx')) b
        e =
      ends (λ ct bt et.
        ((omega arith, (omega arith, cy, cx), (omega arith, cx', ct)), omega arith, λ z. refl))

  turn_right-Settles :
      (l : Tree Color)
      → IsColored l
      → is_black l ≡ false
      → blacks l ≡ n + 1
      → Ends (Settles true n t) (turn_right l (node k black l t))
  turn_right-Settles (leaf k' red o) cr b e = absurd (omega arith)
  turn_right-Settles (leaf k' black o) cr b e = absurd (false≢true (sym b))
  turn_right-Settles (node k' black x y) cr b e = absurd (false≢true (sym b))
  turn_right-Settles (node k' red y (leaf k'' red o)) (exy, by, bx, cy, cx) b e =
      absurd (false≢true bx)
  turn_right-Settles (node k' red y (leaf k'' black o)) (exy, by, bx, cy, cx) b e =
      absurd (omega arith)
  turn_right-Settles (node k' red y (node k'' red x x')) (exy, by, bx, cy, cx) b e =
      absurd (false≢true bx)
  turn_right-Settles (node k' red y (node k'' black x' (leaf j red o)))
        (exy, by, bx, cy, (ex, cx', cx)) b e =
      absurd (omega arith)
  turn_right-Settles (node k' red y (node k'' black x' (leaf j black o)))
        (exy, by, bx, cy, (ex, cx', cx)) b e =
      ends (λ ct bt et. (
        (omega arith, cy, (omega arith, cx', (omega arith, refl, bt, tt, ct))),
        omega arith,
        λ z. refl,
      ))
  turn_right-Settles (node k' red y (node k'' black x' (node j black w w')))
        (exy, by, bx, cy, (ex, cx', cx)) b e =
      ends (λ ct bt et. (
        (omega arith, cy, (omega arith, cx', (omega arith, refl, bt, cx, ct))),
        omega arith,
        λ z. refl,
      ))
  turn_right-Settles (node k' red y (node k'' black x' (node j red w w')))
        (exy, by, bx, cy, (ex, cx', (ew, bw, bw', cw, cw'))) b e =
      ends (λ ct bt et. (
        (
          omega arith,
          cy,
          (omega arith, refl, refl, (omega arith, cx', cw), (omega arith, cw', ct)),
        ),
        omega arith,
        λ z. refl,
      ))

-- The node beside `t` has `n + 1` black nodes, so that `t` lacks one.
delete_round-Settles :
    (f : Frame Color) (t : Tree Color) (n : ℕ)
    → 1 ≤ n
    → IsColored (other f)
    → blacks (other f) ≡ n + 1
    → ((frame_black f ≡ false) → is_black (other f) ≡ true)
    → Ends (Settles (frame_black f) n t) (delete_round f t)
unfolding delete_round
delete_round-Settles (went_left k black r) t n h c e b = elim (Bool-cases (is_black r)) [
  | inl br ↦ rw br (lift_left-Settles n h k t black r c br e)
  | inr br ↦ rw br (turn_left-Settles n h k t r c br e)
]
delete_round-Settles (went_left k red r) t n h c e b = lift_left-Settles n h k t red r c (b refl) e
delete_round-Settles (went_right k black l) t n h c e b = elim (Bool-cases (is_black l)) [
  | inl bl ↦ rw bl (lift_right-Settles n h k t black l c bl e)
  | inr bl ↦ rw bl (turn_right-Settles n h k t l c bl e)
]
delete_round-Settles (went_right k red l) t n h c e b =
    lift_right-Settles n h k t red l c (b refl) e

-- A round of the loop of delete of rb_tree.c, at a red-black subtree under a black node, beside a
-- red-black sibling with one black node more on each way down, which is black below a red parent,
-- ends in a red-black tree: where the round is the last, with as many black nodes on each way down
-- as were there before the deletion, and with a black root below a black parent; else with one
-- less and a black root.
pub delete_round-Settled :
    (f : Frame Color) (t : Tree Color)
    → IsColored t
    → is_black t ≡ true
    → IsColored (other f)
    → blacks (other f) ≡ blacks t + 1
    → ((frame_black f ≡ false) → is_black (other f) ≡ true)
    → Ends (Settled (frame_black f) (blacks t)) (delete_round f t)
delete_round-Settled f t ct bt co e b =
    Ends-mono (delete_round-Settles f t (blacks t) (blacks-pos t ct bt) co e b)
      λ p settles. settles ct bt refl

-- A way beside which every tree is colored, with two black nodes at least.
abbrev pub IsWide : List (Frame Color) → Type 0
IsWide [] = Unit {0}
IsWide (f ∷ fs) =
    IsColored (other f)
    × (2 ≤ blacks (other f))
    × ((frame_black f ≡ false) → is_black (other f) ≡ true)
    × IsWide fs

pub Fits-IsWide : (fs : List (Frame Color)) (b : Bool) (n : ℕ) → 2 ≤ n → Fits fs b n → IsWide fs
Fits-IsWide [] b n h fits = tt
Fits-IsWide (f ∷ fs) b n h (e, co, bs, fits) =
    (co, omega arith, (λ z. (bs z).1), Fits-IsWide fs (frame_black f) _ (more (frame_black f)) fits)
  where
    more : (c : Bool) → 2 ≤ frame_blacks c n
    more true = omega arith
    more false = h

delete_round-Ends :
    (f : Frame Color) (fs : List (Frame Color)) (t : Tree Color)
    → IsWide (f ∷ fs)
    → Ends (λ _. Unit {0}) (delete_round f t)
delete_round-Ends f fs t (co, two, bs, wide) =
    Ends-mono (delete_round-Settles f t (blacks (other f) - 1) (omega arith) co (omega arith) bs)
      λ p settles. tt

-- Whatever the colors of the lower tree.
pub delete_loop-Ends :
    (fs : List (Frame Color)) (t : Tree Color) → IsWide fs → Ends (λ _. Unit {0}) (delete_loop fs t)
unfolding delete_loop
delete_loop-Ends [] t wide = ends tt
delete_loop-Ends (f ∷ []) t wide = elim (Bool-cases (is_black t)) [
  | inl b ↦ rw b (Ends-bind (delete_round-Ends f [] t wide) λ p _. ends tt)
  | inr b ↦ rw b (ends tt)
]
delete_loop-Ends (f ∷ g ∷ gs) t wide = elim (Bool-cases (is_black t)) [
  | inl b ↦ rw b (
      Ends-bind (delete_round-Ends f (g ∷ gs) t wide) λ p _. elim (Bool-cases p.1) [
        | inl stop ↦ rw stop (ends tt)
        | inr more ↦ rw more (delete_loop-Ends gs (fill g p.0) wide.3.3)
      ])
  | inr b ↦ rw b (ends tt)
]
