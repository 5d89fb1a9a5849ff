-- ===== src/Books/HeightBalanced/Rebuild.antt =====
-- The loop of h_bl_tree.c that rebalances from a changed subtree upwards.
use native.Mathlib.Decide.{ℕ_discrete}
use c_lang_project.Books.HeightBalanced.{height, rebuild}
use c_lang_project.Books.SearchTree.Paths.{
  here, left_of, right_of, Way, lookup-plug, plug-IsSearch, left_of, right_of,
}
use c_lang_project.Books.HeightBalanced.Balance.{IsBalanced, IsLevel, rebalance-Rebalanced}
use c_lang_project.Books.SearchTree.{
  Frame, IsSearch, Tree, lookup, node, plug, went_left, went_right,
}
use c_lang_project.Lang.Result.{Ends, Ends-bind, Ends-mono, done, ends}
use c_lang_project.Common.{
  ◌+◌, ◌<◌, ◌==◌, ==-false, ==-true, List, [], arith, if◌then◌else◌, length, refl, ℕ, ◌∙◌, ◌∷◌, ◌≡◌,
  ◌≤◌,
}

-- A way whose nodes were in balance over a subtree of height `h`.
abbrev pub Fits : List (Frame ℕ) → ℕ → Type 0
Fits [] h = Unit {0}
Fits (went_left k i r ∷ fs) h = IsLevel i h (height r) × IsBalanced r × Fits fs i
Fits (went_right k i l ∷ fs) h = IsLevel i (height l) h × IsBalanced l × Fits fs i

pub plug-Fits :
    (fs : List (Frame ℕ)) (t : Tree ℕ) → IsBalanced (plug fs t) → IsBalanced t × Fits fs (height t)
plug-Fits [] t b = (b, tt)
plug-Fits (went_left k i r ∷ fs) t b =
    let ((level, bt, br), fits) = plug-Fits fs (node k i t r) b in (bt, (level, br, fits))
plug-Fits (went_right k i l ∷ fs) t b =
    let ((level, bl, bt), fits) = plug-Fits fs (node k i l t) b in (bt, (level, bl, fits))

pub plug-IsBalanced :
    (fs : List (Frame ℕ)) (t : Tree ℕ) → IsBalanced t → Fits fs (height t) → IsBalanced (plug fs t)
plug-IsBalanced [] t b fits = b
plug-IsBalanced (went_left k i r ∷ fs) t b (level, br, fits) =
    plug-IsBalanced fs (node k i t r) (level, b, br) fits
plug-IsBalanced (went_right k i l ∷ fs) t b (level, bl, fits) =
    plug-IsBalanced fs (node k i l t) (level, bl, b) fits

-- A way is not longer than the tree is high.
pub length-le-height :
    (fs : List (Frame ℕ)) (t : Tree ℕ)
    → Fits fs (height t)
    → length fs + height t ≤ height (plug fs t)
length-le-height [] t fits = omega arith
length-le-height (went_left k i r ∷ fs) t (level, br, fits) =
    omega (arith, length-le-height fs (node k i t r) fits)
length-le-height (went_right k i l ∷ fs) t (level, bl, fits) =
    omega (arith, length-le-height fs (node k i l t) fits)

module _ (lo hi : ℕ) where
  -- A valid tree with the objects of `whole`.
  pub record Rebuilt (whole t : Tree ℕ) : Type 0 where
    pub search : IsSearch lo hi t
    pub balanced : IsBalanced t
    pub same : (q : ℕ) → lo ≤ q → q < hi → lookup t q ≡ lookup whole q

  -- One round, after the node has been rebalanced.
  next_round :
      {fs : List (Frame ℕ)} {a b : ℕ} (i : ℕ) (t t' : Tree ℕ)
      → Way lo hi fs a b
      → Fits fs i
      → IsSearch a b t'
      → IsBalanced t'
      → ((q : ℕ) → lookup t' q ≡ lookup t q)
      → Ends (Rebuilt (plug fs t')) (rebuild fs t')
      → Ends (Rebuilt (plug fs t)) (if height t' == i then done (plug fs t') else rebuild fs t')
  next_round {fs} i t t' p fits s b same rec =
      let swap = lookup-plug lo hi (λ _ o o'. o ≡ o') t' t p (λ q out o. refl) (λ q _ _. same q) in
      elim (ℕ_discrete (height t') i) [
        | yes e ↦ rw (==-true _ _ e) (
            ends (record {
              search = plug-IsSearch lo hi t' p s;
              balanced = plug-IsBalanced fs t' b (rw e fits);
              same = swap;
            }))
        | no ne ↦ rw (==-false _ _ ne) (
            Ends-mono rec λ u r. record {
              search = r.search;
              balanced = r.balanced;
              same = λ q low high. r.same q low high ∙ swap q low high;
            })
      ]

  -- The subtree has become higher or lower by one at most.
  pub rebuild-Rebuilt :
      {a b : ℕ} (fs : List (Frame ℕ)) (t : Tree ℕ) (h : ℕ)
      → Way lo hi fs a b
      → Fits fs h
      → IsSearch a b t
      → IsBalanced t
      → height t ≤ h + 1
      → h ≤ height t + 1
      → Ends (Rebuilt (plug fs t)) (rebuild fs t)
  unfolding rebuild lookup
  rebuild-Rebuilt _ t h here fits s bal up down =
      ends (record { search = s; balanced = bal; same = λ q _ _. refl })
  rebuild-Rebuilt (f ∷ fs) t h (left_of {a = a} {b = b} {k = k} {i = i} {r = r} p sr)
        (level, br, fits) s bal up down =
      Ends-bind (rebalance-Rebalanced a b k i t r s sr bal br (omega arith) (omega arith)) λ t' re.
        next_round i (node k i t r) t' p fits re.search re.balanced re.same (
          rebuild-Rebuilt fs t' i p fits re.search re.balanced
            (omega (arith, re.above, re.below, re.steady))
            (omega (arith, re.above, re.below, re.steady)))
  rebuild-Rebuilt (f ∷ fs) t h (right_of {a = a} {b = b} {k = k} {i = i} {l = l} p sl)
        (level, bl, fits) s bal up down =
      Ends-bind (rebalance-Rebalanced a b k i l t sl s bl bal (omega arith) (omega arith)) λ t' re.
        next_round i (node k i l t) t' p fits re.search re.balanced re.same (
          rebuild-Rebuilt fs t' i p fits re.search re.balanced
            (omega (arith, re.above, re.below, re.steady))
            (omega (arith, re.above, re.below, re.steady)))
