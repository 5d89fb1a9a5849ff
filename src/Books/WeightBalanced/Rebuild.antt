-- ===== src/Books/WeightBalanced/Rebuild.antt =====
-- The loop of w_bl_tree.c that rebalances from a changed subtree up to the root.
use c_lang_project.Common.Int.{int_bound}
use c_lang_project.Books.WeightBalanced.{rebuild, weight}
use c_lang_project.Books.SearchTree.{
  IsSearch, leaf, leaves, lookup, went_left, went_right, Frame, Tree, node, plug,
}
use c_lang_project.Lang.Result.{Ends, Ends-bind, Ends-mono, ends}
use c_lang_project.Books.WeightBalanced.Balance.{Compares, IsEven, IsWeighted, rebalance-Rebalanced}
use c_lang_project.Common.{◌+◌, ◌<◌, Bool, List, [], arith, refl, ℕ, ◌∙◌, ◌∷◌, ◌≡◌, ◌≤◌}
use c_lang_project.Books.SearchTree.Paths.{here, left_of, right_of, Way, lookup-plug}

-- A way whose nodes were in balance over a subtree of weight `h`.
abbrev pub Fits : List (Frame ℕ) → ℕ → Type 0
Fits [] h = Unit {0}
Fits (went_left k i r ∷ fs) h = (i ≡ h + weight r) × IsEven h (weight r) × IsWeighted r × Fits fs i
Fits (went_right k i l ∷ fs) h = (i ≡ weight l + h) × IsEven (weight l) h × IsWeighted l × Fits fs i

pub plug-Fits :
    (fs : List (Frame ℕ)) (t : Tree ℕ) → IsWeighted (plug fs t) → IsWeighted t × Fits fs (weight t)
plug-Fits [] t b = (b, tt)
plug-Fits (went_left k i r ∷ fs) t b =
    let ((e, even, wt, wr), fits) = plug-Fits fs (node k i t r) b in (wt, (e, even, wr, fits))
plug-Fits (went_right k i l ∷ fs) t b =
    let ((e, even, wl, wt), fits) = plug-Fits fs (node k i l t) b in (wt, (e, even, wl, fits))

pub weight-leaves : (t : Tree ℕ) → IsWeighted t → weight t ≡ leaves t
weight-leaves (leaf k w o) s = s
weight-leaves (node k w l r) (e, even, wl, wr) =
    omega (arith, weight-leaves l wl, weight-leaves r wr)

pub weight_pos : (t : Tree ℕ) → IsWeighted t → 0 < weight t
weight_pos (leaf k w o) s = omega arith
weight_pos (node k w l r) s = omega arith

-- The weight of the whole tree, over a subtree of weight `h`.
abbrev pub top : List (Frame ℕ) → ℕ → ℕ
top [] h = h
top (went_left k i r ∷ fs) h = top fs i
top (went_right k i l ∷ fs) h = top fs i

pub weight-plug : (fs : List (Frame ℕ)) (t : Tree ℕ) → weight (plug fs t) ≡ top fs (weight t)
weight-plug [] t = refl
weight-plug (went_left k i r ∷ fs) t = weight-plug fs (node k i t r)
weight-plug (went_right k i l ∷ fs) t = weight-plug fs (node k i l t)

pub top-grows : (fs : List (Frame ℕ)) (h : ℕ) → Fits fs h → h ≤ top fs h
top-grows [] h fits = omega arith
top-grows (went_left k i r ∷ fs) h (e, even, wr, fits) = omega (arith, top-grows fs i fits)
top-grows (went_right k i l ∷ fs) h (e, even, wl, fits) = omega (arith, top-grows fs i fits)

module _ (light heavy : ℕ → ℕ → Bool) (c : Compares light heavy) (lo hi : ℕ) where
  -- A valid tree with the objects of `whole`.
  pub record Rebuilt (whole t : Tree ℕ) : Type 0 where
    pub search : IsSearch lo hi t
    pub weighted : IsWeighted t
    pub small : weight t < int_bound
    pub same : (q : ℕ) → lo ≤ q → q < hi → lookup t q ≡ lookup whole q

  next_round :
      (fs : List (Frame ℕ)) {a b : ℕ} (t t' : Tree ℕ)
      → Way lo hi fs a b
      → ((q : ℕ) → lookup t' q ≡ lookup t q)
      → Ends (Rebuilt (plug fs t')) (rebuild light heavy fs t')
      → Ends (Rebuilt (plug fs t)) (rebuild light heavy fs t')
  next_round fs t t' p same rec = Ends-mono rec λ u r. record {
    search = r.search;
    weighted = r.weighted;
    small = r.small;
    same = λ q low high.
        r.same q low high
        ∙ lookup-plug lo hi (λ _ o o'. o ≡ o') t' t p (λ q out o. refl) (λ q _ _. same q) q low
            high;
  }

  -- The subtree has gained or lost a leaf, or neither.
  pub rebuild-Rebuilt :
      {a b : ℕ} (fs : List (Frame ℕ)) (t : Tree ℕ) (h : ℕ)
      → Way lo hi fs a b
      → Fits fs h
      → IsSearch a b t
      → IsWeighted t
      → weight t ≤ h + 1
      → h ≤ weight t + 1
      → top fs h + weight t < int_bound + h
      → Ends (Rebuilt (plug fs t)) (rebuild light heavy fs t)
  unfolding rebuild lookup
  rebuild-Rebuilt _ t h here fits s w up down room =
      ends (record { search = s; weighted = w; small = omega arith; same = λ q _ _. refl })
  rebuild-Rebuilt (f ∷ fs) t h (left_of {a = a} {b = b} {k = k} {i = i} {r = r} p sr)
        (e, even, wr, fits) s w up down room =
      let pos = weight_pos t w in
      let grows = top-grows fs i fits in
      Ends-bind
        (rebalance-Rebalanced light heavy c a b k i t r s sr w wr (omega arith) (omega arith))
        λ t' re. next_round fs (node k i t r) t' p re.same (
          rebuild-Rebuilt fs t' i p fits re.search re.weighted (omega (arith, re.total))
            (omega (arith, re.total)) (omega (arith, re.total)))
  rebuild-Rebuilt (f ∷ fs) t h (right_of {a = a} {b = b} {k = k} {i = i} {l = l} p sl)
        (e, even, wl, fits) s w up down room =
      let pos = weight_pos t w in
      let grows = top-grows fs i fits in
      Ends-bind
        (rebalance-Rebalanced light heavy c a b k i l t sl s wl w (omega arith) (omega arith))
        λ t' re. next_round fs (node k i l t) t' p re.same (
          rebuild-Rebuilt fs t' i p fits re.search re.weighted (omega (arith, re.total))
            (omega (arith, re.total)) (omega (arith, re.total)))
