-- ===== src/Books/WeightBalanced/Balance.antt =====
-- Balance of w_bl_tree.c: what it is, and that it is restored at one node.
use c_lang_project.Common.Int.{int_bound}
use c_lang_project.Books.SearchTree.Regroup.{regroup, regroup_inner_left, regroup_inner_right}
use c_lang_project.Books.WeightBalanced.{
  double_left, double_right, single_left, single_right, weight, lighter_left, lighter_right,
  rebalance, add_int,
}
use c_lang_project.Books.SearchTree.{IsSearch, Tree, leaf, lookup, lt_of_IsSearch, node}
use c_lang_project.Lang.Result.{Ends, ends, done}
use c_lang_project.Common.{
  ◌*◌, ◌+◌, ◌<◌, Bool, arith, false, if◌then◌else◌, ltb, refl, sym, true, ℕ, ◌≡◌, ◌≤◌, Bool-cases,
  inl, inr, lt→ltb,
}

-- What the comparisons with 0.288 * w and 0.293 * w say. On a tie, where the product is a whole
-- number, rounding may decide either way.
pub record Compares (light heavy : ℕ → ℕ → Bool) : Type 0 where
  pub light_true : (n w : ℕ) → light n w ≡ true → 125 * n ≤ 36 * w
  pub light_false : (n w : ℕ) → light n w ≡ false → 36 * w ≤ 125 * n
  pub heavy_true : (n w : ℕ) → heavy n w ≡ true → 293 * w ≤ 1000 * n
  pub heavy_false : (n w : ℕ) → heavy n w ≡ false → 1000 * n ≤ 293 * w

-- Neither of two subtrees of weights `a` and `b` is too light.
abbrev pub IsEven : ℕ → ℕ → Type 0
IsEven a b = (36 * (a + b) ≤ 125 * a) × (36 * (a + b) ≤ 125 * b) × (0 < a) × (0 < b)

-- Nor much too light.
abbrev pub IsNear : ℕ → ℕ → Type 0
IsNear a b = (36 * (a + b) ≤ 125 * a + 89) × (36 * (a + b) ≤ 125 * b + 89) × (0 < a) × (0 < b)

abbrev pub IsWeighted : Tree ℕ → Type 0
IsWeighted (leaf k w o) = w ≡ 1
IsWeighted (node k w l r) =
    (w ≡ weight l + weight r) × IsEven (weight l) (weight r) × IsWeighted l × IsWeighted r

-- A search tree in balance for [a, b), with the same objects as a node over `l` and `r`.
pub record Rebalanced (a b k : ℕ) (l r : Tree ℕ) (t : Tree ℕ) : Type 0 where
  pub search : IsSearch a b t
  pub weighted : IsWeighted t
  pub same : (q : ℕ) → lookup t q ≡ (if ltb q k then lookup l q else lookup r q)
  pub total : weight t ≡ weight l + weight r

add_int-done : (m n : ℕ) → m + n < int_bound → add_int m n ≡ done (m + n)
add_int-done m n small = rw (lt→ltb _ _ small)

module _ (a b k k' : ℕ) (l m r : Tree ℕ) (sl : IsSearch a k l) (sm : IsSearch k k' m)
    (sr : IsSearch k' b r) (wl : IsWeighted l) (wm : IsWeighted m) (wr : IsWeighted r)
    (w w' : ℕ) where
  single_right-Rebalanced :
      w' ≡ weight l + weight m
      → w ≡ w' + weight r
      → IsEven (weight l) (weight m)
      → IsNear w' (weight r)
      → 125 * weight r ≤ 36 * w
      → 293 * w ≤ 1000 * weight l
      → w < int_bound
      → Ends (Rebalanced a b k' (node k w' l m) r) (single_right (node k' w (node k w' l m) r))
  unfolding lookup single_right
  single_right-Rebalanced e e' even near light heavy room =
      rw (add_int-done (weight m) (weight r) (omega arith)) (
        ends (record {
          search = (sl, (sm, sr));
          weighted = (omega arith, omega arith, wl, (refl, omega arith, wm, wr));
          same = λ q. regroup q _ _ _ k k' (lt_of_IsSearch k k' m sm);
          total = omega arith;
        }))

  single_left-Rebalanced :
      w' ≡ weight m + weight r
      → w ≡ weight l + w'
      → IsEven (weight m) (weight r)
      → IsNear (weight l) w'
      → 125 * weight l ≤ 36 * w
      → 293 * w ≤ 1000 * weight r
      → w < int_bound
      → Ends (Rebalanced a b k l (node k' w' m r)) (single_left (node k w l (node k' w' m r)))
  unfolding lookup single_left
  single_left-Rebalanced e e' even near light heavy room =
      rw (add_int-done (weight l) (weight m) (omega arith)) (
        ends (record {
          search = ((sl, sm), sr);
          weighted = (omega arith, omega arith, (refl, omega arith, wl, wm), wr);
          same = λ q. sym (regroup q _ _ _ k k' (lt_of_IsSearch k k' m sm));
          total = omega arith;
        }))

module _ (a b k n k' : ℕ) (l x y r : Tree ℕ) (sl : IsSearch a k l) (sx : IsSearch k n x)
    (sy : IsSearch n k' y) (sr : IsSearch k' b r) (wl : IsWeighted l) (wx : IsWeighted x)
    (wy : IsWeighted y) (wr : IsWeighted r) (w w' i : ℕ) (ei : i ≡ weight x + weight y)
    (inner : IsEven (weight x) (weight y)) where
  double_right-Rebalanced :
      w' ≡ weight l + i
      → w ≡ w' + weight r
      → IsEven (weight l) i
      → IsNear w' (weight r)
      → 125 * weight r ≤ 36 * w
      → 1000 * weight l ≤ 293 * w
      → w < int_bound
      → Ends
          (Rebalanced a b k' (node k w' l (node n i x y)) r)
          (double_right k' w (node k w' l (node n i x y)) r)
  unfolding lookup double_right
  double_right-Rebalanced e e' even near light heavy room =
      rw
        (
          add_int-done (weight y) (weight r) (omega arith),
          add_int-done (weight l) (weight x) (omega arith),
        )
        (ends (record {
          search = ((sl, sx), (sy, sr));
          weighted =
              (omega arith, omega arith, (refl, omega arith, wl, wx), (refl, omega arith, wy, wr));
          same = λ q.
              regroup_inner_left q _ _ _ _ k n k' (lt_of_IsSearch k n x sx)
                (lt_of_IsSearch n k' y sy);
          total = omega arith;
        }))

  double_left-Rebalanced :
      w' ≡ i + weight r
      → w ≡ weight l + w'
      → IsEven i (weight r)
      → IsNear (weight l) w'
      → 125 * weight l ≤ 36 * w
      → 1000 * weight r ≤ 293 * w
      → w < int_bound
      → Ends
          (Rebalanced a b k l (node k' w' (node n i x y) r))
          (double_left k w l (node k' w' (node n i x y) r))
  unfolding lookup double_left
  double_left-Rebalanced e e' even near light heavy room =
      rw
        (
          add_int-done (weight y) (weight r) (omega arith),
          add_int-done (weight l) (weight x) (omega arith),
        )
        (ends (record {
          search = ((sl, sx), (sy, sr));
          weighted =
              (omega arith, omega arith, (refl, omega arith, wl, wx), (refl, omega arith, wy, wr));
          same = λ q.
              regroup_inner_right q _ _ _ _ k n k' (lt_of_IsSearch k n x sx)
                (lt_of_IsSearch n k' y sy);
          total = omega arith;
        }))

module _ (light heavy : ℕ → ℕ → Bool) (c : Compares light heavy) (a b k w : ℕ) where
  lighter_right-Rebalanced :
      (l r : Tree ℕ)
      → IsSearch a k l
      → IsSearch k b r
      → IsWeighted l
      → IsWeighted r
      → w ≡ weight l + weight r
      → IsNear (weight l) (weight r)
      → 125 * weight r ≤ 36 * w
      → w < int_bound
      → Ends (Rebalanced a b k l r) (lighter_right light heavy k w l r)
  unfolding lighter_right
  lighter_right-Rebalanced (leaf _ _ _) r sl sr wl wr e near few room = absurd (omega arith)
  lighter_right-Rebalanced (node k' w' l m) r (sl, sm) sr (e', even, wl, wm) wr e near few room =
      elim (Bool-cases (heavy (weight l) w)) [
        | inl h ↦ rw h (
            single_right-Rebalanced a b k' k l m r sl sm sr wl wm wr w w' e' e even near few
              (c.heavy_true _ _ h) room)
        | inr h ↦ rw h (inner k' w' l m sl sm e' even wl wm e near (c.heavy_false _ _ h) room)
      ]
    where
      inner :
          (k' w' : ℕ) (l m : Tree ℕ)
          → IsSearch a k' l
          → IsSearch k' k m
          → w' ≡ weight l + weight m
          → IsEven (weight l) (weight m)
          → IsWeighted l
          → IsWeighted m
          → w ≡ w' + weight r
          → IsNear w' (weight r)
          → 1000 * weight l ≤ 293 * w
          → w < int_bound
          → Ends (Rebalanced a b k (node k' w' l m) r) (double_right k w (node k' w' l m) r)
      inner k' w' l (leaf _ _ _) sl sm e' even wl wm e near h room = absurd (omega arith)
      inner k' w' l (node n i x y) sl (sx, sy) e' even wl (ei, ev, wx, wy) e near h room =
          double_right-Rebalanced a b k' n k l x y r sl sx sy sr wl wx wy wr w w' i ei ev e' e even
            near few h room

  lighter_left-Rebalanced :
      (l r : Tree ℕ)
      → IsSearch a k l
      → IsSearch k b r
      → IsWeighted l
      → IsWeighted r
      → w ≡ weight l + weight r
      → IsNear (weight l) (weight r)
      → 125 * weight l ≤ 36 * w
      → w < int_bound
      → Ends (Rebalanced a b k l r) (lighter_left light heavy k w l r)
  unfolding lighter_left
  lighter_left-Rebalanced l (leaf _ _ _) sl sr wl wr e near few room = absurd (omega arith)
  lighter_left-Rebalanced l (node k' w' m r) sl (sm, sr) wl (e', even, wm, wr) e near few room =
      elim (Bool-cases (heavy (weight r) w)) [
        | inl h ↦ rw h (
            single_left-Rebalanced a b k k' l m r sl sm sr wl wm wr w w' e' e even near few
              (c.heavy_true _ _ h) room)
        | inr h ↦ rw h (inner k' w' m r sm sr e' even wm wr e near (c.heavy_false _ _ h) room)
      ]
    where
      inner :
          (k' w' : ℕ) (m r : Tree ℕ)
          → IsSearch k k' m
          → IsSearch k' b r
          → w' ≡ weight m + weight r
          → IsEven (weight m) (weight r)
          → IsWeighted m
          → IsWeighted r
          → w ≡ weight l + w'
          → IsNear (weight l) w'
          → 1000 * weight r ≤ 293 * w
          → w < int_bound
          → Ends (Rebalanced a b k l (node k' w' m r)) (double_left k w l (node k' w' m r))
      inner k' w' (leaf _ _ _) r sm sr e' even wm wr e near h room = absurd (omega arith)
      inner k' w' (node n i x y) r (sx, sy) sr e' even (ei, ev, wx, wy) wr e near h room =
          double_left-Rebalanced a b k n k' l x y r sl sx sy sr wl wx wy wr w w' i ei ev e' e even
            near few h room

-- Where a subtree has gained or lost a leaf.
pub rebalance-Rebalanced :
    (light heavy : ℕ → ℕ → Bool) (c : Compares light heavy) (a b k w : ℕ) (l r : Tree ℕ)
    → IsSearch a k l
    → IsSearch k b r
    → IsWeighted l
    → IsWeighted r
    → IsNear (weight l) (weight r)
    → weight l + weight r < int_bound
    → Ends (Rebalanced a b k l r) (rebalance light heavy (node k w l r))
unfolding rebalance lookup
rebalance-Rebalanced light heavy c a b k w l r sl sr wl wr near room =
    let w' : ℕ = weight l + weight r in
    rw (add_int-done (weight l) (weight r) room) (elim (Bool-cases (light (weight r) w')) [
      | inl e ↦ rw e (
          lighter_right-Rebalanced light heavy c a b k w' l r sl sr wl wr refl near
            (c.light_true _ _ e) room)
      | inr e ↦ rw e (elim (Bool-cases (light (weight l) w')) [
        | inl e' ↦ rw e' (
            lighter_left-Rebalanced light heavy c a b k w' l r sl sr wl wr refl near
              (c.light_true _ _ e') room)
        | inr e' ↦
            let even : IsEven (weight l) (weight r) =
              (c.light_false _ _ e', c.light_false _ _ e, omega arith, omega arith) in
            rw e' (
              ends (record {
                search = (sl, sr);
                weighted = (refl, even, wl, wr);
                same = λ q. refl;
                total = refl;
              }))
      ])
    ])
