-- ===== src/Books/HeightBalanced/Balance.antt =====
-- Balance of h_bl_tree.c: what it is, and that it is restored at one node.
use c_lang_project.Books.SearchTree.Regroup.{regroup, regroup_inner_left, regroup_inner_right}
use native.Mathlib.Decide.{ℕ_discrete}
use c_lang_project.Books.HeightBalanced.{
  double_left, double_right, height, single_left, single_right, lower_left, lower_right, rebalance,
}
use c_lang_project.Books.SearchTree.{IsSearch, Tree, leaf, lookup, node, lt_of_IsSearch}
use c_lang_project.Lang.Result.{Ends, ends}
use c_lang_project.Common.{
  ◌+◌, ◌<◌, arith, if◌then◌else◌, inl, inr, ltb, sym, ℕ, ◌≡◌, ◌≤◌, ◌⊎◌, ◌==◌, false, refl, true,
  ==-false, ==-true,
}

-- A node of height `h` over subtrees of heights `a` and `b`, which differ by one at most.
abbrev pub IsLevel : ℕ → ℕ → ℕ → Type 0
IsLevel h a b = (a < h) × (b < h) × (h ≤ a + 2) × (h ≤ b + 2) × ((h ≡ a + 1) ⊎ (h ≡ b + 1))

abbrev pub IsBalanced : Tree ℕ → Type 0
IsBalanced (leaf k h o) = h ≡ 0
IsBalanced (node k h l r) = IsLevel h (height l) (height r) × IsBalanced l × IsBalanced r

-- A search tree in balance for [a, b), with the same objects as a node over `l` and `r`, which is
-- not much higher than they are.
pub record Rebalanced (a b k : ℕ) (l r : Tree ℕ) (t : Tree ℕ) : Type 0 where
  pub search : IsSearch a b t
  pub balanced : IsBalanced t
  pub same : (q : ℕ) → lookup t q ≡ (if ltb q k then lookup l q else lookup r q)
  pub above : (height l ≤ height t) × (height r ≤ height t)
  pub below : (height t ≤ height l + 1) ⊎ (height t ≤ height r + 1)
  pub steady :
      IsLevel (height t) (height l) (height r)
      ⊎ (height l ≡ height r + 2)
      ⊎ (height r ≡ height l + 2)

higher-IsLevel : (a b : ℕ) → a ≤ b + 1 → b ≤ a + 1 → IsLevel (if ltb b a then a + 1 else b + 1) a b
higher-IsLevel a b p q = ground arith

module _ (a b k k' : ℕ) (l m r : Tree ℕ) (sl : IsSearch a k l) (sm : IsSearch k k' m)
    (sr : IsSearch k' b r) (bl : IsBalanced l) (bm : IsBalanced m) (br : IsBalanced r)
    (h h' : ℕ) where
  single_right-Rebalanced :
      IsLevel h' (height l) (height m)
      → height l ≡ height r + 1
      → h' ≡ height r + 2
      → Ends (Rebalanced a b k' (node k h' l m) r) (single_right (node k' h (node k h' l m) r))
  unfolding lookup single_right
  single_right-Rebalanced level e e' = ends (record {
    search = (sl, (sm, sr));
    balanced = (omega arith, bl, (omega arith, bm, br));
    same = λ q. regroup q _ _ _ k k' (lt_of_IsSearch k k' m sm);
    above = omega arith;
    below = omega arith;
    steady = inr (inl e');
  })

  single_left-Rebalanced :
      IsLevel h' (height m) (height r)
      → height r ≡ height l + 1
      → h' ≡ height l + 2
      → Ends (Rebalanced a b k l (node k' h' m r)) (single_left (node k h l (node k' h' m r)))
  unfolding lookup single_left
  single_left-Rebalanced level e e' = ends (record {
    search = ((sl, sm), sr);
    balanced = (omega arith, (omega arith, bl, bm), br);
    same = λ q. sym (regroup q _ _ _ k k' (lt_of_IsSearch k k' m sm));
    above = omega arith;
    below = omega arith;
    steady = inr (inr e');
  })

module _ (a b k n k' : ℕ) (l x y r : Tree ℕ) (sl : IsSearch a k l) (sx : IsSearch k n x)
    (sy : IsSearch n k' y) (sr : IsSearch k' b r) (bl : IsBalanced l) (bx : IsBalanced x)
    (by : IsBalanced y) (br : IsBalanced r) (h h' i : ℕ)
    (level : IsLevel i (height x) (height y)) where
  double_right-Rebalanced :
      height l ≡ height r
      → i ≡ height r + 1
      → h' ≡ height r + 2
      → Ends
          (Rebalanced a b k' (node k h' l (node n i x y)) r)
          (double_right k' h (node k h' l (node n i x y)) r)
  unfolding lookup double_right
  double_right-Rebalanced e ei e' = ends (record {
    search = ((sl, sx), (sy, sr));
    balanced = (omega arith, (omega arith, bl, bx), (omega arith, by, br));
    same = λ q.
        regroup_inner_left q _ _ _ _ k n k' (lt_of_IsSearch k n x sx) (lt_of_IsSearch n k' y sy);
    above = omega arith;
    below = omega arith;
    steady = inr (inl e');
  })

  double_left-Rebalanced :
      height r ≡ height l
      → i ≡ height l + 1
      → h' ≡ height l + 2
      → Ends
          (Rebalanced a b k l (node k' h' (node n i x y) r))
          (double_left k h l (node k' h' (node n i x y) r))
  unfolding lookup double_left
  double_left-Rebalanced e ei e' = ends (record {
    search = ((sl, sx), (sy, sr));
    balanced = (omega arith, (omega arith, bl, bx), (omega arith, by, br));
    same = λ q.
        regroup_inner_right q _ _ _ _ k n k' (lt_of_IsSearch k n x sx) (lt_of_IsSearch n k' y sy);
    above = omega arith;
    below = omega arith;
    steady = inr (inr e');
  })

module _ (a b k h : ℕ) where
  lower_left-Rebalanced :
      (l r : Tree ℕ)
      → IsSearch a k l
      → IsSearch k b r
      → IsBalanced l
      → IsBalanced r
      → height l ≡ height r + 2
      → Ends (Rebalanced a b k l r) (lower_left k h l r)
  unfolding lower_left
  lower_left-Rebalanced (leaf _ _ _) r sl sr bl br e = absurd (omega arith)
  lower_left-Rebalanced (node k' h' l m) r (sl, sm) sr (level, bl, bm) br e =
      elim (ℕ_discrete (height l) (height r + 1)) [
        | yes single ↦
            let test : (height l == height r + 1) ≡ true = ==-true _ _ (omega arith) in
            rw test (single_right-Rebalanced a b k' k l m r sl sm sr bl bm br h h' level single e)
        | no double ↦
            let test : (height l == height r + 1) ≡ false = ==-false _ _ (omega arith) in
            rw test (inner k' h' l m sl sm level bl bm (omega arith) (omega arith))
      ]
    where
      inner :
          (k' h' : ℕ) (l m : Tree ℕ)
          → IsSearch a k' l
          → IsSearch k' k m
          → IsLevel h' (height l) (height m)
          → IsBalanced l
          → IsBalanced m
          → height l ≡ height r
          → height m ≡ height r + 1
          → Ends (Rebalanced a b k (node k' h' l m) r) (double_right k h (node k' h' l m) r)
      inner k' h' l (leaf _ _ _) sl sm level bl bm el em = absurd (omega arith)
      inner k' h' l (node n i x y) sl (sx, sy) level bl (level', bx, by) el em =
          double_right-Rebalanced a b k' n k l x y r sl sx sy sr bl bx by br h h' i level' el em
            (omega arith)

  lower_right-Rebalanced :
      (l r : Tree ℕ)
      → IsSearch a k l
      → IsSearch k b r
      → IsBalanced l
      → IsBalanced r
      → height r ≡ height l + 2
      → Ends (Rebalanced a b k l r) (lower_right k h l r)
  unfolding lower_right
  lower_right-Rebalanced l (leaf _ _ _) sl sr bl br e = absurd (omega arith)
  lower_right-Rebalanced l (node k' h' m r) sl (sm, sr) bl (level, bm, br) e =
      elim (ℕ_discrete (height r) (height l + 1)) [
        | yes single ↦
            let test : (height r == height l + 1) ≡ true = ==-true _ _ (omega arith) in
            rw test (single_left-Rebalanced a b k k' l m r sl sm sr bl bm br h h' level single e)
        | no double ↦
            let test : (height r == height l + 1) ≡ false = ==-false _ _ (omega arith) in
            rw test (inner k' h' m r sm sr level bm br (omega arith) (omega arith))
      ]
    where
      inner :
          (k' h' : ℕ) (m r : Tree ℕ)
          → IsSearch k k' m
          → IsSearch k' b r
          → IsLevel h' (height m) (height r)
          → IsBalanced m
          → IsBalanced r
          → height r ≡ height l
          → height m ≡ height l + 1
          → Ends (Rebalanced a b k l (node k' h' m r)) (double_left k h l (node k' h' m r))
      inner k' h' (leaf _ _ _) r sm sr level bm br er em = absurd (omega arith)
      inner k' h' (node n i x y) r (sx, sy) sr level (level', bx, by) br er em =
          double_left-Rebalanced a b k n k' l x y r sl sx sy sr bl bx by br h h' i level' er em
            (omega arith)

  -- Where the subtrees differ by two at most.
  pub rebalance-Rebalanced :
      (l r : Tree ℕ)
      → IsSearch a k l
      → IsSearch k b r
      → IsBalanced l
      → IsBalanced r
      → height l ≤ height r + 2
      → height r ≤ height l + 2
      → Ends (Rebalanced a b k l r) (rebalance (node k h l r))
  unfolding rebalance lookup
  rebalance-Rebalanced l r sl sr bl br pl pr = elim (ℕ_discrete (height l) (height r + 2)) [
    | yes e ↦
        let test : (height l == height r + 2) ≡ true = ==-true _ _ (omega arith) in
        rw test (lower_left-Rebalanced l r sl sr bl br e)
    | no nl ↦
        let test : (height l == height r + 2) ≡ false = ==-false _ _ (omega arith) in
        rw test (elim (ℕ_discrete (height r) (height l + 2)) [
          | yes e ↦
              let test' : (height l + 2 == height r) ≡ true = ==-true _ _ (omega arith) in
              rw test' (lower_right-Rebalanced l r sl sr bl br e)
          | no nr ↦
              let test' : (height l + 2 == height r) ≡ false = ==-false _ _ (omega arith) in
              let level = higher-IsLevel (height l) (height r) (omega arith) (omega arith) in
              rw test' (
                ends (record {
                  search = (sl, sr);
                  balanced = (level, bl, br);
                  same = λ q. refl;
                  above = omega (arith, level);
                  below = omega (arith, level);
                  steady = inl level;
                }))
        ])
  ]
