-- ===== src/Books/WeightBalanced/Insert.antt =====
-- `find` and `insert` of w_bl_tree.c.
use c_lang_project.Books.WeightBalanced.Bounds.{room_on_way}
use c_lang_project.Lang.Memory.{null}
use c_lang_project.Common.Int.{negsuc, ℤ, pos, int_bound}
use c_lang_project.Books.SearchTree.Split.{lookup-plug-split, split-IsSearch}
use c_lang_project.Books.WeightBalanced.{find, insert, insert_found, rebuild, weight}
use c_lang_project.DataStructs.ListRep.{Object}
use c_lang_project.Books.SearchTree.{
  Found, Frame, IsSearch, Tree, descend, descend-lookup, is_empty, is_empty-IsSearch, leaf, lookup,
  lookup-is_empty, max_key, node, plug, split, leaves,
}
use c_lang_project.Books.WeightBalanced.Rebuild.{
  Fits, Rebuilt, plug-Fits, rebuild-Rebuilt, weight-leaves, weight-plug, top,
}
use c_lang_project.Books.WeightBalanced.Balance.{Compares, IsWeighted}
use c_lang_project.Common.{
  ◌<◌, ◌==◌, ==-false, ==-true, Bool, Bool-cases, List, [], arith, if◌then◌else◌, inl, inr, ltb,
  refl, subst, sym, true, ℕ, ◌∙◌, ◌≡◌, ◌≢◌, ◌≤◌, ◌⊎◌, ◌+◌,
}
use native.Mathlib.Decide.{ℕ_discrete}
use c_lang_project.Books.SearchTree.Paths.{
  here, Reached, Way, descend-Reached, lookup-plug_inside, plug-IsSearch,
}
use c_lang_project.Lang.Result.{Ends, Ends-bind, ends}

-- A tree for distinct `int` keys, whose weights are ints: a search tree in balance, or the empty
-- tree.
abbrev pub IsWeightBalanced : Tree ℕ → Type 0
IsWeightBalanced t =
    (is_empty t ≡ true) ⊎ (IsSearch 0 max_key t × IsWeighted t × (weight t < int_bound))

pub find-lookup : (t : Tree ℕ) (q : ℕ) → find t q ≡ lookup t q
unfolding find lookup
find-lookup (leaf k h o) q = ground arith
find-lookup (node k h l r) q = descend-lookup q (node k h l r) []

pub info-one :
    (k : ℕ) (t : Tree ℕ) (f : Found ℕ) → Reached 0 max_key k t f → IsWeighted t → f.info ≡ 1
info-one k t f r b =
    (plug-Fits f.path (leaf f.key f.info f.object) (subst IsWeighted (sym r.whole) b)).0

pub whole_tree :
    (k : ℕ) (t : Tree ℕ) (f : Found ℕ)
    → Reached 0 max_key k t f
    → IsWeighted t
    → plug f.path (leaf f.key 1 f.object) ≡ t
whole_tree k t f r b =
    subst (λ i. plug f.path (leaf f.key i f.object) ≡ t) (info-one k t f r b) r.whole

-- What `insert` answers and leaves.
abbrev pub Inserted : Tree ℕ → ℕ → Object → Tree ℕ × ℤ → Type 0
Inserted t k o (t', answer) =
    IsWeightBalanced t'
    × ((find t k ≡ null)
        → (answer ≡ pos 0) × ((q : ℕ) → q < max_key → find t' q ≡ (if k == q then o else find t q)))
    × ((find t k ≢ null) → (answer ≡ negsuc 0) × (t' ≡ t))

split-IsWeighted :
    (key k : ℕ) (object o : Object)
    → IsWeighted (split 2 1 1 key object k o) × (weight (split 2 1 1 key object k o) ≡ 2)
split-IsWeighted key k object o = elim (Bool-cases (ltb key k)) [
  | inl c ↦ rw c (omega arith, refl)
  | inr c ↦ rw c (omega arith, refl)
]

module _ (light heavy : ℕ → ℕ → Bool) (c : Compares light heavy) where
  -- The loop that rebalances, above the node that the leaf becomes.
  rebuild-split-Rebuilt :
      (key k : ℕ) (object o : Object) (fs : List (Frame ℕ)) (a b : ℕ)
      → Way 0 max_key fs a b
      → Fits fs 1
      → IsSearch {I = ℕ} a b (leaf key 1 object)
      → a ≤ k
      → k < b
      → ¬ (key ≡ k)
      → o ≢ null
      → top fs 1 + 1 < int_bound
      → Ends
          (Rebuilt light heavy c 0 max_key (plug fs (split 2 1 1 key object k o)))
          (rebuild light heavy fs (split 2 1 1 key object k o))
  rebuild-split-Rebuilt key k object o fs a b p fits s l h ne some_new room =
      let (bal, one) = split-IsWeighted key k object o in
      rebuild-Rebuilt light heavy c 0 max_key fs (split 2 1 1 key object k o) 1 p fits
        (split-IsSearch {I = ℕ} 2 1 1 key k object o a b s l h ne some_new) bal (omega (arith, one))
        (omega arith) (omega (arith, one))

  module _ (k : ℕ) (o : Object) (fs : List (Frame ℕ)) (a b key : ℕ) (object : Object)
      (p : Way 0 max_key fs a b) (l : a ≤ k) (h : k < b)
      (s : IsSearch {I = ℕ} a b (leaf key 1 object)) where
    abbrev before : Tree ℕ
    before = plug fs (leaf key 1 object)

    find-before : find before k ≡ (if key == k then object else null)
    unfolding lookup
    find-before = find-lookup before k ∙ lookup-plug_inside 0 max_key (leaf key 1 object) k p l h

    find-after :
        (t' : Tree ℕ) (q : ℕ)
        → Rebuilt light heavy c 0 max_key (plug fs (split 2 1 1 key object k o)) t'
        → ¬ (key ≡ k)
        → q < max_key
        → find t' q ≡ (if k == q then o else find before q)
    unfolding lookup
    find-after t' q r ne small =
        rw (find-lookup t' q, find-lookup before q, r.same q (omega arith) small)
          (lookup-plug-split 2 1 1 key k object o 1 0 max_key p l h ne q (omega arith) small)

    insert_found-Inserted :
        IsWeighted before
        → o ≢ null
        → weight before + 1 < int_bound
        → Ends (Inserted before k o) (insert_found light heavy true before k o fs key object)
    unfolding insert_found
    insert_found-Inserted bal some_new room =
        let whole = weight-plug fs (leaf key 1 object) in
        let search = plug-IsSearch 0 max_key (leaf key 1 object) p s in
        rw (room_on_way fs (leaf key 1 object) search bal) (elim (ℕ_discrete key k) [
          | yes e ↦ rw (==-true _ _ e) (
              ends (
                inr (search, bal, omega arith),
                (λ z. absurd (s.2 (sym (find-before ∙ rw (==-true key k e)) ∙ z))),
                λ _. (refl, refl),
              ))
          | no ne ↦ rw (==-false _ _ ne) (
              Ends-bind
                (rebuild-split-Rebuilt key k object o fs a b p
                  (plug-Fits fs (leaf key 1 object) bal).1 s l h ne some_new (omega arith))
                λ t' r. ends (
                  inr (r.search, r.weighted, r.small),
                  (λ _. (refl, λ q small. find-after t' q r ne small)),
                  λ found. absurd (found (find-before ∙ rw (==-false key k ne))),
                ))
        ])

  -- insert of w_bl_tree.c, where the comparisons with ALPHA and EPSILON are exact but for ties,
  -- with a key that is an int and an object that is not NULL, with get_node succeeding, into a
  -- search tree in balance or the empty tree, with fewer than INT_MAX leaves, ends without
  -- undefined behaviour, so that no weight overflows, in such a tree, in which again every node
  -- has the number of its leaves, an int, as its weight and no child below 0.288 of it: if find
  -- did not find the key, insert answers 0 and find then finds the new object at the key and the
  -- old ones at every other key; if it did, insert answers -1 and changes nothing.
  pub insert-IsWeightBalanced :
      (t : Tree ℕ) (k : ℕ) (o : Object)
      → IsWeightBalanced t
      → k < max_key
      → o ≢ null
      → leaves t + 1 < int_bound
      → Ends (Inserted t k o) (insert light heavy true t k o)
  unfolding insert lookup
  insert-IsWeightBalanced t k o (inl e) small some_new room = rw e (
      ends (
        inr ((omega arith, small, some_new), refl, omega arith),
        (λ _.
            (refl, λ q _. rw (find-lookup (leaf k 1 o) q, find-lookup t q, lookup-is_empty t q e))),
        λ found. absurd (found (find-lookup t k ∙ lookup-is_empty t k e)),
      ))
  insert-IsWeightBalanced t k o (inr (s, b, _)) small some_new room =
      rw (is_empty-IsSearch 0 max_key t s)
        (reached (descend k t []) (descend-Reached 0 max_key k t [] here s (omega arith) small))
    where
      reached :
          (f : Found ℕ)
          → Reached 0 max_key k t f
          → Ends (Inserted t k o) (insert_found light heavy true t k o f.path f.key f.object)
      reached f r =
          let e = whole_tree k t f r b in
          subst
            (λ u. Ends (Inserted u k o) (insert_found light heavy true u k o f.path f.key f.object))
            e
            (insert_found-Inserted k o f.path r.low r.high f.key f.object r.way r.after r.before
              r.there (subst IsWeighted (sym e) b) some_new
              (subst (λ u. weight u + 1 < int_bound) (sym e) (omega (arith, weight-leaves t b))))
