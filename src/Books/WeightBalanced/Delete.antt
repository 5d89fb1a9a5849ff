-- ===== src/Books/WeightBalanced/Delete.antt =====
-- `delete` of w_bl_tree.c.
use c_lang_project.Common.Int.{int_bound}
use c_lang_project.Books.WeightBalanced.Bounds.{room_on_way}
use c_lang_project.Lang.Memory.{null}
use c_lang_project.Books.WeightBalanced.{delete, delete_found, find, rebuild, weight}
use c_lang_project.DataStructs.ListRep.{Object}
use c_lang_project.Books.WeightBalanced.Insert.{IsWeightBalanced, find-lookup, info-one, whole_tree}
use c_lang_project.Books.SearchTree.{
  Found, Frame, IsSearch, IsSearch-widen, Tree, descend, if-absent, leaf, lookup, lookup-outside,
  lt_of_IsSearch, max_key, node, plug, emptied,
}
use c_lang_project.Books.WeightBalanced.Rebuild.{Fits, plug-Fits, rebuild-Rebuilt, weight-plug, top}
use c_lang_project.Books.WeightBalanced.Balance.{Compares, IsWeighted}
use c_lang_project.Common.{
  ◌+◌, ◌<◌, ◌==◌, ==-false, ==-true, Bool, List, [], arith, if◌then◌else◌, inl, inr, le→ltb, lt→ltb,
  refl, subst, sym, ℕ, ◌∙◌, ◌∷◌, ◌≡◌, ◌≤◌,
}
use native.Mathlib.Decide.{ℕ_discrete}
use c_lang_project.Books.SearchTree.Paths.{
  here, left_of, right_of, Reached, Way, descend-Reached, lookup-plug, lookup-plug_inside,
  plug-IsSearch,
}
use c_lang_project.Lang.Result.{◌>>=◌, Ends, Ends-bind, done, ends}

-- What `delete` answers and leaves.
abbrev pub Deleted : Tree ℕ → ℕ → Object × Tree ℕ → Type 0
Deleted t k (out, t') =
    (out ≡ find t k)
    × IsWeightBalanced t'
    × ((q : ℕ) → q < max_key → find t' q ≡ (if k == q then null else find t q))

find-leaf :
    (key h : ℕ) (o : Object) (q : ℕ) → find (leaf key h o) q ≡ (if key == q then o else null)
unfolding lookup
find-leaf key h o q = find-lookup (leaf key h o) q

module _ (light heavy : ℕ → ℕ → Bool) (c : Compares light heavy) where
  -- Before, `full` was at the end of the way, and now `u` is, without the key.
  module _ (fs : List (Frame ℕ)) (a b k h : ℕ) (p : Way {I = ℕ} 0 max_key fs a b) (l : a ≤ k)
      (r : k < b) (fits : Fits fs h) (small_top : top fs h < int_bound) where
    rebuild-Deleted :
        (full u : Tree ℕ) (out : Object)
        → IsSearch a b u
        → IsWeighted u
        → weight u ≤ h
        → h ≤ weight u + 1
        → ((q : ℕ) → lookup u q ≡ (if k == q then null else lookup full q))
        → out ≡ lookup full k
        → Ends (Deleted (plug fs full) k) (rebuild light heavy fs u >>= λ t'. done (out, t'))
    rebuild-Deleted full u out s bal up down same found =
        Ends-bind
          (rebuild-Rebuilt light heavy c 0 max_key fs u h p fits s bal (omega arith) down
            (omega arith))
          λ t' re. ends (
            found ∙ sym (find-lookup (plug fs full) k ∙ lookup-plug_inside 0 max_key full k p l r),
            inr (re.search, re.weighted, re.small),
            λ q small.
                rw (find-lookup t' q, find-lookup (plug fs full) q, re.same q (omega arith) small)
                  (lookup-plug 0 max_key (λ q o o'. o' ≡ (if k == q then null else o)) full u p
                    (λ q out o. rw (==-false k q (ground arith))) (λ q _ _. same q) q (omega arith)
                    small),
          )

    rebuild_test-Deleted :
        (full u : Tree ℕ) (key : ℕ) (o : Object)
        → IsSearch a b full
        → IsSearch a b u
        → IsWeighted full
        → IsWeighted u
        → weight full ≡ h
        → weight u ≤ h
        → h ≤ weight u + 1
        → lookup full k ≡ (if key == k then o else null)
        → (key ≡ k → (q : ℕ) → lookup u q ≡ (if k == q then null else lookup full q))
        → Ends (Deleted (plug fs full) k) (
            if key == k
            then (rebuild light heavy fs u >>= λ t'. done (o, t'))
            else (rebuild light heavy fs full >>= λ t'. done (null, t')))
    rebuild_test-Deleted full u key o s su bal bu e up down at_k same = elim (ℕ_discrete key k) [
      | yes e ↦
          rw (==-true _ _ e)
            (rebuild-Deleted full u o su bu up down (same e) (sym (at_k ∙ rw (==-true _ _ e))))
      | no ne ↦ rw (==-false _ _ ne) (
          let absent : lookup full k ≡ null = at_k ∙ rw (==-false _ _ ne) in
          rebuild-Deleted full full null s bal (omega arith) (omega arith)
            (λ q. if-absent (lookup full) k q absent) (sym absent))
    ]

  module _ (k key : ℕ) (o : Object) (fs : List (Frame ℕ)) where
    delete_found-Deleted :
        (f : Frame ℕ) {a b : ℕ}
        → Way {I = ℕ} 0 max_key (f ∷ fs) a b
        → a ≤ k
        → k < b
        → IsSearch {I = ℕ} a b (leaf key 1 o)
        → IsWeighted (plug (f ∷ fs) (leaf key 1 o))
        → weight (plug (f ∷ fs) (leaf key 1 o)) < int_bound
        → Ends
            (Deleted (plug (f ∷ fs) (leaf key 1 o)) k)
            (delete_found light heavy (f ∷ fs) k key 1 o)
    unfolding delete_found lookup
    delete_found-Deleted f (left_of {a = a} {b = b} {k = k'} {i = i} {r = r} p sr) l h s bal small =
        let t : Tree ℕ = node k' i (leaf key 1 o) r in
        let st : IsSearch a b t = (s, sr) in
        let lt = lt_of_IsSearch k' b r sr in
        let (bt, fits) = plug-Fits fs t bal in
        let whole = weight-plug fs t in
        rw (room_on_way (f ∷ fs) (leaf key 1 o) (plug-IsSearch 0 max_key t p st) bal) (
          rebuild_test-Deleted fs a b k i p l (omega arith) fits (omega arith) t r key o st
            (IsSearch-widen k' b a b r (omega arith) (omega arith) sr) bt bt.3 refl (omega arith)
            (omega arith) (rw (lt→ltb k k' h)) (λ e q. ground (arith, lookup-outside k' b r q sr)))
    delete_found-Deleted f (right_of {a = a} {b = b} {k = k'} {i = i} {l = u} p su) l h s bal
          small =
        let t : Tree ℕ = node k' i u (leaf key 1 o) in
        let st : IsSearch a b t = (su, s) in
        let lt = lt_of_IsSearch a k' u su in
        let (bt, fits) = plug-Fits fs t bal in
        let whole = weight-plug fs t in
        rw (room_on_way (f ∷ fs) (leaf key 1 o) (plug-IsSearch 0 max_key t p st) bal) (
          rebuild_test-Deleted fs a b k i p (omega arith) h fits (omega arith) t u key o st
            (IsSearch-widen a k' a b u (omega arith) (omega arith) su) bt bt.2 refl (omega arith)
            (omega arith) (rw (le→ltb k k' l)) (λ e q. ground (arith, lookup-outside a k' u q su)))

  module _ (k key : ℕ) (o : Object) where
    delete_below-Deleted :
        (fs : List (Frame ℕ)) (a b k' h' : ℕ) (l r : Tree ℕ)
        → Way {I = ℕ} 0 max_key fs a b
        → a ≤ k
        → k < b
        → IsSearch {I = ℕ} a b (leaf key 1 o)
        → plug fs (leaf key 1 o) ≡ node k' h' l r
        → IsWeighted (node k' h' l r)
        → weight (node k' h' l r) < int_bound
        → Ends (Deleted (node k' h' l r) k) (delete_found light heavy fs k key 1 o)
    delete_below-Deleted [] a b k' h' l r p low high s e bal small = cc
    delete_below-Deleted (f ∷ fs) a b k' h' l r p low high s e bal small =
        subst (λ u. Ends (Deleted u k) (delete_found light heavy (f ∷ fs) k key 1 o)) e
          (delete_found-Deleted k key o fs f p low high s (subst IsWeighted (sym e) bal)
            (subst (λ u. weight u < int_bound) (sym e) small))

  delete_leaf-Deleted :
      (key h k : ℕ) (o : Object)
      → IsWeightBalanced (leaf key h o)
      → Ends (Deleted (leaf key h o) k) (delete light heavy (leaf key h o) k)
  unfolding delete
  delete_leaf-Deleted key h k o v = elim (ℕ_discrete o null) [
    | yes e ↦
        let absent : find (leaf key h o) k ≡ null = find-leaf key h o k ∙ ground arith in
        rw (==-true _ _ e) (ends (sym absent, v, λ q _. if-absent (find (leaf key h o)) k q absent))
    | no ne ↦ rw (==-false _ _ ne) (elim (ℕ_discrete key k) [
      | yes e ↦ rw (==-true _ _ e) (
          ends (
            sym (find-leaf key h o k ∙ rw (==-true _ _ e)),
            inl refl,
            λ q _. rw (find-leaf key h null q, find-leaf key h o q) (emptied key k o q e),
          ))
      | no ne' ↦
          let absent : find (leaf key h o) k ≡ null = find-leaf key h o k ∙ rw (==-false _ _ ne') in
          rw (==-false _ _ ne')
            (ends (sym absent, v, λ q _. if-absent (find (leaf key h o)) k q absent))
    ])
  ]

  -- delete of w_bl_tree.c, where the comparisons with ALPHA and EPSILON are exact but for ties,
  -- with a key that is an int, from a search tree in balance, whose weights are ints, or the empty
  -- tree, ends without undefined behaviour in such a tree; it hands out what find found at the
  -- key, and then find finds nothing there and the old object at every other key.
  pub delete-IsWeightBalanced :
      (t : Tree ℕ) (k : ℕ)
      → IsWeightBalanced t
      → k < max_key
      → Ends (Deleted t k) (delete light heavy t k)
  unfolding delete
  delete-IsWeightBalanced (leaf key h o) k v small = delete_leaf-Deleted key h k o v
  delete-IsWeightBalanced (node key h l r) k (inl e) small = cc
  delete-IsWeightBalanced (node key h l r) k (inr (s, b, w)) small =
      let t : Tree ℕ = node key h l r in
      reached (descend k t []) (descend-Reached 0 max_key k t [] here s (omega arith) small)
    where
      reached :
          (f : Found ℕ)
          → Reached 0 max_key k (node key h l r) f
          → Ends
              (Deleted (node key h l r) k)
              (delete_found light heavy f.path k f.key f.info f.object)
      reached f reach = rw (info-one k (node key h l r) f reach b) (
          delete_below-Deleted k f.key f.object f.path reach.low reach.high key h l r reach.way
            reach.after reach.before reach.there (whole_tree k (node key h l r) f reach b) b w)
