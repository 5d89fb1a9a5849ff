-- ===== src/Books/HeightBalanced/Insert.antt =====
-- `find` and `insert` of h_bl_tree.c.
use c_lang_project.Books.SearchTree.Split.{lookup-plug-split, split-IsSearch}
use native.Mathlib.Decide.{ℕ_discrete}
use c_lang_project.Lang.Memory.{null}
use c_lang_project.Common.Int.{negsuc, ℤ, pos}
use c_lang_project.Books.HeightBalanced.Rebuild.{
  length-le-height, plug-Fits, Rebuilt, rebuild-Rebuilt, Fits,
}
use c_lang_project.Books.HeightBalanced.Bounds.{height-lt}
use c_lang_project.Books.HeightBalanced.{
  find, insert_found, path_room, height, split, insert, rebuild,
}
use c_lang_project.Books.SearchTree.Paths.{
  here, Way, lookup-plug_inside, plug-IsSearch, Reached, descend-Reached,
}
use c_lang_project.DataStructs.ListRep.{Object}
use c_lang_project.Books.HeightBalanced.Balance.{IsBalanced}
use c_lang_project.Books.SearchTree.{
  Frame, IsSearch, Tree, is_empty, leaf, lookup, max_key, plug, descend-lookup, node, Found,
  descend, is_empty-IsSearch, lookup-is_empty,
}
use c_lang_project.Lang.Result.{Ends, ends, Ends-bind}
use c_lang_project.Common.{
  ◌<◌, ◌==◌, ==-false, ==-true, List, arith, false, if◌then◌else◌, inr, length, le→ltb, ltb, refl,
  true, ℕ, ◌∙◌, ◌≡◌, ◌≢◌, ◌≤◌, ◌⊎◌, [], inl, sym, subst, Bool-cases,
}

-- A tree for distinct `int` keys: a search tree in balance, or the empty tree.
abbrev pub IsHeightBalanced : Tree ℕ → Type 0
IsHeightBalanced t = (is_empty t ≡ true) ⊎ (IsSearch 0 max_key t × IsBalanced t)

pub find-lookup : (t : Tree ℕ) (q : ℕ) → find t q ≡ lookup t q
unfolding find lookup
find-lookup (leaf k h o) q = ground arith
find-lookup (node k h l r) q = descend-lookup q (node k h l r) []

-- The way to a leaf of a balanced tree fits in `path_stack`.
pub room_on_way :
    (fs : List (Frame ℕ)) (t : Tree ℕ)
    → IsSearch 0 max_key (plug fs t)
    → IsBalanced (plug fs t)
    → ltb path_room (length fs) ≡ false
room_on_way fs t s b =
    le→ltb _ _
      (omega (arith, length-le-height fs t (plug-Fits fs t b).1, height-lt (plug fs t) s b))

pub info-zero :
    (k : ℕ) (t : Tree ℕ) (f : Found ℕ) → Reached 0 max_key k t f → IsBalanced t → f.info ≡ 0
info-zero k t f r b =
    (plug-Fits f.path (leaf f.key f.info f.object) (subst IsBalanced (sym r.whole) b)).0

pub whole_tree :
    (k : ℕ) (t : Tree ℕ) (f : Found ℕ)
    → Reached 0 max_key k t f
    → IsBalanced t
    → plug f.path (leaf f.key 0 f.object) ≡ t
whole_tree k t f r b =
    subst (λ i. plug f.path (leaf f.key i f.object) ≡ t) (info-zero k t f r b) r.whole

-- What `insert` answers and leaves.
abbrev pub Inserted : Tree ℕ → ℕ → Object → Tree ℕ × ℤ → Type 0
Inserted t k o (t', answer) =
    IsHeightBalanced t'
    × ((find t k ≡ null)
        → (answer ≡ pos 0) × ((q : ℕ) → q < max_key → find t' q ≡ (if k == q then o else find t q)))
    × ((find t k ≢ null) → (answer ≡ negsuc 0) × (t' ≡ t))

split-IsBalanced :
    (key k : ℕ) (object o : Object)
    → IsBalanced (split 1 0 0 key object k o) × (height (split 1 0 0 key object k o) ≡ 1)
split-IsBalanced key k object o = elim (Bool-cases (ltb key k)) [
  | inl c ↦ rw c (omega arith, refl)
  | inr c ↦ rw c (omega arith, refl)
]

-- The loop that rebalances, above the node that the leaf becomes.
rebuild-split-Rebuilt :
    (key k : ℕ) (object o : Object) (fs : List (Frame ℕ)) (a b : ℕ)
    → Way 0 max_key fs a b
    → Fits fs 0
    → IsSearch {I = ℕ} a b (leaf key 0 object)
    → a ≤ k
    → k < b
    → ¬ (key ≡ k)
    → o ≢ null
    → Ends
        (Rebuilt 0 max_key (plug fs (split 1 0 0 key object k o)))
        (rebuild fs (split 1 0 0 key object k o))
rebuild-split-Rebuilt key k object o fs a b p fits s l h ne some_new =
    let (bal, one) = split-IsBalanced key k object o in
    rebuild-Rebuilt 0 max_key fs (split 1 0 0 key object k o) 0 p fits
      (split-IsSearch {I = ℕ} 1 0 0 key k object o a b s l h ne some_new) bal (omega (arith, one))
      (omega arith)

module _ (k : ℕ) (o : Object) (fs : List (Frame ℕ)) (a b key : ℕ) (object : Object)
    (p : Way 0 max_key fs a b) (l : a ≤ k) (h : k < b)
    (s : IsSearch {I = ℕ} a b (leaf key 0 object)) where
  abbrev before : Tree ℕ
  before = plug fs (leaf key 0 object)

  find-before : find before k ≡ (if key == k then object else null)
  unfolding lookup
  find-before = find-lookup before k ∙ lookup-plug_inside 0 max_key (leaf key 0 object) k p l h

  find-after :
      (t' : Tree ℕ) (q : ℕ)
      → Rebuilt 0 max_key (plug fs (split 1 0 0 key object k o)) t'
      → ¬ (key ≡ k)
      → q < max_key
      → find t' q ≡ (if k == q then o else find before q)
  unfolding lookup
  find-after t' q r ne small =
      rw (find-lookup t' q, find-lookup before q, r.same q (omega arith) small)
        (lookup-plug-split 1 0 0 key k object o 0 0 max_key p l h ne q (omega arith) small)

  insert_found-Inserted :
      IsBalanced before
      → o ≢ null
      → Ends (Inserted before k o) (insert_found true before k o fs key object)
  unfolding insert_found
  insert_found-Inserted bal some_new =
      let search = plug-IsSearch 0 max_key (leaf key 0 object) p s in
      rw (room_on_way fs (leaf key 0 object) search bal) (elim (ℕ_discrete key k) [
        | yes e ↦ rw (==-true _ _ e) (
            ends (
              inr (search, bal),
              (λ z. absurd (s.2 (sym (find-before ∙ rw (==-true key k e)) ∙ z))),
              λ _. (refl, refl),
            ))
        | no ne ↦
            let s' : IsSearch a b (split 1 0 0 key object k o) =
              split-IsSearch {I = ℕ} 1 0 0 key k object o a b s l h ne some_new in
            rw (==-false _ _ ne) (
              Ends-bind
                (rebuild-split-Rebuilt key k object o fs a b p
                  (plug-Fits fs (leaf key 0 object) bal).1 s l h ne some_new)
                λ t' r. ends (
                  inr (r.search, r.balanced),
                  (λ _. (refl, λ q small. find-after t' q r ne small)),
                  λ found. absurd (found (find-before ∙ rw (==-false key k ne))),
                ))
      ])

-- insert of h_bl_tree.c, with a key that is an int and an object that is not NULL, with get_node
-- succeeding, into a search tree in balance or the empty tree, ends without undefined behaviour in
-- such a tree: if find did not find the key, insert answers 0 and find then finds the new object
-- at the key and the old ones at every other key; if it did, insert answers -1 and changes
-- nothing.
pub insert-IsHeightBalanced :
    (t : Tree ℕ) (k : ℕ) (o : Object)
    → IsHeightBalanced t
    → k < max_key
    → o ≢ null
    → Ends (Inserted t k o) (insert true t k o)
unfolding insert lookup
insert-IsHeightBalanced t k o (inl e) small some_new = rw e (
    ends (
      inr ((omega arith, small, some_new), refl),
      (λ _. (refl, λ q _. rw (find-lookup (leaf k 0 o) q, find-lookup t q, lookup-is_empty t q e))),
      λ found. absurd (found (find-lookup t k ∙ lookup-is_empty t k e)),
    ))
insert-IsHeightBalanced t k o (inr (s, b)) small some_new =
    rw (is_empty-IsSearch 0 max_key t s)
      (reached (descend k t []) (descend-Reached 0 max_key k t [] here s (omega arith) small))
  where
    reached :
        (f : Found ℕ)
        → Reached 0 max_key k t f
        → Ends (Inserted t k o) (insert_found true t k o f.path f.key f.object)
    reached f r =
        let e = whole_tree k t f r b in
        subst (λ u. Ends (Inserted u k o) (insert_found true u k o f.path f.key f.object)) e
          (insert_found-Inserted k o f.path r.low r.high f.key f.object r.way r.after r.before
            r.there (subst IsBalanced (sym e) b) some_new)
