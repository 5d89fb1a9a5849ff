-- ===== src/Books/RedBlack/Delete.antt =====
-- `delete` of rb_tree.c, on keys and objects.
use c_lang_project.Books.RedBlack.Bounds.{room_on_way}
use c_lang_project.Books.RedBlack.DeleteKeys.{delete_loop-Moved}
use c_lang_project.Books.RedBlack.Remove.{cut_out, delete, delete_found}
use c_lang_project.Books.SearchTree.Paths.{
  Reached, Way, descend-Reached, lookup-plug_inside, plug-IsSearch, here,
}
use c_lang_project.DataStructs.ListRep.{Object}
use c_lang_project.Books.RedBlack.Keys.{Moved, Moved-paint, Moved-plug, Moved-trans}
use c_lang_project.Books.RedBlack.Insert.{IsRedBlack, find-lookup}
use c_lang_project.Books.SearchTree.{
  Found, Frame, IsSearch, Tree, descend, emptied, if-absent, is_empty, leaf, lookup, max_key, node,
  other, plug, went_left, went_right,
}
use c_lang_project.Books.RedBlack.Shrink.{Fits-IsWide, delete_loop-Ends}
use c_lang_project.Books.RedBlack.Colors.{
  Fits, IsColored, blacks, blacks-pos, frame_blacks, plug-Fits,
}
use c_lang_project.Books.RedBlack.{Color, black, find, frame_black, is_black, paint, same_color}
use c_lang_project.Common.{
  ◌+◌, ◌<◌, ◌==◌, ==-false, ==-true, Bool-cases, List, [], arith, if◌then◌else◌, inl, inr, length,
  ltb, refl, subst, sym, true, ℕ, ◌∙◌, ◌∷◌, ◌≡◌, ◌≤◌, ◌⊎◌,
}
use native.Mathlib.Decide.{ℕ_discrete}
use c_lang_project.Books.SearchTree.Drop.{drop-IsSearch, lookup-drop}
use c_lang_project.Lang.Memory.{null}
use c_lang_project.Lang.Result.{
  Ends, Ends-IfDone, Ends-bind, IfDone, IfDone-if, IfDone-mono, ends, if_done,
}

-- A search tree for distinct `int` keys, or the empty tree, whatever its colors.
abbrev pub IsKeyed : Tree Color → Type 0
IsKeyed t = (is_empty t ≡ true) ⊎ IsSearch 0 max_key t

-- What `delete` answers and leaves.
abbrev pub Deleted : Tree Color → ℕ → Object × Tree Color → Type 0
Deleted t k (out, t') =
    (out ≡ find t k)
    × IsKeyed t'
    × ((q : ℕ) → q < max_key → find t' q ≡ (if k == q then null else find t q))

-- Below two black nodes, or two red ones that the colors exclude, the loop begins.
cut_out-Ends :
    (f : Frame Color) (fs : List (Frame Color)) (t : Tree Color)
    → IsColored (plug (f ∷ fs) t)
    → Ends (λ _. Unit {0}) (cut_out f fs)
unfolding cut_out
cut_out-Ends f fs t c =
    let (_, (e, co, bs, fits)) = plug-Fits (f ∷ fs) t c in
    elim (Bool-cases (frame_black f)) [
      | inl top ↦ elim (Bool-cases (is_black (other f))) [
        | inl b ↦
            rw (top, b)
              (delete_loop-Ends fs (paint black (other f)) (
                Fits-IsWide fs true (blacks t + 1) (omega (arith, blacks-pos (other f) co b))
                  (subst (λ c. Fits fs c (frame_blacks c (blacks t))) top fits)))
        | inr b ↦ rw (top, b) (ends tt)
      ]
      | inr top ↦ rw (top, (bs top).1) (ends tt)
    ]

cut_out-Moved :
    (f : Frame Color) (fs : List (Frame Color)) → IfDone (Moved (plug fs (other f))) (cut_out f fs)
unfolding cut_out
cut_out-Moved f fs =
    let painted_other = Moved-plug fs (Moved-paint black (other f)) in
    IfDone-if (same_color (frame_black f) (is_black (other f)))
      (IfDone-mono (delete_loop-Moved fs (paint black (other f)))
        λ u m. Moved-trans painted_other m)
      (if_done painted_other)

module _ (k key : ℕ) (c : Color) (o : Object) (f : Frame Color) (fs : List (Frame Color)) (a b : ℕ)
    (p : Way 0 max_key (f ∷ fs) a b) (low : a ≤ k) (high : k < b)
    (s : IsSearch a b (leaf key c o)) where
  abbrev before : Tree Color
  before = plug (f ∷ fs) (leaf key c o)

  find-before : find before k ≡ (if key == k then o else null)
  unfolding lookup
  find-before = find-lookup before k ∙ lookup-plug_inside 0 max_key (leaf key c o) k p low high

  cut_out-Deleted :
      (t' : Tree Color) → key ≡ k → Moved (plug fs (other f)) t' → Deleted before k (o, t')
  cut_out-Deleted t' e m =
      let search = drop-IsSearch key c o 0 max_key f p s in
      (
        sym (find-before ∙ rw (==-true _ _ e)),
        inr (m.search 0 max_key search),
        λ q small.
            rw (find-lookup t' q, find-lookup before q, m.same 0 max_key search q)
              (subst
                (λ j. lookup (plug fs (other f)) q ≡ (if j == q then null else lookup before q)) e
                (lookup-drop key c o 0 max_key f p s q (omega arith) small)),
      )

  delete_found-Deleted :
      IsColored before → Ends (Deleted before k) (delete_found before (f ∷ fs) k key o)
  unfolding delete_found
  delete_found-Deleted col =
      let search = plug-IsSearch 0 max_key (leaf key c o) p s in
      rw (room_on_way (f ∷ fs) (leaf key c o) search col) (elim (ℕ_discrete key k) [
        | yes e ↦ rw (==-true _ _ e) (
            Ends-bind (Ends-IfDone (cut_out-Ends f fs (leaf key c o) col) (cut_out-Moved f fs))
              λ t' (_, m). ends (cut_out-Deleted t' e m))
        | no ne ↦
            let absent : find before k ≡ null = find-before ∙ rw (==-false _ _ ne) in
            rw (==-false _ _ ne)
              (ends (sym absent, inr search, λ q _. if-absent (find before) k q absent))
      ])

find-leaf :
    (key : ℕ) (c : Color) (o : Object) (q : ℕ)
    → find (leaf key c o) q ≡ (if key == q then o else null)
unfolding lookup
find-leaf key c o q = find-lookup (leaf key c o) q

delete_leaf-Deleted :
    (key : ℕ) (c : Color) (k : ℕ) (o : Object)
    → IsKeyed (leaf key c o)
    → Ends (Deleted (leaf key c o) k) (delete (leaf key c o) k)
unfolding delete
delete_leaf-Deleted key c k o v = elim (ℕ_discrete o null) [
  | yes e ↦
      let absent : find (leaf key c o) k ≡ null = find-leaf key c o k ∙ ground arith in
      rw (==-true _ _ e) (ends (sym absent, v, λ q _. if-absent (find (leaf key c o)) k q absent))
  | no ne ↦ rw (==-false _ _ ne) (elim (ℕ_discrete key k) [
    | yes e ↦ rw (==-true _ _ e) (
        ends (
          sym (find-leaf key c o k ∙ rw (==-true _ _ e)),
          inl refl,
          λ q _. rw (find-leaf key c null q, find-leaf key c o q) (emptied key k o q e),
        ))
    | no ne' ↦
        let absent : find (leaf key c o) k ≡ null = find-leaf key c o k ∙ rw (==-false _ _ ne') in
        rw (==-false _ _ ne')
          (ends (sym absent, v, λ q _. if-absent (find (leaf key c o)) k q absent))
  ])
]

module _ (t : Tree Color) (k : ℕ) (f : Found Color) (reach : Reached 0 max_key k t f)
    (col : IsColored t) where
  delete_reached-Deleted :
      (fs : List (Frame Color))
      → f.path ≡ fs
      → 1 ≤ length fs
      → Ends (Deleted t k) (delete_found t f.path k f.key f.object)
  delete_reached-Deleted [] e some_node = absurd (omega arith)
  delete_reached-Deleted (g ∷ gs) e some_node =
      let whole : plug (g ∷ gs) (leaf f.key f.info f.object) ≡ t =
        subst (λ fs. plug fs (leaf f.key f.info f.object) ≡ t) e reach.whole in
      rw e (
        subst (λ u. Ends (Deleted u k) (delete_found u (g ∷ gs) k f.key f.object)) whole
          (delete_found-Deleted k f.key f.info f.object g gs reach.low reach.high
            (subst (λ fs. Way 0 max_key fs reach.low reach.high) e reach.way) reach.after
            reach.before reach.there (subst IsColored (sym whole) col)))

descend-length :
    (q : ℕ) (t : Tree Color) (fs : List (Frame Color)) → length fs ≤ length (descend q t fs).path
unfolding descend
descend-length q (leaf k c o) fs = omega arith
descend-length q (node k c l r) fs = elim (Bool-cases (ltb q k)) [
  | inl b ↦ rw b (omega (arith, descend-length q l (went_left k c r ∷ fs)))
  | inr b ↦ rw b (omega (arith, descend-length q r (went_right k c l ∷ fs)))
]

descend-node-length :
    (q k : ℕ) (c : Color) (l r : Tree Color) → 1 ≤ length (descend q (node k c l r) []).path
unfolding descend
descend-node-length q k c l r = elim (Bool-cases (ltb q k)) [
  | inl b ↦ rw b (omega (arith, descend-length q l (went_left k c r ∷ [])))
  | inr b ↦ rw b (omega (arith, descend-length q r (went_right k c l ∷ [])))
]

-- delete of rb_tree.c, with a key that is an int, from a red-black search tree with a black root
-- or the empty tree, ends without undefined behaviour in a search tree or the empty tree; it hands
-- out what find found at the key, and then find finds nothing there and the old object at every
-- other key.
pub delete-IsKeyed :
    (t : Tree Color) (k : ℕ) → IsRedBlack t → k < max_key → Ends (Deleted t k) (delete t k)
unfolding delete
delete-IsKeyed (leaf key c o) k (inl e) small = delete_leaf-Deleted key c k o (inl e)
delete-IsKeyed (leaf key c o) k (inr (s, _, _)) small = delete_leaf-Deleted key c k o (inr s)
delete-IsKeyed (node key c l r) k (inl e) small = cc
delete-IsKeyed (node key c l r) k (inr (s, col, b)) small =
    let t : Tree Color = node key c l r in
    delete_reached-Deleted t k (descend k t [])
      (descend-Reached 0 max_key k t [] here s (omega arith) small) col (descend k t []).path refl
      (descend-node-length k key c l r)
