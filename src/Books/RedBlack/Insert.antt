-- ===== src/Books/RedBlack/Insert.antt =====
-- `find` and `insert` of rb_tree.c.
use c_lang_project.Books.RedBlack.Bounds.{room_on_way}
use c_lang_project.Lang.Memory.{null}
use c_lang_project.Common.Int.{negsuc, ℤ, pos}
use c_lang_project.Books.RedBlack.InsertKeys.{insert_loop-Moved}
use c_lang_project.Books.SearchTree.Paths.{
  Reached, descend-Reached, lookup-plug_inside, plug-IsSearch, here,
}
use c_lang_project.DataStructs.ListRep.{Object}
use c_lang_project.Books.RedBlack.Keys.{Moved, Moved-paint, Moves-then, painted-Moves}
use c_lang_project.Books.RedBlack.InsertColors.{IsConflict, insert_loop-IsColored, conflict}
use c_lang_project.Books.RedBlack.Colors.{
  IsColored, blacks, is_black-paint_black, paint_black-IsColored, plug-Fits, plug-IsColored,
}
use c_lang_project.Books.SearchTree.{
  Found, Frame, IsSearch, Tree, descend, descend-lookup, is_empty, is_empty-IsSearch, leaf, lookup,
  lookup-is_empty, max_key, node, plug, split,
}
use c_lang_project.Books.RedBlack.{
  Color, black, find, insert, insert_at, insert_found, is_black, painted, red,
}
use c_lang_project.Common.{
  ◌<◌, ◌==◌, ==-false, ==-true, Bool-cases, List, [], ap, arith, if◌then◌else◌, inl, inr, ltb, refl,
  subst, sym, true, ℕ, ◌∙◌, ◌≡◌, ◌≢◌, ◌⊎◌,
}
use native.Mathlib.Decide.{ℕ_discrete}
use c_lang_project.Books.SearchTree.Split.{lookup-plug-split, split-IsSearch}
use c_lang_project.Lang.Result.{Ends, Ends-IfDone, Ends-bind, IfDone, ends, if_done}

-- A tree for distinct `int` keys: a red-black search tree with a black root, or the empty tree.
abbrev pub IsRedBlack : Tree Color → Type 0
IsRedBlack t = (is_empty t ≡ true) ⊎ (IsSearch 0 max_key t × IsColored t × (is_black t ≡ true))

pub find-lookup : (t : Tree Color) (q : ℕ) → find t q ≡ lookup t q
unfolding find lookup
find-lookup (leaf k c o) q = ground arith
find-lookup (node k c l r) q = descend-lookup q (node k c l r) []

-- What `insert` answers and leaves.
abbrev pub Inserted : Tree Color → ℕ → Object → Tree Color × ℤ → Type 0
Inserted t k o (t', answer) =
    IsRedBlack t'
    × ((find t k ≡ null)
        → (answer ≡ pos 0) × ((q : ℕ) → q < max_key → find t' q ≡ (if k == q then o else find t q)))
    × ((find t k ≢ null) → (answer ≡ negsuc 0) × (t' ≡ t))

split_red-IsConflict :
    (key k : ℕ) (object o : Object) → IsConflict 0 (split red red red key object k o)
split_red-IsConflict key k object o = elim (Bool-cases (ltb key k)) [
  | inl c ↦ rw c (conflict refl refl tt tt)
  | inr c ↦ rw c (conflict refl refl tt tt)
]

split_black-IsColored :
    (key k : ℕ) (object o : Object)
    → IsColored (split black red red key object k o)
      × (is_black (split black red red key object k o) ≡ true)
      × (blacks (split black red red key object k o) ≡ 1)
split_black-IsColored key k object o = elim (Bool-cases (ltb key k)) [
  | inl c ↦ rw c ((refl, tt, tt), refl, refl)
  | inr c ↦ rw c ((refl, tt, tt), refl, refl)
]

insert_at-Moved :
    (fs : List (Frame Color)) (c : Color) (t : Tree Color)
    → IfDone (Moved (plug fs t)) (insert_at fs c t)
unfolding insert_at
insert_at-Moved fs black t = if_done (Moved-paint black (plug fs t))
insert_at-Moved fs red t = Moves-then (painted black) (insert_loop-Moved fs t) (painted-Moves black)

abbrev HasColors : Tree Color → Type 0
HasColors t = IsColored t × (is_black t ≡ true)

insert_at-HasColors :
    (fs : List (Frame Color)) (c : Color) (key k : ℕ) (object o : Object)
    → IsColored (plug fs (leaf key c object))
    → Ends HasColors (insert_at fs c (split c red red key object k o))
unfolding insert_at
insert_at-HasColors fs black key k object o col =
    let (_, fits) = plug-Fits fs (leaf key black object) col in
    let (cs, bs, ns) = split_black-IsColored key k object o in
    let whole = plug-IsColored fs (split black red red key object k o) cs (rw (bs, ns) fits) in
    ends (paint_black-IsColored _ whole, is_black-paint_black _)
insert_at-HasColors fs red key k object o col =
    let (_, fits) = plug-Fits fs (leaf key red object) col in
    Ends-bind
      (insert_loop-IsColored fs (split red red red key object k o) 0 fits
        (split_red-IsConflict key k object o))
      λ u c. ends (c, is_black-paint_black u)

module _ (k : ℕ) (o : Object) (t : Tree Color) (f : Found Color) (reach : Reached 0 max_key k t f)
    (some_new : o ≢ null) where
  abbrev before : Tree Color
  before = plug f.path (leaf f.key f.info f.object)

  find-before : find t k ≡ (if f.key == k then f.object else null)
  unfolding lookup
  find-before =
      find-lookup t k
      ∙ sym (ap (λ u. lookup u k) reach.whole)
      ∙ lookup-plug_inside 0 max_key (leaf f.key f.info f.object) k reach.way reach.after
          reach.before

  insert_at-Inserted :
      (t' : Tree Color)
      → ¬ (f.key ≡ k)
      → HasColors t'
      → Moved (plug f.path (split f.info red red f.key f.object k o)) t'
      → Inserted t k o (t', pos 0)
  unfolding lookup
  insert_at-Inserted t' ne (c, b) m =
      let s = plug-IsSearch 0 max_key (split f.info red red f.key f.object k o) reach.way (
        split-IsSearch f.info red red f.key k f.object o reach.low reach.high reach.there
          reach.after reach.before ne some_new) in
      (
        inr (m.search 0 max_key s, c, b),
        (λ _. (
          refl,
          λ q small.
              rw (find-lookup t' q, find-lookup t q, m.same 0 max_key s q)
                (lookup-plug-split f.info red red f.key k f.object o f.info 0 max_key reach.way
                    reach.after reach.before ne q (omega arith) small
                  ∙ ap (λ u. if k == q then o else lookup u q) reach.whole),
        )),
        λ found. absurd (found (find-before ∙ rw (==-false f.key k ne))),
      )

  insert_found-Inserted :
      IsSearch 0 max_key t
      → IsColored t
      → is_black t ≡ true
      → Ends (Inserted t k o) (insert_found true t k o f)
  unfolding insert_found
  insert_found-Inserted s c b =
      let room =
        room_on_way f.path (leaf f.key f.info f.object)
          (subst (IsSearch 0 max_key) (sym reach.whole) s) (subst IsColored (sym reach.whole) c) in
      rw room (elim (ℕ_discrete f.key k) [
        | yes e ↦ rw (==-true _ _ e) (
            ends (
              inr (s, c, b),
              (λ z. absurd (reach.there.2 (sym (find-before ∙ rw (==-true _ _ e)) ∙ z))),
              λ _. (refl, refl),
            ))
        | no ne ↦ rw (==-false _ _ ne) (
            Ends-bind
              (Ends-IfDone
                (insert_at-HasColors f.path f.info f.key k f.object o
                  (subst IsColored (sym reach.whole) c))
                (insert_at-Moved f.path f.info (split f.info red red f.key f.object k o)))
              λ t' (cols, m). ends (insert_at-Inserted t' ne cols m))
      ])

-- insert of rb_tree.c, with a key that is an int and an object that is not NULL, with get_node
-- succeeding, into a red-black search tree with a black root or the empty tree, ends without
-- undefined behaviour in such a tree: if find did not find the key, insert answers 0 and find then
-- finds the new object at the key and the old ones at every other key; if it did, insert answers
-- -1 and changes nothing.
pub insert-IsRedBlack :
    (t : Tree Color) (k : ℕ) (o : Object)
    → IsRedBlack t
    → k < max_key
    → o ≢ null
    → Ends (Inserted t k o) (insert true t k o)
unfolding insert lookup
insert-IsRedBlack t k o (inl e) small some_new = rw e (
    ends (
      inr ((omega arith, small, some_new), tt, refl),
      (λ _. (
        refl,
        λ q _. rw (find-lookup (leaf k black o) q, find-lookup t q, lookup-is_empty t q e),
      )),
      λ found. absurd (found (find-lookup t k ∙ lookup-is_empty t k e)),
    ))
insert-IsRedBlack t k o (inr (s, c, b)) small some_new = rw (is_empty-IsSearch 0 max_key t s) (
    insert_found-Inserted k o t (descend k t [])
      (descend-Reached 0 max_key k t [] here s (omega arith) small) some_new s c b)
