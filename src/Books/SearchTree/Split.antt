-- ===== src/Books/SearchTree/Split.antt =====
-- A new key at a leaf of a search tree.
use c_lang_project.Lang.Memory.{null}
use c_lang_project.Books.SearchTree.Paths.{Way, lookup-plug}
use c_lang_project.DataStructs.ListRep.{Object}
use c_lang_project.Books.SearchTree.{Frame, IsSearch, leaf, lookup, plug, split}
use native.Mathlib.Decide.{dec_lt}
use c_lang_project.Common.{
  ℕ, ◌<◌, ◌==◌, ==-false, List, arith, if◌then◌else◌, le→ltb, lt→ltb, ◌≡◌, ◌≢◌, ◌≤◌,
}

module _ {I : Type 0} (i old new : I) (key k : ℕ) (object o : Object) where
  pub split-IsSearch :
      (a b : ℕ)
      → IsSearch a b (leaf key old object)
      → a ≤ k
      → k < b
      → ¬ (key ≡ k)
      → o ≢ null
      → IsSearch a b (split i old new key object k o)
  split-IsSearch a b (l, h, some_old) l' h' ne some_new = elim (dec_lt key k) [
    | yes c ↦ rw (lt→ltb _ _ c) ((l, c, some_old), (omega arith, h', some_new))
    | no c ↦
        rw (le→ltb key k (omega arith)) ((l', omega arith, some_new), (omega arith, h, some_old))
  ]

  pub lookup-split :
      (q : ℕ)
      → ¬ (key ≡ k)
      → lookup (split i old new key object k o) q
        ≡ (if k == q then o else (if key == q then object else null))
  unfolding lookup
  lookup-split q ne = elim (dec_lt key k) [
    | yes c ↦ rw (lt→ltb _ _ c) (ground arith)
    | no c ↦ rw (le→ltb key k (omega arith)) (ground arith)
  ]

  pub lookup-plug-split :
      (was : I) (lo hi : ℕ) {fs : List (Frame I)} {a b : ℕ}
      → Way lo hi fs a b
      → a ≤ k
      → k < b
      → ¬ (key ≡ k)
      → (q : ℕ) → lo ≤ q
      → q < hi
      → lookup (plug fs (split i old new key object k o)) q
        ≡ (if k == q then o else lookup (plug fs (leaf key was object)) q)
  unfolding lookup
  lookup-plug-split was lo hi p l h ne =
      lookup-plug lo hi (λ q u v. v ≡ (if k == q then o else u)) (leaf key was object)
        (split i old new key object k o) p (λ q out o. rw (==-false k q (ground arith)))
        (λ q _ _. lookup-split q ne)
