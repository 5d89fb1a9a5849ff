-- ===== src/Books/SearchTree/Drop.antt =====
-- A leaf leaves a search tree, and its sibling takes the place of the node above.
use c_lang_project.Books.SearchTree.Paths.{Way, lookup-plug, plug-IsSearch, left_of, right_of}
use c_lang_project.DataStructs.ListRep.{Object}
use c_lang_project.Books.SearchTree.{
  Frame, IsSearch, IsSearch-widen, leaf, lookup, lookup-outside, lt_of_IsSearch, node, other, plug,
}
use c_lang_project.Common.{◌<◌, ◌==◌, ==-false, List, arith, if◌then◌else◌, ℕ, ◌∷◌, ◌≡◌, ◌≤◌}
use c_lang_project.Lang.Memory.{null}

module _ {I : Type 0} (k : ℕ) (i : I) (o : Object) where
  pub drop-IsSearch :
      (lo hi : ℕ) (f : Frame I) {fs : List (Frame I)} {a b : ℕ}
      → Way lo hi (f ∷ fs) a b
      → IsSearch a b (leaf k i o)
      → IsSearch lo hi (plug fs (other f))
  drop-IsSearch lo hi f (left_of {a = a} {b = b} {k = k'} {r = r} p sr) s =
      plug-IsSearch lo hi r p (IsSearch-widen k' b a b r (omega arith) (omega arith) sr)
  drop-IsSearch lo hi f (right_of {a = a} {b = b} {k = k'} {l = l} p sl) s =
      plug-IsSearch lo hi l p (IsSearch-widen a k' a b l (omega arith) (omega arith) sl)

  pub lookup-drop :
      (lo hi : ℕ) (f : Frame I) {fs : List (Frame I)} {a b : ℕ}
      → Way lo hi (f ∷ fs) a b
      → IsSearch a b (leaf k i o)
      → (q : ℕ) → lo ≤ q
      → q < hi
      → lookup (plug fs (other f)) q
        ≡ (if k == q then null else lookup (plug (f ∷ fs) (leaf k i o)) q)
  unfolding lookup
  lookup-drop lo hi f {fs} (left_of {a = a} {b = b} {k = k'} {i = j} {r = r} p sr) s =
      let lt = lt_of_IsSearch k' b r sr in
      lookup-plug lo hi (λ q u v. v ≡ (if k == q then null else u)) (node k' j (leaf k i o) r) r p
        (λ q out u. rw (==-false k q (ground arith)))
        (λ q low high. ground (arith, lookup-outside k' b r q sr))
  lookup-drop lo hi f {fs} (right_of {a = a} {b = b} {k = k'} {i = j} {l = l} p sl) s =
      let lt = lt_of_IsSearch a k' l sl in
      lookup-plug lo hi (λ q u v. v ≡ (if k == q then null else u)) (node k' j l (leaf k i o)) l p
        (λ q out u. rw (==-false k q (ground arith)))
        (λ q low high. ground (arith, lookup-outside a k' l q sl))
