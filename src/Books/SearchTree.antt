-- ===== src/Books/SearchTree.antt =====
-- The search trees of src/bin/books/advanced_data_structures, whose objects lie in the leaves. A
-- `key_t` is an `int` that is only compared, and stands here by its place among the ints, a number
-- below 2 ^ 32. A tree is the value that its pointer leads to: no node is shared. A leaf, whose
-- `right` is NULL, keeps its object in `left`; the empty tree is a leaf without object. `I` is
-- what a node holds besides.
pub mod Paths
pub mod Split
pub mod Regroup
pub mod Drop
use c_lang_project.DataStructs.ListStack.{new}
use native.Mathlib.Decide.{dec_lt}
use c_lang_project.Lang.Memory.{null}
use c_lang_project.Common.{
  ◌+◌, ◌<◌, ◌==◌, Bool, List, [], ◌^◌, arith, false, if◌then◌else◌, ltb, ℕ, ◌∷◌, ◌≡◌, ◌≢◌, ◌≤◌, ◌⊎◌,
  le→ltb, lt→ltb, refl, true,
}
use c_lang_project.DataStructs.ListRep.{Object}

pub data Tree (I : Type 0) : Type 0 where
  leaf : ℕ → I → Object → Tree I
  node : ℕ → I → Tree I → Tree I → Tree I

abbrev pub max_key : ℕ
max_key = 2 ^ 32

-- A step of the way down, with the node's key, what else it holds, and its other child.
pub data Frame (I : Type 0) : Type 0 where
  went_left : ℕ → I → Tree I → Frame I
  went_right : ℕ → I → Tree I → Frame I

-- The leaf that a search ends in, and the way to it, the last step first.
pub record Found (I : Type 0) : Type 0 where
  pub path : List (Frame I)
  pub key : ℕ
  pub info : I
  pub object : Object

module _ {I : Type 0} where
  abbrev pub is_empty : Tree I → Bool
  is_empty (leaf k i o) = o == null
  is_empty (node k i l r) = false

  abbrev pub fill : Frame I → Tree I → Tree I
  fill (went_left k i r) t = node k i t r
  fill (went_right k i l) t = node k i l t

  abbrev pub other : Frame I → Tree I
  other (went_left k i r) = r
  other (went_right k i l) = l

  -- The whole tree, with `t` at the end of the way.
  abbrev pub plug : List (Frame I) → Tree I → Tree I
  plug [] t = t
  plug (f ∷ fs) t = plug fs (fill f t)

  -- The loop `while (tmp_node->right != NULL)` with its `path_stack`.
  unfoldable pub descend : ℕ → Tree I → List (Frame I) → Found I
  descend q (leaf k i o) path = record { path = path; key = k; info = i; object = o }
  descend q (node k i l r) path =
      if ltb q k
      then descend q l (went_left k i r ∷ path)
      else descend q r (went_right k i l ∷ path)

  -- The node that a leaf becomes, over itself and the new leaf. The three hold `i`, `old` and `new`.
  abbrev pub split : I → I → I → ℕ → Object → ℕ → Object → Tree I
  split i old new key object k o =
      if ltb key k
      then node k i (leaf key old object) (leaf k new o)
      else node key i (leaf k new o) (leaf key old object)

  -- The object of the leaf where the search for `q` ends, if that has the key `q`.
  unfoldable pub lookup : Tree I → ℕ → Object
  lookup (leaf k i o) q = if k == q then o else null
  lookup (node k i l r) q = if ltb q k then lookup l q else lookup r q

  -- The keys are in order, from `a` on and below `b`, and every leaf has an object.
  abbrev pub IsSearch : ℕ → ℕ → Tree I → Type 0
  IsSearch a b (leaf k i o) = (a ≤ k) × (k < b) × (o ≢ null)
  IsSearch a b (node k i l r) = IsSearch a k l × IsSearch k b r

  abbrev pub leaves : Tree I → ℕ
  leaves (leaf k i o) = 1
  leaves (node k i l r) = leaves l + leaves r

  -- Distinct keys: there are not more leaves than numbers in the interval.
  pub leaves-le : (a b : ℕ) (t : Tree I) → IsSearch a b t → a + leaves t ≤ b
  leaves-le a b (leaf k i o) s = omega arith
  leaves-le a b (node k i l r) (sl, sr) = omega (arith, leaves-le a k l sl, leaves-le k b r sr)

  pub lookup-outside :
      (a b : ℕ) (t : Tree I) (q : ℕ) → IsSearch a b t → (q < a) ⊎ (b ≤ q) → lookup t q ≡ null
  unfolding lookup
  lookup-outside a b (leaf k i o) q s out = ground arith
  lookup-outside a b (node k i l r) q (sl, sr) out = ground (
    arith,
    leaves-le a k l sl,
    leaves-le k b r sr,
    lookup-outside a k l q sl,
    lookup-outside k b r q sr,
  )

  pub lt_of_IsSearch : (a b : ℕ) (t : Tree I) → IsSearch a b t → a < b
  lt_of_IsSearch a b (leaf k i o) s = omega arith
  lt_of_IsSearch a b (node k i l r) (sl, sr) =
      omega (arith, lt_of_IsSearch a k l sl, lt_of_IsSearch k b r sr)

  -- What the search finds.
  pub descend-lookup :
      (q : ℕ) (t : Tree I) (fs : List (Frame I))
      → (if (descend q t fs).key == q then (descend q t fs).object else null) ≡ lookup t q
  unfolding descend lookup
  descend-lookup q (leaf k i o) fs = refl
  descend-lookup q (node k i l r) fs = elim (dec_lt q k) [
    | yes h ↦ rw (lt→ltb q k h) (descend-lookup q l (went_left k i r ∷ fs))
    | no h ↦ rw (le→ltb q k (omega arith)) (descend-lookup q r (went_right k i l ∷ fs))
  ]

  pub is_empty-IsSearch : (a b : ℕ) (t : Tree I) → IsSearch a b t → is_empty t ≡ false
  is_empty-IsSearch a b (leaf k i o) s = ground arith
  is_empty-IsSearch a b (node k i l r) s = refl

  pub lookup-is_empty : (t : Tree I) (q : ℕ) → is_empty t ≡ true → lookup t q ≡ null
  unfolding lookup
  lookup-is_empty (leaf k i o) q e = ground arith
  lookup-is_empty (node k i l r) q e = cc

  pub IsSearch-widen :
      (a b a' b' : ℕ) (t : Tree I) → a' ≤ a → b ≤ b' → IsSearch a b t → IsSearch a' b' t
  IsSearch-widen a b a' b' (leaf k i o) l h (p, q, some_object) =
      (omega arith, omega arith, some_object)
  IsSearch-widen a b a' b' (node k i t u) l h (st, su) =
      (IsSearch-widen a k a' k t l (omega arith) st, IsSearch-widen k b k b' u (omega arith) h su)

-- Deleting a key that is not there.
pub if-absent : (g : ℕ → Object) (k q : ℕ) → g k ≡ null → g q ≡ (if k == q then null else g q)
if-absent g k q absent = ground arith

-- Deleting the only key.
pub emptied :
    (key k : ℕ) (o : Object) (q : ℕ)
    → key ≡ k
    → (if key == q then null else null) ≡ (if k == q then null else (if key == q then o else null))
emptied key k o q e = ground arith
