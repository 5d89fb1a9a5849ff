-- ===== src/Books/LeftistHeap/Settle.antt =====
-- The loop of `merge` in left_heap.c back up to the root.

use c_lang_project.DataStructs.ListRep.{Object}
use c_lang_project.Books.LeftistHeap.Invariant.{
  IsHeap, IsLeftist, IsValid, above, count, count_on, is_item,
}
use c_lang_project.Books.LeftistHeap.{Frame, Tree, is_light, nil, node, rank, settle, settled}
use c_lang_project.Common.{
  ◌+◌, ◌<◌, Bool-cases, List, [], arith, inl, inr, length, le→ltb, lt→ltb, ℕ, ◌∷◌, ◌≡◌, ◌≤◌, ◌⊎◌,
}
use native.Mathlib.Decide.{dec_lt}

-- A way down whose keys rise, over heaps on the left.
abbrev pub OnPath : List Frame → Type 0
OnPath [] = Unit {0}
OnPath (f ∷ fs) = IsLeftist f.left × IsHeap f.key f.left × (above fs ≤ f.key) × OnPath fs

settled-IsLeftist :
    (k : ℕ) (o : Object) (l r : Tree)
    → IsLeftist l
    → IsLeftist r
    → IsLeftist (settled k o l r) × (0 < rank (settled k o l r))
settled-IsLeftist k o nil nil sl sr = omega arith
settled-IsLeftist k o nil (node n k' o' a b) sl sr =
    ((omega arith, omega arith, sr, sl), omega arith)
settled-IsLeftist k o (node n k' o' a b) nil sl sr =
    ((omega arith, omega arith, sl, sr), omega arith)
settled-IsLeftist k o (node n k' o' a b) (node n' k'' o'' a' b') sl sr = elim (dec_lt n n') [
  | yes h ↦ rw (lt→ltb _ _ h) ((omega arith, omega arith, sr, sl), omega arith)
  | no h ↦ rw (le→ltb n n' (omega arith)) ((omega arith, omega arith, sl, sr), omega arith)
]

settled-IsHeap :
    (m k : ℕ) (o : Object) (l r : Tree)
    → m ≤ k
    → IsHeap k l
    → IsHeap k r
    → IsHeap m (settled k o l r)
settled-IsHeap m k o l r h hl hr = elim (Bool-cases (is_light l r)) [
  | inl e ↦ rw e (h, hr, hl)
  | inr e ↦ rw e (h, hl, hr)
]

count-settled :
    (q : ℕ) (x : Object) (k : ℕ) (o : Object) (l r : Tree)
    → count q x (settled k o l r) ≡ is_item q x k o + count q x l + count q x r
count-settled q x k o l r = elim (Bool-cases (is_light l r)) [
  | inl e ↦ rw e (omega arith)
  | inr e ↦ rw e (omega arith)
]

pub record Settled (fs : List Frame) (t t' : Tree) : Type 0 where
  pub valid : IsValid t'
  pub same : (q : ℕ) (x : Object) → count q x t' ≡ count_on q x fs + count q x t

pub settle-Settled :
    (fs : List Frame) (t : Tree)
    → OnPath fs
    → IsLeftist t
    → IsHeap (above fs) t
    → (0 < rank t) ⊎ (0 < length fs)
    → Settled fs t (settle fs t)
unfolding settle
settle-Settled [] t path s h some_node = record {
  valid = record { leftist = s; heap = h; some_node = ground arith };
  same = λ q x. omega arith;
}
settle-Settled (f ∷ fs) t (sl, hl, up, path) s h some_node =
    let (s', pos') = settled-IsLeftist f.key f.object f.left t sl s in
    let rec =
      settle-Settled fs (settled f.key f.object f.left t) path s'
        (settled-IsHeap (above fs) f.key f.object f.left t up hl h) (inl pos') in
    record {
      valid = rec.valid;
      same = λ q x. omega (arith, rec.same q x, count-settled q x f.key f.object f.left t);
    }
