-- ===== src/Books/SplayTree/Keys.antt =====
-- What rotations and splaying in spla_tree.c leave of the keys and objects.
use c_lang_project.Lang.Memory.{null}
use c_lang_project.DataStructs.ListRep.{Object}
use c_lang_project.Books.SplayTree.{
  Frame, Tree, fill, nil, node, plug, splay, went_left, went_right,
}
use c_lang_project.Common.{
  ◌+◌, ◌<◌, List, [], arith, if◌then◌else◌, ltb, refl, sym, ℕ, ◌∙◌, ◌∷◌, ◌≡◌, ◌≢◌, ◌≤◌,
}
use c_lang_project.Lang.Result.{Ends, Ends-mono, ends}

-- The object at a key.
unfoldable pub lookup : Tree → ℕ → Object
lookup nil q = null
lookup (node k o l r) q = if ltb q k then lookup l q else if ltb k q then lookup r q else o

-- The keys are in order, from `a` on and below `b`, and every node has an object.
abbrev pub IsSearch : ℕ → ℕ → Tree → Type 0
IsSearch a b nil = Unit {0}
IsSearch a b (node k o l r) = (a ≤ k) × (k < b) × (o ≢ null) × IsSearch a k l × IsSearch (k + 1) b r

-- The keys of `u` lie in order where those of `t` do, with the same objects.
pub record Moved (t u : Tree) : Type 0 where
  pub search : (a b : ℕ) → IsSearch a b t → IsSearch a b u
  pub same : (a b : ℕ) → IsSearch a b t → (q : ℕ) → lookup u q ≡ lookup t q

pub Moved-refl : (t : Tree) → Moved t t
Moved-refl t = record { search = λ a b s. s; same = λ a b s q. refl }

pub Moved-trans : {t u v : Tree} → Moved t u → Moved u v → Moved t v
Moved-trans m n = record {
  search = λ a b s. n.search a b (m.search a b s);
  same = λ a b s q. n.same a b (m.search a b s) q ∙ m.same a b s q;
}

pub Moved-fill : (f : Frame) {t u : Tree} → Moved t u → Moved (fill f t) (fill f u)
unfolding lookup
Moved-fill (went_left k o r) m = record {
  search = λ a b s. (s.0, s.1, s.2, m.search a k s.3, s.4);
  same = λ a b s q. rw (m.same a k s.3 q);
}
Moved-fill (went_right k o l) m = record {
  search = λ a b s. (s.0, s.1, s.2, s.3, m.search (k + 1) b s.4);
  same = λ a b s q. rw (m.same (k + 1) b s.4 q);
}

pub Moved-plug : (fs : List Frame) {t u : Tree} → Moved t u → Moved (plug fs t) (plug fs u)
Moved-plug [] m = m
Moved-plug (f ∷ fs) m = Moved-plug fs (Moved-fill f m)

module _ (q : ℕ) (x y z o o' : Object) where
  regroup :
      (k k' : ℕ)
      → k < k'
      → (if ltb q k'
          then (if ltb q k then x else if ltb k q then y else o)
          else if ltb k' q
          then z
          else o')
        ≡ (if ltb q k
            then x
            else if ltb k q
            then (if ltb q k' then y else if ltb k' q then z else o')
            else o)
  regroup k k' h = ground arith

module _ (k k' : ℕ) (o o' : Object) (l m r : Tree) where
  pub left-Moved : Moved (node k o l (node k' o' m r)) (node k' o' (node k o l m) r)
  unfolding lookup
  left-Moved = record {
    search = λ a b (low, high, ob, sl, (low', high', ob', sm, sr)).
        (omega arith, high', ob', (low, omega arith, ob, sl, sm), sr);
    same = λ a b (low, high, ob, sl, (low', high', ob', sm, sr)) q.
        regroup q _ _ _ o o' k k' (omega arith);
  }

  pub right-Moved : Moved (node k' o' (node k o l m) r) (node k o l (node k' o' m r))
  unfolding lookup
  right-Moved = record {
    search = λ a b (low', high', ob', (low, high, ob, sl, sm), sr).
        (low, omega arith, ob, sl, (omega arith, high', ob', sm, sr));
    same = λ a b (low', high', ob', (low, high, ob, sl, sm), sr) q.
        sym (regroup q _ _ _ o o' k k' (omega arith));
  }

-- The root has the key `k` and the object `o`.
pub data IsRooted (k : ℕ) (o : Object) : Tree → Type 0 where
  rooted : (l r : Tree) → IsRooted k o (node k o l r)

pub record Splayed (t : Tree) (k : ℕ) (o : Object) (u : Tree) : Type 0 where
  pub root : IsRooted k o u
  pub moved : Moved t u

module _ (k : ℕ) (o : Object) where
  -- A tree with `k` at its root, which splaying goes on with.
  onward :
      (gs : List Frame) (t l r u : Tree)
      → Moved t (node k o l r)
      → Splayed (plug gs (node k o l r)) k o u
      → Splayed (plug gs t) k o u
  onward gs t l r u m s = record { root = s.root; moved = Moved-trans (Moved-plug gs m) s.moved }

  pub splay-Splayed :
      (fs : List Frame) (l r : Tree)
      → Ends (Splayed (plug fs (node k o l r)) k o) (splay fs (node k o l r))
  unfolding splay
  splay-Splayed [] l r = ends (record { root = rooted l r; moved = Moved-refl (node k o l r) })
  splay-Splayed (went_left k1 o1 r1 ∷ []) l r =
      ends (record { root = rooted l (node k1 o1 r r1); moved = right-Moved k k1 o o1 l r r1 })
  splay-Splayed (went_right k1 o1 l1 ∷ []) l r =
      ends (record { root = rooted (node k1 o1 l1 l) r; moved = left-Moved k1 k o1 o l1 l r })
  splay-Splayed (went_left k1 o1 r1 ∷ went_left k2 o2 r2 ∷ gs) l r =
      Ends-mono (splay-Splayed gs l (node k1 o1 r (node k2 o2 r1 r2))) λ u s.
        onward gs _ l (node k1 o1 r (node k2 o2 r1 r2)) u
          (Moved-trans (right-Moved k1 k2 o1 o2 (node k o l r) r1 r2)
            (right-Moved k k1 o o1 l r (node k2 o2 r1 r2)))
          s
  splay-Splayed (went_right k1 o1 l1 ∷ went_left k2 o2 r2 ∷ gs) l r =
      Ends-mono (splay-Splayed gs (node k1 o1 l1 l) (node k2 o2 r r2)) λ u s.
        onward gs _ (node k1 o1 l1 l) (node k2 o2 r r2) u
          (Moved-trans (Moved-fill (went_left k2 o2 r2) (left-Moved k1 k o1 o l1 l r))
            (right-Moved k k2 o o2 (node k1 o1 l1 l) r r2))
          s
  splay-Splayed (went_right k1 o1 l1 ∷ went_right k2 o2 l2 ∷ gs) l r =
      Ends-mono (splay-Splayed gs (node k1 o1 (node k2 o2 l2 l1) l) r) λ u s.
        onward gs _ (node k1 o1 (node k2 o2 l2 l1) l) r u
          (Moved-trans (left-Moved k2 k1 o2 o1 l2 l1 (node k o l r))
            (left-Moved k1 k o1 o (node k2 o2 l2 l1) l r))
          s
  splay-Splayed (went_left k1 o1 r1 ∷ went_right k2 o2 l2 ∷ gs) l r =
      Ends-mono (splay-Splayed gs (node k2 o2 l2 l) (node k1 o1 r r1)) λ u s.
        onward gs _ (node k2 o2 l2 l) (node k1 o1 r r1) u
          (Moved-trans (Moved-fill (went_right k2 o2 l2) (right-Moved k k1 o o1 l r r1))
            (left-Moved k2 k o2 o l2 l (node k1 o1 r r1)))
          s
