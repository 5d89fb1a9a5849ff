-- ===== src/Books/SearchTree/Paths.antt =====
-- Ways into a search tree.
use c_lang_project.DataStructs.ListRep.{Object}
use native.Mathlib.Decide.{dec_lt}
use c_lang_project.Common.{
  List, [], ℕ, ◌∷◌, ◌<◌, arith, inl, inr, le→ltb, lt→ltb, refl, ◌≡◌, ◌≤◌, ◌⊎◌, ◌∙◌,
}
use c_lang_project.Books.SearchTree.{
  Tree, Frame, went_left, went_right, node, plug, IsSearch, Found, descend, leaf, lookup,
  lt_of_IsSearch,
}

module _ {I : Type 0} (lo hi : ℕ) where
  -- A way into a search tree for [lo, hi), to where one for [a, b) belongs.
  pub data Way : List (Frame I) → ℕ → ℕ → Type 0 where
    here : Way [] lo hi
    left_of :
        {fs : List (Frame I)} {a b k : ℕ} {i : I} {r : Tree I}
        → Way fs a b
        → IsSearch k b r
        → Way (went_left k i r ∷ fs) a k
    right_of :
        {fs : List (Frame I)} {a b k : ℕ} {i : I} {l : Tree I}
        → Way fs a b
        → IsSearch a k l
        → Way (went_right k i l ∷ fs) k b

  pub plug-IsSearch :
      {fs : List (Frame I)} {a b : ℕ} (t : Tree I)
      → Way fs a b
      → IsSearch a b t
      → IsSearch lo hi (plug fs t)
  plug-IsSearch t here s = s
  plug-IsSearch t (left_of {k = k} {i = i} {r = r} p sr) s = plug-IsSearch (node k i t r) p (s, sr)
  plug-IsSearch t (right_of {k = k} {i = i} {l = l} p sl) s = plug-IsSearch (node k i l t) p (sl, s)

  -- What holds of the objects before and after a change at the end of a way, and does not speak of
  -- keys that lead elsewhere, holds for the whole tree.
  pub lookup-plug :
      (P : ℕ → Object → Object → Type 0) {fs : List (Frame I)} {a b : ℕ} (t u : Tree I)
      → Way fs a b
      → ((q : ℕ) → (q < a) ⊎ (b ≤ q) → (o : Object) → P q o o)
      → ((q : ℕ) → a ≤ q → q < b → P q (lookup t q) (lookup u q))
      → (q : ℕ) → lo ≤ q
      → q < hi
      → P q (lookup (plug fs t) q) (lookup (plug fs u) q)
  unfolding lookup
  lookup-plug P t u here outside inside = inside
  lookup-plug P t u (left_of {b = b} {k = k} {i = i} {r = r} p s) outside inside =
      lookup-plug P (node k i t r) (node k i u r) p
        (λ q out. outside q (ground (arith, lt_of_IsSearch k b r s)))
        (λ q low high. elim (dec_lt q k) [
          | yes h ↦ rw (lt→ltb q k h) (inside q low h)
          | no h ↦ rw (le→ltb q k (omega arith)) (outside q (inr (omega arith)) (lookup r q))
        ])
  lookup-plug P t u (right_of {a = a} {k = k} {i = i} {l = l} p s) outside inside =
      lookup-plug P (node k i l t) (node k i l u) p
        (λ q out. outside q (ground (arith, lt_of_IsSearch a k l s)))
        (λ q low high. elim (dec_lt q k) [
          | yes h ↦ rw (lt→ltb q k h) (outside q (inl h) (lookup l q))
          | no h ↦ rw (le→ltb q k (omega arith)) (inside q (omega arith) high)
        ])

  -- The leaf where the search for `q` in `t` ends.
  pub record Reached (q : ℕ) (t : Tree I) (f : Found I) : Type 0 where
    pub low : ℕ
    pub high : ℕ
    pub way : Way f.path low high
    pub after : low ≤ q
    pub before : q < high
    pub there : IsSearch low high (leaf f.key f.info f.object)
    pub whole : plug f.path (leaf f.key f.info f.object) ≡ t

  pub descend-Reached :
      {a b : ℕ} (q : ℕ) (t : Tree I) (fs : List (Frame I))
      → Way fs a b
      → IsSearch a b t
      → a ≤ q
      → q < b
      → Reached q (plug fs t) (descend q t fs)
  unfolding descend
  descend-Reached {a} {b} q (leaf k i o) fs p s l h = record {
    low = a;
    high = b;
    way = p;
    after = l;
    before = h;
    there = s;
    whole = refl;
  }
  descend-Reached q (node k i l r) fs p (sl, sr) low high = elim (dec_lt q k) [
    | yes h ↦ rw (lt→ltb q k h) (descend-Reached q l (went_left k i r ∷ fs) (left_of p sr) sl low h)
    | no h ↦
        rw (le→ltb q k (omega arith))
          (descend-Reached q r (went_right k i l ∷ fs) (right_of p sl) sr (omega arith) high)
  ]

  -- A key that leads to the end of the way is looked up there.
  pub lookup-plug_inside :
      {fs : List (Frame I)} {a b : ℕ} (t : Tree I) (q : ℕ)
      → Way fs a b
      → a ≤ q
      → q < b
      → lookup (plug fs t) q ≡ lookup t q
  unfolding lookup
  lookup-plug_inside t q here l h = refl
  lookup-plug_inside t q (left_of {k = k} {i = i} {r = r} p s) l h =
      lookup-plug_inside (node k i t r) q p l (omega (arith, lt_of_IsSearch k _ r s))
      ∙ rw (lt→ltb q k h)
  lookup-plug_inside t q (right_of {k = k} {i = i} {l = u} p s) l h =
      lookup-plug_inside (node k i u t) q p (omega (arith, lt_of_IsSearch _ k u s)) h
      ∙ rw (le→ltb q k l)
