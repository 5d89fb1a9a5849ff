-- ===== src/Books/TrivialTree/Interval.antt =====
-- `interval_find` of triv_tree.c.
use c_lang_project.Books.NodePool.Counts.{Supplies, available, is_node, take_node-Handed}
use c_lang_project.Books.NodePool.{Pool}
use mathlib.Core.List.{append-nil, append_assoc}
use c_lang_project.Lang.Result.{Ends, done, ends, Ends-bind, Ends-mono}
use c_lang_project.Books.TrivialTree.{
  stack_room, follow, push, interval_find, interval_loop, Results, list_leaf,
}
use c_lang_project.DataStructs.ListRep.{Object}
use c_lang_project.Books.SearchTree.{IsSearch, Tree, leaf, leaves, lt_of_IsSearch, node}
use c_lang_project.Common.{
  ◌&&◌, ◌*◌, ◌+◌, ◌++◌, Bool-cases, List, [], arith, if◌then◌else◌, inl, inr, leb, length, ltb,
  refl, ℕ, ◌∙◌, ◌∷◌, ◌≡◌, ◌≤◌, ◌⊎◌, ◌<◌, leb→le, lt→ltb, suc, zero, ap, length-append, subst, sym,
}

-- The keys and objects of a tree, from left to right.
abbrev pub items : Tree ℕ → List (ℕ × Object)
items (leaf k n o) = (k, o) ∷ []
items (node k n l r) = items l ++ items r

-- Those with a key in [a, b).
abbrev pub select : ℕ → ℕ → List (ℕ × Object) → List (ℕ × Object)
select a b [] = []
select a b ((k, o) ∷ rest) =
    if leb a k && ltb k b then (k, o) ∷ select a b rest else select a b rest

abbrev pub depth : Tree ℕ → ℕ
depth (leaf k n o) = 1
depth (node k n l r) = if ltb (depth l) (depth r) then depth r + 1 else depth l + 1

module _ (a b : ℕ) where
  select-append :
      (xs ys : List (ℕ × Object)) → select a b (xs ++ ys) ≡ select a b xs ++ select a b ys
  select-append [] ys = refl
  select-append ((k, o) ∷ xs) ys = elim (Bool-cases (leb a k && ltb k b)) [
    | inl e ↦ rw (e, select-append xs ys)
    | inr e ↦ rw (e, select-append xs ys)
  ]

  -- All keys are on one side of the interval.
  select-outside :
      (lo hi : ℕ) (t : Tree ℕ) → IsSearch lo hi t → (hi ≤ a) ⊎ (b ≤ lo) → select a b (items t) ≡ []
  select-outside lo hi (leaf k n o) s out = ground arith
  select-outside lo hi (node k n l r) (sl, sr) out =
      let lt = lt_of_IsSearch lo k l sl in
      let lt' = lt_of_IsSearch k hi r sr in
      select-append (items l) (items r)
      ∙ rw (select-outside lo k l sl (ground arith), select-outside k hi r sr (ground arith))

  -- What the trees on the stack will still give.
  abbrev picked : List (Tree ℕ) → List (ℕ × Object)
  picked [] = []
  picked (t ∷ stack) = picked stack ++ select a b (items t)

abbrev cost : Tree ℕ → ℕ
cost (leaf k n o) = 1
cost (node k n l r) = 1 + cost l + cost r

abbrev costs : List (Tree ℕ) → ℕ
costs [] = 0
costs (t ∷ stack) = cost t + costs stack

cost-leaves : (t : Tree ℕ) → cost t + 1 ≡ 2 * leaves t
cost-leaves (leaf k n o) = omega arith
cost-leaves (node k n l r) = omega (arith, cost-leaves l, cost-leaves r)

-- Search trees on a stack that will not overflow.
abbrev Stacked : List (Tree ℕ) → Type 0
Stacked [] = Unit {0}
Stacked (t ∷ stack) =
    ((lo : ℕ) × (hi : ℕ) × IsSearch lo hi t) × (length stack + depth t ≤ stack_room) × Stacked stack

depth_pos : (t : Tree ℕ) → 0 < depth t
depth_pos (leaf k n o) = omega arith
depth_pos (node k n l r) = ground (arith, depth_pos l, depth_pos r)

depth-node :
    (k n : ℕ) (l r : Tree ℕ)
    → (depth l + 1 ≤ depth (node k n l r)) × (depth r + 1 ≤ depth (node k n l r))
depth-node k n l r = ground arith

push-done :
    (t : Tree ℕ) (stack : List (Tree ℕ))
    → length stack < stack_room
    → push t stack ≡ done (t ∷ stack)
push-done t stack h = rw (lt→ltb _ _ h)

-- The keys and objects of result_list, and how often `x` is among its nodes.
abbrev pub contents : Results → List (ℕ × Object)
contents [] = []
contents ((n, k, o) ∷ result) = (k, o) ∷ contents result

abbrev pub listed : ℕ → Results → ℕ
listed x [] = 0
listed x ((n, k, o) ∷ result) = is_node x n + listed x result

module _ (a b : ℕ) where
  -- The subtrees pushed give what the node would.
  pub record Followed (l r : Tree ℕ) (stack stack' : List (Tree ℕ)) : Type 0 where
    pub stacked : Stacked stack'
    pub costly : costs stack' ≤ cost l + cost r + costs stack
    pub same : picked a b stack' ≡ picked a b stack ++ select a b (items l ++ items r)

  follow-Followed :
      (k n lo hi : ℕ) (l r : Tree ℕ) (stack : List (Tree ℕ))
      → IsSearch lo k l
      → IsSearch k hi r
      → length stack + depth (node k n l r) ≤ stack_room
      → Stacked stack
      → Ends (Followed l r stack) (follow a b k l r stack)
  unfolding follow
  follow-Followed k n lo hi l r stack sl sr room st =
      let (dl, dr) = depth-node k n l r in
      let pl = depth_pos l in
      let both = select-append a b (items l) (items r) in
      elim (Bool-cases (leb b k)) [
        | inl e ↦
            let none_right = select-outside a b k hi r sr (inr (leb→le _ _ e)) in
            rw (e, push-done l stack (omega arith))
              (ends (record {
                stacked = ((lo, k, sl), omega arith, st);
                costly = omega arith;
                same = rw (both, none_right, append-nil);
              }))
        | inr e ↦ rw e (elim (Bool-cases (leb k a)) [
          | inl e' ↦
              let none_left = select-outside a b lo k l sl (inl (leb→le _ _ e')) in
              rw (e', push-done r stack (omega arith))
                (ends (record {
                  stacked = ((k, hi, sr), omega arith, st);
                  costly = omega arith;
                  same = rw (both, none_left);
                }))
          | inr e' ↦
              rw (e', push-done l stack (omega arith), push-done r (l ∷ stack) (omega arith))
                (ends (record {
                  stacked = ((k, hi, sr), omega arith, ((lo, k, sl), omega arith, st));
                  costly = omega arith;
                  same = rw (both, append_assoc);
                }))
        ])
      ]

  -- What the loop ends with: `wanted` in front of `result`, each in a node of its own.
  pub record Listed (p : Pool) (result : Results) (wanted : List (ℕ × Object)) (s : Results × Pool)
      : Type 0 where
    pub found : contents s.0 ≡ wanted ++ contents result
    pub kept : (x : ℕ) → listed x result + available x p ≤ listed x s.0 + available x s.1
    pub taken : s.1.nodes_taken ≡ p.nodes_taken + length wanted
    pub returned : s.1.nodes_returned ≡ p.nodes_returned

  -- After a part of the keys, the rest of them.
  Listed-trans :
      (p : Pool) (result : Results) (first rest all : List (ℕ × Object)) (s u : Results × Pool)
      → all ≡ rest ++ first
      → Listed p result first s
      → Listed s.1 s.0 rest u
      → Listed p result all u
  Listed-trans p result first rest all s u e l k = record {
    found = k.found ∙ ap (λ ys. rest ++ ys) l.found ∙ rw (e, append_assoc) refl;
    kept = λ x. omega (arith, l.kept x, k.kept x);
    taken = k.taken ∙ ap (λ j. j + length rest) l.taken ∙ rw (e, length-append) (omega arith);
    returned = k.returned ∙ l.returned;
  }

  list_leaf-Listed :
      (m : ℕ → ℕ) (j k n : ℕ) (o : Object) (result : Results) (p : Pool)
      → Supplies m (j + length (select a b ((k, o) ∷ []))) p
      → Ends
          (λ s. Listed p result (select a b ((k, o) ∷ [])) s × Supplies m j s.1)
          (list_leaf m a b k o result p)
  unfolding list_leaf
  list_leaf-Listed m j k n o result p s = elim (Bool-cases (leb a k && ltb k b)) [
    | inl e ↦
        let one : select a b ((k, o) ∷ []) ≡ (k, o) ∷ [] = rw e refl in
        let enough : Supplies m (j + 1) p = subst (λ w. Supplies m (j + length w) p) one s in
        rw e (
          Ends-bind (take_node-Handed m j p enough) λ h g. ends (
            record {
              found = refl;
              kept = λ x. omega (arith, g.kept x);
              taken = g.taken;
              returned = g.returned;
            },
            g.supplies,
          ))
    | inr e ↦
        let zero_more : select a b ((k, o) ∷ []) ≡ [] = rw e refl in
        let enough : Supplies m (j + 0) p = subst (λ w. Supplies m (j + length w) p) zero_more s in
        rw e (
          ends (
            record { found = refl; kept = λ x. omega arith; taken = omega arith; returned = refl },
            subst (λ i. Supplies m i p) (omega arith) enough,
          ))
  ]

  interval_loop-Listed :
      (m : ℕ → ℕ) (fuel : ℕ) (stack : List (Tree ℕ)) (result : Results) (p : Pool)
      → costs stack < fuel
      → Stacked stack
      → Supplies m (length (picked a b stack)) p
      → Ends (Listed p result (picked a b stack)) (interval_loop fuel m a b stack result p)
  unfolding interval_loop
  interval_loop-Listed m zero stack result p h st s = absurd (omega arith)
  interval_loop-Listed m (suc fuel) [] result p h st s =
      ends (record { found = refl; kept = λ x. omega arith; taken = omega arith; returned = refl })
  interval_loop-Listed m (suc fuel) (leaf k n o ∷ stack) result p h (t, room, st) s =
      let first = select a b ((k, o) ∷ []) in
      let rest = picked a b stack in
      let enough = subst (λ j. Supplies m j p) (length-append rest first) s in
      Ends-bind (list_leaf-Listed m (length rest) k n o result p enough) λ u (l, left).
        Ends-mono (interval_loop-Listed m fuel stack u.0 u.1 (omega arith) st left)
          λ v r. Listed-trans p result first rest (rest ++ first) u v refl l r
  interval_loop-Listed m (suc fuel) (node k n l r ∷ stack) result p h ((lo, hi, (sl, sr)), room, st)
        s =
      Ends-bind (follow-Followed k n lo hi l r stack sl sr room st) λ stack' f.
        let enough = subst (λ w. Supplies m (length w) p) (sym f.same) s in
        Ends-mono
          (interval_loop-Listed m fuel stack' result p (omega (arith, f.costly)) f.stacked enough)
          λ u g. subst (λ w. Listed p result w u) f.same g

  -- interval_find of triv_tree.c, on a search tree that is not empty and at most 200 nodes deep,
  -- with fuel for two rounds for each leaf, where get_node gets a node for each key in [a, b),
  -- ends without undefined behaviour, with no overflow of node_stack, in a list of just the keys
  -- in [a, b) and their objects, in the order of the leaves. It takes one node for each from the
  -- pool and gives none back, and no node is lost from the pool and the list.
  pub interval_find-select :
      (m : ℕ → ℕ) (fuel lo hi : ℕ) (t : Tree ℕ) (p : Pool)
      → IsSearch lo hi t
      → depth t ≤ stack_room
      → 2 * leaves t ≤ fuel
      → Supplies m (length (select a b (items t))) p
      → Ends (Listed p [] (select a b (items t))) (interval_find fuel m t a b p)
  unfolding interval_find
  interval_find-select m fuel lo hi t p s room h supply =
      interval_loop-Listed m fuel (t ∷ []) [] p (omega (arith, cost-leaves t))
        ((lo, hi, s), omega arith, tt) supply
