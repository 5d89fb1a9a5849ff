-- ===== src/Books/SplayTree/Find.antt =====
-- `find` of spla_tree.c.
use c_lang_project.Books.SplayTree.Descend.{Placed, Stopped, descend-Stopped, levels, placed}
use c_lang_project.Common.Int.{int_bound}
use c_lang_project.Books.NodePool.{Pool, take_back}
use c_lang_project.Books.NodePool.Counts.{
  Supplies, available, occurs, return_node-done, take_back-available,
}
use c_lang_project.Lang.Memory.{null}
use c_lang_project.DataStructs.ListRep.{Object}
use c_lang_project.Books.SplayTree.Keys.{IsRooted, IsSearch, Moved, lookup, rooted, splay-Splayed}
use c_lang_project.Books.SplayTree.{
  Frame, Tree, find, find_found, nil, node, root_object, return_nodes,
}
use c_lang_project.Common.{
  ◌==◌, ==-false, ==-true, List, [], ◌^◌, arith, if◌then◌else◌, inl, inr, refl, subst, sym, ℕ, ◌∙◌,
  ◌∷◌, ◌≡◌, ◌⊎◌, ◌+◌, ◌<◌, length, ◌≤◌,
}
use native.Mathlib.Decide.{ℕ_discrete}
use c_lang_project.Lang.Result.{◌>>=◌, Ends, Ends-bind, done, ends, Ends-mono}

abbrev pub max_key : ℕ
max_key = 2 ^ 32

-- A tree behind a pointer that is not NULL: the empty one, or one in order.
abbrev pub IsSplay : Tree → Type 0
IsSplay nil = ⊥
IsSplay (node k o l r) = (o ≡ null) ⊎ IsSearch 0 max_key (node k o l r)

-- The object at a key; the empty tree has none.
abbrev pub get : Tree → ℕ → Object
get nil q = null
get (node k o l r) q = if o == null then null else lookup (node k o l r) q

pub get-lookup : (a b : ℕ) (t : Tree) (q : ℕ) → IsSearch a b t → get t q ≡ lookup t q
unfolding lookup
get-lookup a b nil q s = refl
get-lookup a b (node k o l r) q s = rw (==-false o null s.2) refl

pub get-empty : (k : ℕ) (o : Object) (l r : Tree) (q : ℕ) → o ≡ null → get (node k o l r) q ≡ null
get-empty k o l r q e = rw (==-true o null e) refl

-- The stack is back in the pool.
pub record Returned (ss : List ℕ) (p p' : Pool) : Type 0 where
  pub kept : (x : ℕ) → available x p' ≡ occurs x ss + available x p
  pub taken : p'.nodes_taken ≡ p.nodes_taken
  pub counted : p'.nodes_returned ≡ p.nodes_returned + length ss

return_nodes-Returned :
    (ss : List ℕ) (p : Pool)
    → p.nodes_returned + length ss < int_bound
    → Ends (Returned ss p) (return_nodes ss p)
unfolding return_nodes
return_nodes-Returned [] p room =
    ends (record { kept = λ x. omega arith; taken = refl; counted = omega arith })
return_nodes-Returned (s ∷ ss) p room = rw (return_node-done s p (omega arith)) (
    Ends-mono (return_nodes-Returned ss (take_back s p) (omega arith)) λ p' r. record {
      kept = λ x. omega (arith, r.kept x, take_back-available s x p);
      taken = r.taken;
      counted = omega (arith, r.counted);
    })

-- Where the key is found, every node that `find` took is back, and no node is lost.
abbrev pub Settled : Pool → Pool → Type 0
Settled p p' =
    (p'.nodes_taken + p.nodes_returned ≡ p.nodes_taken + p'.nodes_returned)
    × ((x : ℕ) → available x p ≤ available x p')

-- What `find` answers and leaves.
abbrev pub Found : Tree → ℕ → Pool → Object × Tree × Pool → Type 0
Found t q p (out, t', p') =
    (out ≡ get t q)
    × IsSplay t'
    × ((j : ℕ) → get t' j ≡ get t j)
    × ((out ≡ null) × (p'.nodes_returned ≡ p.nodes_returned) ⊎ IsRooted q out t' × Settled p p')

splayed-Found :
    (t : Tree) (q : ℕ) (o : Object) (u : Tree) (p p' : Pool)
    → IsSearch 0 max_key t
    → o ≡ get t q
    → IsRooted q o u
    → Moved t u
    → Settled p p'
    → Ends (Found t q p) (root_object u >>= λ o'. done (o', u, p'))
splayed-Found t q o _ p p' s e (rooted l r) m settled = ends (
  e,
  inr (m.search 0 max_key s),
  (λ j.
      get-lookup 0 max_key (node q o l r) j (m.search 0 max_key s)
      ∙ m.same 0 max_key s j
      ∙ sym (get-lookup 0 max_key t j s)),
  inr (rooted l r, settled),
)

find_found-Found :
    (t : Tree) (q : ℕ) (p : Pool) (n : ℕ) (fs : List Frame) (cur : Tree) (ss : List ℕ) (p1 : Pool)
    → IsSearch 0 max_key t
    → IsSplay t
    → p.nodes_returned + n < int_bound
    → Stopped q t (lookup t q) n [] p (record { path = fs; current = cur; stack = ss; pool = p1 })
    → Placed q t (lookup t q) fs cur
    → Ends (Found t q p) (find_found t q fs cur ss p1)
unfolding find_found
find_found-Found t q p n fs _ ss p1 s v room d (placed k o l r whole here missing) =
    elim (ℕ_discrete k q) [
      | yes e ↦ rw (==-true k q e) (
          let deep = d.deep in
          let back = d.returned in
          Ends-bind (splay-Splayed k o fs l r) λ u sp.
            Ends-bind (return_nodes-Returned ss p1 (omega arith)) λ p' ret.
              splayed-Found t q o u p p' s (here e ∙ sym (get-lookup 0 max_key t q s))
                (subst (λ j. IsRooted j o u) e sp.root) (subst (λ z. Moved z u) whole sp.moved)
                (
                  omega (arith, d.taken, d.returned, ret.taken, ret.counted),
                  λ x. omega (arith, d.kept x, ret.kept x),
                ))
      | no ne ↦ rw (==-false k q ne) (
          ends
            (sym (get-lookup 0 max_key t q s ∙ missing ne), v, (λ j. refl), inl (refl, d.returned)))
    ]

-- find of spla_tree.c, in a tree that is empty or in order with distinct keys, where get_node gets
-- a node for each level of the tree and return_node can count as many calls, ends without
-- undefined behaviour; it hands out the object at the key, or NULL where the key is not there, and
-- leaves a tree that is empty or in order, in which every key has the object it had. An object
-- that was found lies at the root, and then as many nodes went back to the pool as were taken from
-- it, and none is lost; otherwise no node goes back.
pub find-Found :
    (m : ℕ → ℕ) (t : Tree) (q : ℕ) (p : Pool)
    → IsSplay t
    → Supplies m (levels t) p
    → p.nodes_returned + levels t < int_bound
    → Ends (Found t q p) (find m t q p)
unfolding find
find-Found m nil q p v supply room = absurd v
find-Found m (node k o l r) q p (inl e) supply room =
    let answer : null ≡ get (node k o l r) q = sym (get-empty k o l r q e) in
    let left : Found (node k o l r) q p (null, node k o l r, p) =
      (answer, inl e, (λ j. refl), inl (refl, refl)) in
    rw (==-true o null e) (ends left)
find-Found m (node k o l r) q p (inr s) supply room =
    let t : Tree = node k o l r in
    let step = Ends-bind (descend-Stopped m q t [] [] p refl supply) λ d st.
      find_found-Found t q p (levels t) d.path d.current d.stack d.pool s (inr s) room st
        st.place in
    rw (==-false o null s.2) step
