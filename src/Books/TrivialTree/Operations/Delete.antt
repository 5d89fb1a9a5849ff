-- ===== src/Books/TrivialTree/Operations/Delete.antt =====
-- `delete` of triv_tree.c.
use c_lang_project.Common.Int.{int_bound}
use c_lang_project.Lang.Memory.{null}
use c_lang_project.Books.NodePool.Counts.{available, is_node, take_back-available, return_node-done}
use c_lang_project.Lang.Array.{count}
use c_lang_project.Books.TrivialTree.{State, address, copy_to, find_iterative, delete, delete_found}
use c_lang_project.Books.NodePool.{Pool, return_node, take_back}
use c_lang_project.Lang.Result.{◌>>=◌}
use c_lang_project.Books.SearchTree.Paths.{
  here, left_of, right_of, Way, lookup-plug, lookup-plug_inside, plug-IsSearch, Reached,
  descend-Reached,
}
use c_lang_project.DataStructs.ListRep.{Object}
use c_lang_project.Books.TrivialTree.Operations.{
  IsSearchTree, find_iterative-lookup, nodes, nodes-plug,
}
use c_lang_project.Books.SearchTree.{
  Frame, IsSearch, IsSearch-widen, Tree, if-absent, leaf, lookup, max_key, node, plug, Found,
  descend, lookup-outside, lt_of_IsSearch, emptied,
}
use c_lang_project.Lang.Result.{Ends, done, ends}
use c_lang_project.Common.{
  ◌+◌, ◌<◌, ◌==◌, ==-false, ==-true, List, arith, if◌then◌else◌, inr, refl, sym, ℕ, ◌∙◌, ◌≡◌, ◌≤◌,
  [], inl, le→ltb, lt→ltb, subst, ◌∷◌,
}
use native.Mathlib.Decide.{ℕ_discrete}

-- What `delete` answers and leaves.
pub record Deleted (t : Tree ℕ) (k : ℕ) (p : Pool) (s : State Object) : Type 0 where
  pub found : s.answer ≡ find_iterative t k
  pub valid : IsSearchTree s.tree
  pub removed :
      (q : ℕ)
      → q < max_key
      → find_iterative s.tree q ≡ (if k == q then null else find_iterative t q)
  pub kept : (x : ℕ) → nodes x s.tree + available x s.pool ≡ nodes x t + available x p

copy_to-IsSearch :
    (n a b a' b' : ℕ) (t : Tree ℕ) → a' ≤ a → b ≤ b' → IsSearch a b t → IsSearch a' b' (copy_to n t)
copy_to-IsSearch n a b a' b' (leaf k i o) l h s =
    IsSearch-widen {I = ℕ} a b a' b' (leaf k n o) l h s
copy_to-IsSearch n a b a' b' (node k i t u) l h s = IsSearch-widen a b a' b' (node k n t u) l h s

lookup-copy_to : (n : ℕ) (t : Tree ℕ) (q : ℕ) → lookup (copy_to n t) q ≡ lookup t q
unfolding lookup
lookup-copy_to n (leaf k i o) q = refl
lookup-copy_to n (node k i t u) q = refl

nodes-copy_to :
    (x n : ℕ) (t : Tree ℕ) → nodes x (copy_to n t) + is_node x (address t) ≡ nodes x t + is_node x n
nodes-copy_to x n (leaf k i o) = omega arith
nodes-copy_to x n (node k i t u) = omega arith

-- Nothing is deleted.
nothing-Deleted :
    (t : Tree ℕ) (k : ℕ) (p : Pool)
    → IsSearchTree t
    → find_iterative t k ≡ null
    → Deleted t k p (record { answer = null; tree = t; pool = p })
nothing-Deleted t k p v absent = record {
  found = sym absent;
  valid = v;
  removed = λ q _. if-absent (find_iterative t) k q absent;
  kept = λ x. refl;
}

-- Before, a node over `gone` and `stays` was at the end of the way, and now a copy of `stays` is.
module _ (k : ℕ) (p : Pool) (fs : List (Frame ℕ)) (a b : ℕ) (full : Tree ℕ)
    (way : Way {I = ℕ} 0 max_key fs a b) (l : a ≤ k) (h : k < b) (s : IsSearch a b full)
    (room : p.nodes_returned + 2 < int_bound) where
  delete_test-Deleted :
      (n nf key : ℕ) (o : Object) (stays : Tree ℕ)
      → IsSearch a b (copy_to nf stays)
      → lookup full k ≡ (if key == k then o else null)
      → (key ≡ k → (q : ℕ) → lookup stays q ≡ (if k == q then null else lookup full q))
      → ((x : ℕ) → nodes x full ≡ is_node x nf + is_node x n + nodes x stays)
      → Ends (Deleted (plug fs full) k p) (
          if key == k
          then (return_node n p >>= λ p'. return_node (address stays) p' >>= λ p''.
              done (record { answer = o; tree = plug fs (copy_to nf stays); pool = p'' }))
          else done (record { answer = null; tree = plug fs full; pool = p }))
  delete_test-Deleted n nf key o stays su at_k same count =
      let at =
        find_iterative-lookup (plug fs full) k
        ∙ lookup-plug_inside 0 max_key full k way l h
        ∙ at_k in
      elim (ℕ_discrete key k) [
        | yes e ↦
            rw
              (
                ==-true _ _ e,
                return_node-done n p (omega arith),
                return_node-done (address stays) (take_back n p) (omega arith),
              )
              (ends (record {
                found = sym (at ∙ rw (==-true _ _ e));
                valid = inr (plug-IsSearch 0 max_key (copy_to nf stays) way su);
                removed = λ q small.
                    rw
                      (
                        find_iterative-lookup (plug fs (copy_to nf stays)) q,
                        find_iterative-lookup (plug fs full) q,
                      )
                      (lookup-plug 0 max_key (λ q u v. v ≡ (if k == q then null else u)) full
                        (copy_to nf stays) way (λ q out o. rw (==-false k q (ground arith)))
                        (λ q _ _. lookup-copy_to nf stays q ∙ same e q) q (omega arith) small);
                kept = λ x. omega (
                  arith,
                  nodes-plug x fs (copy_to nf stays),
                  nodes-plug x fs full,
                  count x,
                  nodes-copy_to x nf stays,
                  take_back-available (address stays) x (take_back n p),
                  take_back-available n x p,
                );
              }))
        | no ne ↦ rw (==-false _ _ ne) (
            ends (
              nothing-Deleted (plug fs full) k p (inr (plug-IsSearch 0 max_key full way s))
                (at ∙ rw (==-false _ _ ne))))
      ]

module _ (k : ℕ) (p : Pool) (key n : ℕ) (o : Object) (room : p.nodes_returned + 2 < int_bound) where
  delete_found-Deleted :
      (fs : List (Frame ℕ)) (f : Frame ℕ) {a b : ℕ}
      → Way {I = ℕ} 0 max_key (f ∷ fs) a b
      → a ≤ k
      → k < b
      → IsSearch {I = ℕ} a b (leaf key n o)
      → Ends
          (Deleted (plug (f ∷ fs) (leaf key n o)) k p)
          (delete_found (plug (f ∷ fs) (leaf key n o)) k p (f ∷ fs) key n o)
  unfolding delete_found lookup
  delete_found-Deleted fs f (left_of {a = a} {b = b} {k = k'} {i = i} {r = r} way sr) l h s =
      let lt = lt_of_IsSearch k' b r sr in
      delete_test-Deleted k p fs a b (node k' i (leaf key n o) r) way l (omega arith) (s, sr) room n
        i key o r (copy_to-IsSearch i k' b a b r (omega arith) (omega arith) sr)
        (rw (lt→ltb k k' h)) (λ e q. ground (arith, lookup-outside k' b r q sr)) (λ x. omega arith)
  delete_found-Deleted fs f (right_of {a = a} {b = b} {k = k'} {i = i} {l = u} way su) l h s =
      let lt = lt_of_IsSearch a k' u su in
      delete_test-Deleted k p fs a b (node k' i u (leaf key n o)) way (omega arith) h (su, s) room n
        i key o u (copy_to-IsSearch i a k' a b u (omega arith) (omega arith) su)
        (rw (le→ltb k k' l)) (λ e q. ground (arith, lookup-outside a k' u q su)) (λ x. omega arith)

  delete_below-Deleted :
      (fs : List (Frame ℕ)) (a b k' n' : ℕ) (l r : Tree ℕ)
      → Way {I = ℕ} 0 max_key fs a b
      → a ≤ k
      → k < b
      → IsSearch {I = ℕ} a b (leaf key n o)
      → plug fs (leaf key n o) ≡ node k' n' l r
      → Ends (Deleted (node k' n' l r) k p) (delete_found (node k' n' l r) k p fs key n o)
  delete_below-Deleted [] a b k' n' l r way low high s e = cc
  delete_below-Deleted (f ∷ fs) a b k' n' l r way low high s e =
      subst (λ u. Ends (Deleted u k p) (delete_found u k p (f ∷ fs) key n o)) e
        (delete_found-Deleted fs f way low high s)

find-leaf :
    (key n : ℕ) (o : Object) (q : ℕ)
    → find_iterative (leaf key n o) q ≡ (if key == q then o else null)
unfolding lookup
find-leaf key n o q = find_iterative-lookup (leaf key n o) q

delete_leaf-Deleted :
    (key n k : ℕ) (o : Object) (p : Pool)
    → IsSearchTree (leaf key n o)
    → Ends (Deleted (leaf key n o) k p) (delete (leaf key n o) k p)
unfolding delete
delete_leaf-Deleted key n k o p v = elim (ℕ_discrete o null) [
  | yes e ↦
      rw (==-true _ _ e)
        (ends (nothing-Deleted (leaf key n o) k p v (find-leaf key n o k ∙ ground arith)))
  | no ne ↦ rw (==-false _ _ ne) (elim (ℕ_discrete key k) [
    | yes e ↦ rw (==-true _ _ e) (
        ends (record {
          found = sym (find-leaf key n o k ∙ rw (==-true _ _ e));
          valid = inl refl;
          removed = λ q _. rw (find-leaf key n null q, find-leaf key n o q) (emptied key k o q e);
          kept = λ x. refl;
        }))
    | no ne' ↦
        rw (==-false _ _ ne') (
          ends (nothing-Deleted (leaf key n o) k p v (find-leaf key n o k ∙ rw (==-false _ _ ne'))))
  ])
]

-- delete of triv_tree.c, with a key that is an int, where return_node can count two more calls
-- without overflow, from a search tree or the empty tree, ends without undefined behaviour in such
-- a tree; it hands out what was found at the key, then nothing is found there and the old object
-- at every other key, and each node is in the tree and the pool together as often as before.
pub delete-IsSearchTree :
    (t : Tree ℕ) (k : ℕ) (p : Pool)
    → IsSearchTree t
    → k < max_key
    → p.nodes_returned + 2 < int_bound
    → Ends (Deleted t k p) (delete t k p)
unfolding delete
delete-IsSearchTree (leaf key n o) k p v small room = delete_leaf-Deleted key n k o p v
delete-IsSearchTree (node key n l r) k p (inl e) small room = cc
delete-IsSearchTree (node key n l r) k p (inr s) small room =
    reached (descend k (node key n l r) [])
      (descend-Reached 0 max_key k (node key n l r) [] here s (omega arith) small)
  where
    reached :
        (f : Found ℕ)
        → Reached 0 max_key k (node key n l r) f
        → Ends
            (Deleted (node key n l r) k p)
            (delete_found (node key n l r) k p f.path f.key f.info f.object)
    reached f reach =
        delete_below-Deleted k p f.key f.info f.object room f.path reach.low reach.high key n l r
          reach.way reach.after reach.before reach.there reach.whole
