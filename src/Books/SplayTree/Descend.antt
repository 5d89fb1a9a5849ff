-- ===== src/Books/SplayTree/Descend.antt =====
-- The first loop of `find` of spla_tree.c.
use c_lang_project.Lang.Memory.{null}
use c_lang_project.Books.SplayTree.Keys.{lookup}
use c_lang_project.Books.NodePool.{Pool}
use c_lang_project.DataStructs.ListRep.{Object}
use c_lang_project.Books.NodePool.Counts.{
  Handed, Supplies, Supplies-weaken, available, occurs, take_node-Handed,
}
use c_lang_project.Books.SplayTree.{
  Descent, Frame, Tree, descend, is_nil, nil, node, plug, went_left, went_right,
}
use c_lang_project.Common.{
  ◌+◌, ◌-◌, ◌<◌, Bool-cases, List, arith, false, if◌then◌else◌, inl, inr, length, le→ltb, ltb,
  lt→ltb, refl, true, ℕ, ◌∙◌, ◌∷◌, ◌≡◌, ◌≤◌,
}
use c_lang_project.Lang.Result.{Ends, Ends-bind, Ends-mono, ends}
use native.Mathlib.Decide.{dec_lt}

lookup-nil : (t : Tree) (q : ℕ) → is_nil t ≡ true → lookup t q ≡ null
unfolding lookup
lookup-nil nil q e = refl
lookup-nil (node k o l r) q e = cc

-- `found` is the object at the key.
pub data Placed (q : ℕ) (whole : Tree) (found : Object) (fs : List Frame) : Tree → Type 0 where
  placed :
      (k : ℕ) (o : Object) (l r : Tree)
      → plug fs (node k o l r) ≡ whole
      → (k ≡ q → o ≡ found)
      → (¬ (k ≡ q) → found ≡ null)
      → Placed q whole found fs (node k o l r)

abbrev pub levels : Tree → ℕ
levels nil = 0
levels (node k o l r) = if ltb (levels l) (levels r) then levels r + 1 else levels l + 1

levels-node :
    (k : ℕ) (o : Object) (l r : Tree)
    → (levels l + 1 ≤ levels (node k o l r)) × (levels r + 1 ≤ levels (node k o l r))
levels-node k o l r = ground arith

-- Where the first loop of `find` ends: at the key, or where it is not in the tree. `ss` and `p` are
-- the stack and the pool before, and `n` is the number of levels that are left.
pub record Stopped (q : ℕ) (whole : Tree) (found : Object) (n : ℕ) (ss : List ℕ) (p : Pool)
    (d : Descent) : Type 0 where
  pub place : Placed q whole found d.path d.current
  pub deep : length d.stack ≤ length ss + n
  pub kept : (x : ℕ) → occurs x ss + available x p ≤ occurs x d.stack + available x d.pool
  pub taken : d.pool.nodes_taken + length ss ≡ p.nodes_taken + length d.stack
  pub returned : d.pool.nodes_returned ≡ p.nodes_returned

module _ (m : ℕ → ℕ) (q : ℕ) where
  -- The loop stops in the round that takes the node `s.0`.
  stop :
      (whole : Tree) (found : Object) (n i k : ℕ) (o : Object) (l r : Tree) (fs : List Frame)
      (ss : List ℕ) (p : Pool) (s : ℕ × Pool)
      → 0 < n
      → Handed m i p s
      → Placed q whole found fs (node k o l r)
      → Stopped q whole found n ss p
          (record { path = fs; current = node k o l r; stack = s.0 ∷ ss; pool = s.1 })
  stop whole found n i k o l r fs ss p s some_level h place = record {
    place = place;
    deep = omega arith;
    kept = λ x. omega (arith, h.kept x);
    taken = omega (arith, h.taken);
    returned = h.returned;
  }

  -- The loop goes on in the round that takes the node `s.0`.
  go_on :
      (whole : Tree) (found : Object) (n n' i : ℕ) (ss : List ℕ) (p : Pool) (s : ℕ × Pool)
      (d : Descent)
      → n' + 1 ≤ n
      → Handed m i p s
      → Stopped q whole found n' (s.0 ∷ ss) s.1 d
      → Stopped q whole found n ss p d
  go_on whole found n n' i ss p s d less h r = record {
    place = r.place;
    deep = omega (arith, r.deep);
    kept = λ x. omega (arith, h.kept x, r.kept x);
    taken = omega (arith, h.taken, r.taken);
    returned = r.returned ∙ h.returned;
  }

  pub descend-Stopped :
      (t : Tree) (fs : List Frame) (ss : List ℕ) (p : Pool)
      → is_nil t ≡ false
      → Supplies m (levels t) p
      → Ends (Stopped q (plug fs t) (lookup t q) (levels t) ss p) (descend m q t fs ss p)
  unfolding descend lookup
  descend-Stopped nil fs ss p e supply = cc
  descend-Stopped (node k o l r) fs ss p e supply =
      let t : Tree = node k o l r in
      let (left, right) = levels-node k o l r in
      let n = levels t in
      Ends-bind
        (take_node-Handed m (n - 1) p (Supplies-weaken m (n - 1 + 1) n p (omega arith) supply))
        λ s h. elim (dec_lt q k) [
          | yes less ↦ elim (Bool-cases (is_nil l)) [
            | inl end ↦
                rw (lt→ltb q k less, end, le→ltb k q (omega arith))
                  (ends (
                    stop (plug fs t) _ n (n - 1) k o l r fs ss p s (omega arith) h (
                      placed k o l r refl (λ same. absurd (omega arith))
                        (λ _. lookup-nil l q end))))
            | inr more ↦
                rw (lt→ltb q k less, more)
                  (Ends-mono
                    (descend-Stopped l (went_left k o r ∷ fs) (s.0 ∷ ss) s.1 more
                      (Supplies-weaken m (levels l) (n - 1) s.1 (omega arith) h.supplies))
                    λ d. go_on (plug fs t) _ n (levels l) (n - 1) ss p s d left h)
          ]
          | no not_less ↦ elim (dec_lt k q) [
            | yes greater ↦ elim (Bool-cases (is_nil r)) [
              | inl end ↦
                  rw (le→ltb q k (omega arith), lt→ltb k q greater, end)
                    (ends (
                      stop (plug fs t) _ n (n - 1) k o l r fs ss p s (omega arith) h (
                        placed k o l r refl (λ same. absurd (omega arith))
                          (λ _. lookup-nil r q end))))
              | inr more ↦
                  rw (le→ltb q k (omega arith), lt→ltb k q greater, more)
                    (Ends-mono
                      (descend-Stopped r (went_right k o l ∷ fs) (s.0 ∷ ss) s.1 more
                        (Supplies-weaken m (levels r) (n - 1) s.1 (omega arith) h.supplies))
                      λ d. go_on (plug fs t) _ n (levels r) (n - 1) ss p s d right h)
            ]
            | no not_greater ↦
                rw (le→ltb q k (omega arith), le→ltb k q (omega arith))
                  (ends (
                    stop (plug fs t) _ n (n - 1) k o l r fs ss p s (omega arith) h
                      (placed k o l r refl (λ same. refl) (λ other. absurd (other (omega arith))))))
          ]
        ]
