-- ===== src/Books/TrivialTree/Remove.antt =====
-- `remove_tree` of triv_tree.c.
use c_lang_project.Common.Int.{int_bound}
use c_lang_project.Books.TrivialTree.{remove_loop, remove_tree}
use c_lang_project.Lang.Memory.{null}
use c_lang_project.Books.TrivialTree.Operations.{nodes}
use c_lang_project.Books.NodePool.Counts.{available, take_back-available, return_node-done}
use c_lang_project.Books.SearchTree.{Tree, leaf, leaves, node}
use c_lang_project.Books.NodePool.{Pool, take_back}
use c_lang_project.Lang.Result.{Ends, Ends-mono, ends}
use c_lang_project.Common.{◌*◌, ◌+◌, ◌==◌, Bool-cases, arith, inl, inr, suc, zero, ℕ, ◌≡◌, ◌≤◌}

abbrev inner : Tree ℕ → ℕ
inner (leaf k n o) = 0
inner (node k n l r) = 1 + inner l + inner r

-- A round either takes a leaf and a node away or makes the way to the right longer by one.
abbrev rounds : Tree ℕ → ℕ
rounds (leaf k n o) = 1
rounds (node k n l r) = 1 + 2 * inner l + rounds r

rounds-le : (t : Tree ℕ) → (rounds t ≤ 2 * leaves t) × (inner t + 1 ≡ leaves t)
rounds-le (leaf k n o) = omega arith
rounds-le (node k n l r) = omega (arith, rounds-le l, rounds-le r)

leaves_pos : (t : Tree ℕ) → 1 ≤ leaves t
leaves_pos (leaf k n o) = omega arith
leaves_pos (node k n l r) = omega (arith, leaves_pos l)

remove_loop-available :
    (fuel : ℕ) (t : Tree ℕ) (p : Pool)
    → rounds t ≤ fuel
    → p.nodes_returned + 2 * leaves t ≤ int_bound
    → Ends (λ p'. (x : ℕ) → available x p' ≡ nodes x t + available x p) (remove_loop fuel t p)
unfolding remove_loop
remove_loop-available zero (leaf k n o) p h room = absurd (omega arith)
remove_loop-available zero (node k n l r) p h room = absurd (omega arith)
remove_loop-available (suc fuel) (leaf k n o) p h room =
    rw (return_node-done n p (omega arith)) (ends (λ x. take_back-available n x p))
remove_loop-available (suc fuel) (node k n (leaf kl nl o) r) p h room =
    let some_leaf = leaves_pos r in
    rw (return_node-done nl p (omega arith), return_node-done n (take_back nl p) (omega arith))
      (Ends-mono
        (remove_loop-available fuel r (take_back n (take_back nl p)) (omega arith) (omega arith))
        λ p' e x.
          omega (arith, e x, take_back-available n x (take_back nl p), take_back-available nl x p))
remove_loop-available (suc fuel) (node k n (node kl nl a b) r) p h room =
    Ends-mono
      (remove_loop-available fuel (node kl nl a (node k n b r)) p (omega arith) (omega arith))
      λ p' e x. omega (arith, e x)

-- remove_tree of triv_tree.c, with fuel for two rounds for each leaf, where return_node can count
-- as many calls as the tree has nodes without overflow, ends, and then the pool has each node as
-- often as the pool and the tree had it before.
pub remove_tree-available :
    (fuel : ℕ) (t : Tree ℕ) (p : Pool)
    → 2 * leaves t ≤ fuel
    → p.nodes_returned + 2 * leaves t ≤ int_bound
    → Ends (λ p'. (x : ℕ) → available x p' ≡ nodes x t + available x p) (remove_tree fuel t p)
unfolding remove_tree
remove_tree-available fuel (leaf k n o) p h room = elim (Bool-cases (o == null)) [
  | inl e ↦ rw (e, return_node-done n p (omega arith)) (ends (λ x. take_back-available n x p))
  | inr e ↦ rw e (remove_loop-available fuel (leaf k n o) p (omega arith) room)
]
remove_tree-available fuel (node k n l r) p h room =
    remove_loop-available fuel (node k n l r) p (omega (arith, rounds-le l, rounds-le r)) room
