-- ===== src/Books/NodePool/Counts.antt =====
-- How often a node can be had from the pool, and when a call gets one.

use native.Mathlib.Decide.{ℕ_discrete}
use c_lang_project.Lang.Memory.{null}
use c_lang_project.Lang.Result.{Ends, done, ends}
use c_lang_project.Books.NodePool.{
  Pool, block_size, hand_out, next_node, take_back, from_free, get_node, int_bound, return_node,
  take_node,
}
use c_lang_project.Common.{
  ◌+◌, ◌==◌, List, [], arith, if◌then◌else◌, ltb, ◌||◌, ℕ, ◌∷◌, ◌≡◌, ◌-◌, ==-false, ==-true,
  Bool-cases, inl, inr, ◌≢◌, ◌<◌, lt→ltb, refl, ◌≤◌,
}

abbrev pub is_node : ℕ → ℕ → ℕ
is_node x n = if n == x then 1 else 0

-- How often `x` is among the `size` nodes from `start` on.
abbrev pub in_block : ℕ → ℕ → ℕ → ℕ
in_block x start size = if ltb x start then 0 else if ltb x (start + size) then 1 else 0

abbrev pub occurs : ℕ → List ℕ → ℕ
occurs x [] = 0
occurs x (n ∷ ns) = is_node x n + occurs x ns

-- How often the pool can hand `x` out without malloc.
abbrev pub available : ℕ → Pool → ℕ
available x p = occurs x p.free + (if p.block == null then 0 else in_block x p.block p.size_left)

-- The nodes that malloc adds.
abbrev pub added : ℕ → ℕ → List ℕ → Pool → ℕ
added x fresh [] p = if p.block == null || p.size_left == 0 then in_block x fresh block_size else 0
added x fresh (n ∷ free) p = 0

in_block-suc :
    (x start size : ℕ) → is_node x start + in_block x (start + 1) size ≡ in_block x start (size + 1)
in_block-suc x start size = ground arith

in_block-zero : (x start size : ℕ) → size ≡ 0 → in_block x start size ≡ 0
in_block-zero x start size e = ground arith

in_block-pred :
    (x start size : ℕ)
    → size ≢ 0
    → is_node x start + in_block x (start + 1) (size - 1) ≡ in_block x start size + 0
in_block-pred x start size left = ground arith

-- The nodes left of the block.
abbrev pub in_rest : ℕ → ℕ → ℕ → ℕ
in_rest x block size = if block == null then 0 else in_block x block size

in_rest-suc : (x block size : ℕ) → in_rest x (block + 1) size ≡ in_block x (block + 1) size
in_rest-suc x block size = rw (==-false (block + 1) null (omega arith))

next_node-available :
    (fresh x : ℕ) (p : Pool)
    → is_node x (next_node fresh p).0
        + in_rest x (next_node fresh p).1.block (next_node fresh p).1.size_left
      ≡ in_rest x p.block p.size_left
        + (if p.block == null || p.size_left == 0 then in_block x fresh block_size else 0)
next_node-available fresh x p = elim (ℕ_discrete p.block null) [
  | yes e ↦ rw (==-true _ _ e, in_rest-suc x fresh 255) (omega (arith, in_block-suc x fresh 255))
  | no ne ↦ rw (==-false _ _ ne) (elim (ℕ_discrete p.size_left 0) [
    | yes e ↦
        rw (==-true _ _ e, in_rest-suc x fresh 255, in_block-zero x p.block p.size_left e)
          (omega (arith, in_block-suc x fresh 255))
    | no left ↦
        rw (==-false _ _ left, in_rest-suc x p.block (p.size_left - 1))
          (in_block-pred x p.block p.size_left left)
  ])
]

next_node-free : (x fresh : ℕ) (p : Pool) → occurs x (next_node fresh p).1.free ≡ occurs x p.free
next_node-free x fresh p = elim (Bool-cases (p.block == null || p.size_left == 0)) [
  | inl e ↦ rw e
  | inr e ↦ rw e
]

-- hand_out takes just the node that it answers with.
pub hand_out-available :
    (fresh x : ℕ) (p : Pool)
    → is_node x (hand_out fresh p).0 + available x (hand_out fresh p).1
      ≡ available x p + added x fresh p.free p
unfolding hand_out
hand_out-available fresh x p = by_list p.free
  where
    by_list :
        (free : List ℕ)
        → is_node x (from_free fresh free (record p { nodes_taken = p.nodes_taken + 1 })).0
            + available x (from_free fresh free (record p { nodes_taken = p.nodes_taken + 1 })).1
          ≡ occurs x free + in_rest x p.block p.size_left + added x fresh free p
    by_list [] = omega (
      arith,
      next_node-available fresh x (record p { free = []; nodes_taken = p.nodes_taken + 1 }),
      next_node-free x fresh (record p { free = []; nodes_taken = p.nodes_taken + 1 }),
    )
    by_list (n ∷ free) = omega arith

pub take_back-available :
    (n x : ℕ) (p : Pool) → available x (take_back n p) ≡ is_node x n + available x p
take_back-available n x p = omega arith

pub get_node-done :
    (fresh : ℕ) (p : Pool)
    → p.nodes_taken + 1 < int_bound
    → get_node fresh p ≡ done (hand_out fresh p)
unfolding get_node
get_node-done fresh p room = rw (lt→ltb _ _ room)

pub return_node-done :
    (n : ℕ) (p : Pool) → p.nodes_returned + 1 < int_bound → return_node n p ≡ done (take_back n p)
unfolding return_node
return_node-done n p room = rw (lt→ltb _ _ room)

pub hand_out-nodes_taken :
    (fresh : ℕ) (p : Pool) → (hand_out fresh p).1.nodes_taken ≡ p.nodes_taken + 1
unfolding hand_out
hand_out-nodes_taken fresh p = by_list p.free
  where
    by_list :
        (free : List ℕ)
        → (from_free fresh free (record p { nodes_taken = p.nodes_taken + 1 })).1.nodes_taken
          ≡ p.nodes_taken + 1
    by_list [] = elim (Bool-cases (p.block == null || p.size_left == 0)) [
      | inl e ↦ rw e
      | inr e ↦ rw e
    ]
    by_list (n ∷ free) = refl

pub hand_out-nodes_returned :
    (fresh : ℕ) (p : Pool) → (hand_out fresh p).1.nodes_returned ≡ p.nodes_returned
unfolding hand_out
hand_out-nodes_returned fresh p = by_list p.free
  where
    by_list :
        (free : List ℕ)
        → (from_free fresh free (record p { nodes_taken = p.nodes_taken + 1 })).1.nodes_returned
          ≡ p.nodes_returned
    by_list [] = elim (Bool-cases (p.block == null || p.size_left == 0)) [
      | inl e ↦ rw e
      | inr e ↦ rw e
    ]
    by_list (n ∷ free) = refl

-- The next `k` calls of get_node get a node.
pub record Supplies (m : ℕ → ℕ) (k : ℕ) (p : Pool) : Type 0 where
  pub room : p.nodes_taken + k < int_bound
  pub no_null : occurs null p.free ≡ 0
  pub granted : (i : ℕ) → m i ≢ null

next_node-some : (fresh : ℕ) (p : Pool) → fresh ≢ null → (next_node fresh p).0 ≢ null
next_node-some fresh p some_block = elim (ℕ_discrete p.block null) [
  | yes e ↦ rw (==-true _ _ e) some_block
  | no ne ↦
      rw (==-false _ _ ne)
        (elim (Bool-cases (p.size_left == 0)) [ inl e ↦ rw e some_block | inr e ↦ rw e ne ])
]

hand_out-some :
    (fresh : ℕ) (p : Pool)
    → fresh ≢ null
    → occurs null p.free ≡ 0
    → ((hand_out fresh p).0 ≢ null) × (occurs null (hand_out fresh p).1.free ≡ 0)
unfolding hand_out
hand_out-some fresh p some_block no_null = by_list p.free no_null
  where
    by_list :
        (free : List ℕ)
        → occurs null free ≡ 0
        → ((from_free fresh free (record p { nodes_taken = p.nodes_taken + 1 })).0 ≢ null)
          × (occurs null
                (from_free fresh free (record p { nodes_taken = p.nodes_taken + 1 })).1.free
              ≡ 0)
    by_list [] no_null =
        let q : Pool = record p { free = []; nodes_taken = p.nodes_taken + 1 } in
        (next_node-some fresh q some_block, next_node-free null fresh q)
    by_list (n ∷ free) no_null = ground arith

-- A node that the pool has handed out, and the pool after it.
pub record Handed (m : ℕ → ℕ) (k : ℕ) (p : Pool) (s : ℕ × Pool) : Type 0 where
  pub supplies : Supplies m k s.1
  pub kept : (x : ℕ) → available x p ≤ is_node x s.0 + available x s.1
  pub taken : s.1.nodes_taken ≡ p.nodes_taken + 1
  pub returned : s.1.nodes_returned ≡ p.nodes_returned

pub take_node-Handed :
    (m : ℕ → ℕ) (k : ℕ) (p : Pool) → Supplies m (k + 1) p → Ends (Handed m k p) (take_node m p)
take_node-Handed m k p s =
    let fresh = m p.nodes_taken in
    let (some_node, rest) = hand_out-some fresh p (s.granted p.nodes_taken) s.no_null in
    let count = hand_out-nodes_taken fresh p in
    let room = s.room in
    rw (get_node-done fresh p (omega arith), ==-false (hand_out fresh p).0 null some_node)
      (ends (record {
        supplies = record { room = omega arith; no_null = rest; granted = s.granted };
        kept = λ x. omega (arith, hand_out-available fresh x p);
        taken = count;
        returned = hand_out-nodes_returned fresh p;
      }))

pub Supplies-weaken : (m : ℕ → ℕ) (j k : ℕ) (p : Pool) → j ≤ k → Supplies m k p → Supplies m j p
Supplies-weaken m j k p le s =
    let room = s.room in record { room = omega arith; no_null = s.no_null; granted = s.granted }
