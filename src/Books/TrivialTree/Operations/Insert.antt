-- ===== src/Books/TrivialTree/Operations/Insert.antt =====
-- `insert` of triv_tree.c.
use c_lang_project.Common.Int.{int_bound}
use c_lang_project.Lang.Memory.{null}
use c_lang_project.Common.Int.{negsuc, ℤ, pos}
use c_lang_project.Books.SearchTree.Split.{lookup-plug-split, split-IsSearch}
use c_lang_project.Books.NodePool.Counts.{
  added, available, hand_out-available, is_node, get_node-done, hand_out-nodes_taken,
}
use c_lang_project.Books.TrivialTree.{State, find_iterative, insert_found, fill_empty, insert}
use c_lang_project.Books.NodePool.{Pool, hand_out}
use c_lang_project.Books.SearchTree.Paths.{
  here, Way, lookup-plug_inside, plug-IsSearch, Reached, descend-Reached,
}
use c_lang_project.DataStructs.ListRep.{Object}
use c_lang_project.Books.TrivialTree.Operations.{
  IsSearchTree, find_iterative-lookup, nodes, nodes-plug,
}
use c_lang_project.Books.SearchTree.{
  Found, IsSearch, Tree, leaf, lookup, max_key, plug, split, descend, is_empty, is_empty-IsSearch,
  lookup-is_empty, node,
}
use c_lang_project.Lang.Result.{Ends, ends}
use c_lang_project.Common.{
  ◌+◌, ◌<◌, ◌==◌, ==-false, ==-true, Bool-cases, arith, if◌then◌else◌, inl, inr, ltb, refl, sym, ℕ,
  ◌∙◌, ◌≡◌, ◌≢◌, ◌≤◌, [], subst, true,
}
use native.Mathlib.Decide.{ℕ_discrete}

-- What malloc adds in two calls of get_node.
abbrev pub granted : ℕ → ℕ → ℕ → Pool → ℕ
granted x m m' p = added x m p.free p + added x m' (hand_out m p).1.free (hand_out m p).1

-- What `insert` answers and leaves. `total` counts the nodes of the tree and the pool.
abbrev pub total : ℕ → Tree ℕ → Pool → ℕ
total x t p = nodes x t + available x p

pub record Inserted (m m' : ℕ) (t : Tree ℕ) (k : ℕ) (o : Object) (p : Pool) (s : State ℤ)
    : Type 0 where
  pub valid : IsSearchTree s.tree
  pub added_key :
      find_iterative t k ≡ null
      → (s.answer ≡ pos 0)
        × ((q : ℕ)
            → q < max_key
            → find_iterative s.tree q ≡ (if k == q then o else find_iterative t q))
  pub refused : find_iterative t k ≢ null → (s.answer ≡ negsuc 0) × (s.tree ≡ t)
  pub kept : (x : ℕ) → total x t p ≤ total x s.tree s.pool
  pub paid : (x : ℕ) → total x s.tree s.pool ≤ total x t p + granted x m m' p

nodes-split :
    (x i old new key k : ℕ) (object o : Object)
    → nodes x (split i old new key object k o) ≡ is_node x i + is_node x old + is_node x new
nodes-split x i old new key k object o = elim (Bool-cases (ltb key k)) [
  | inl c ↦ rw c
  | inr c ↦ rw c (omega arith)
]

module _ (m m' k : ℕ) (o : Object) (p : Pool) (f : Found ℕ) (a b : ℕ)
    (way : Way 0 max_key f.path a b) (l : a ≤ k) (h : k < b)
    (s : IsSearch a b (leaf f.key f.info f.object)) where
  abbrev before : Tree ℕ
  before = plug f.path (leaf f.key f.info f.object)

  find-before : find_iterative before k ≡ (if f.key == k then f.object else null)
  unfolding lookup
  find-before =
      find_iterative-lookup before k
      ∙ lookup-plug_inside 0 max_key (leaf f.key f.info f.object) k way l h

  abbrev old_leaf : ℕ
  old_leaf = (hand_out m p).0

  abbrev rest : Pool
  rest = (hand_out m p).1

  abbrev new_leaf : ℕ
  new_leaf = (hand_out m' rest).0

  abbrev after : Tree ℕ
  after = plug f.path (split f.info old_leaf new_leaf f.key f.object k o)

  total-after : (x : ℕ) → total x after (hand_out m' rest).1 ≡ total x before p + granted x m m' p
  total-after x = omega (
    arith,
    nodes-plug x f.path (leaf f.key f.info f.object),
    nodes-plug x f.path (split f.info old_leaf new_leaf f.key f.object k o),
    nodes-split x f.info old_leaf new_leaf f.key k f.object o,
    hand_out-available m x p,
    hand_out-available m' x rest,
  )

  insert_found-Inserted :
      o ≢ null
      → p.nodes_taken + 2 < int_bound
      → old_leaf ≢ null
      → new_leaf ≢ null
      → Ends (Inserted m m' before k o p) (insert_found m m' before k o p f)
  unfolding insert_found
  insert_found-Inserted some_new room old_there new_there = elim (ℕ_discrete f.key k) [
    | yes e ↦ rw (==-true _ _ e) (
        ends (record {
          valid = inr (plug-IsSearch 0 max_key (leaf f.key f.info f.object) way s);
          added_key = λ z. absurd (s.2 (sym (find-before ∙ rw (==-true f.key k e)) ∙ z));
          refused = λ _. (refl, refl);
          kept = λ x. omega arith;
          paid = λ x. omega arith;
        }))
    | no ne ↦
        let counted = hand_out-nodes_taken m p in
        rw
          (
            ==-false _ _ ne,
            get_node-done m p (omega arith),
            get_node-done m' rest (omega arith),
            ==-false _ _ old_there,
            ==-false _ _ new_there,
          )
          (ends (record {
            valid = inr (
                plug-IsSearch 0 max_key (split f.info old_leaf new_leaf f.key f.object k o) way (
                  split-IsSearch {I = ℕ} f.info old_leaf new_leaf f.key k f.object o a b s l h ne
                    some_new));
            added_key = λ _. (
              refl,
              λ q small.
                  rw (find_iterative-lookup after q, find_iterative-lookup before q)
                    (lookup-plug-split f.info old_leaf new_leaf f.key k f.object o f.info 0 max_key
                      way l h ne q (omega arith) small),
            );
            refused = λ found. absurd (found (find-before ∙ rw (==-false f.key k ne)));
            kept = λ x. omega (arith, total-after x);
            paid = λ x. omega (arith, total-after x);
          }))
  ]

-- An empty tree.
insert_empty-Inserted :
    (m m' : ℕ) (t : Tree ℕ) (k : ℕ) (o : Object) (p : Pool)
    → is_empty t ≡ true
    → k < max_key
    → o ≢ null
    → Inserted m m' t k o p (record { answer = pos 0; tree = fill_empty t k o; pool = p })
unfolding lookup
insert_empty-Inserted m m' (node k' n l r) k o p e small some_new = cc
insert_empty-Inserted m m' (leaf k' n o') k o p e small some_new =
    let t : Tree ℕ = leaf k' n o' in
    let t' : Tree ℕ = leaf k n o in
    record {
      valid = inr (omega arith, small, some_new);
      added_key = λ _. (
        refl,
        λ q _. rw (find_iterative-lookup t' q, find_iterative-lookup t q, lookup-is_empty t q e),
      );
      refused = λ found. absurd (found (find_iterative-lookup t k ∙ lookup-is_empty t k e));
      kept = λ x. omega arith;
      paid = λ x. omega arith;
    }

-- insert of triv_tree.c, with a key that is an int and an object that is not NULL, with get_node
-- succeeding twice, which its count of calls must have room for, into a search tree or the empty
-- tree, ends without undefined behaviour in such a tree: if the key was not found, insert answers
-- 0 and the new object is found at the key and the old ones at every other key; if it was, insert
-- answers -1 and changes nothing. No node of the tree and the pool is lost, and none is there more
-- often than before but those that malloc adds.
pub insert-IsSearchTree :
    (m m' : ℕ) (t : Tree ℕ) (k : ℕ) (o : Object) (p : Pool)
    → IsSearchTree t
    → k < max_key
    → o ≢ null
    → p.nodes_taken + 2 < int_bound
    → (hand_out m p).0 ≢ null
    → (hand_out m' (hand_out m p).1).0 ≢ null
    → Ends (Inserted m m' t k o p) (insert m m' t k o p)
unfolding insert
insert-IsSearchTree m m' t k o p (inl e) small some_new room old new =
    rw e (ends (insert_empty-Inserted m m' t k o p e small some_new))
insert-IsSearchTree m m' t k o p (inr s) small some_new room old new =
    rw (is_empty-IsSearch 0 max_key t s)
      (reached (descend k t []) (descend-Reached 0 max_key k t [] here s (omega arith) small))
  where
    reached :
        (f : Found ℕ)
        → Reached 0 max_key k t f
        → Ends (Inserted m m' t k o p) (insert_found m m' t k o p f)
    reached f r =
        subst (λ u. Ends (Inserted m m' u k o p) (insert_found m m' u k o p f)) r.whole
          (insert_found-Inserted m m' k o p f r.low r.high r.way r.after r.before r.there some_new
            room old new)
