-- ===== src/DataStructs/BinaryTree/Orders.antt =====
-- The traversals of src/libs/data_structs/binary_tree.c follow the orders of the abstract tree.
use c_lang_project.DataStructs.Examples.{unused}
use c_lang_project.Lang.Returns.{Returns, returns}
use mathlib.Core.List.{append_assoc}
use c_lang_project.DataStructs.List.Walk.{visit}
use c_lang_project.Lang.Memory.{Heap, Ptr, load, null, ok, pure, Cmd, memory_alloc, store, write}
use c_lang_project.DataStructs.ListRep.{Object}
use c_lang_project.Common.{
  ◌+◌, ◌++◌, ◌<◌, ◌==◌, Bool, Bool-cases, List, [], arith, false, inl, inr, refl, some, suc, zero,
  ℕ, ◌∷◌, ◌≡◌, ◌≢◌, ap, if◌then◌else◌, none, sym, true, ◌∙◌,
}
use c_lang_project.DataStructs.BinaryTree.{
  preorder_traverse, inorder_traverse, postorder_traverse, traverse, is_empty, Order, TreeNode,
  and_also, in_order, post_order, pre_order, tree_node, allocate_tree_node, make_root,
}

-- A tree, with the address and the data of each node.
pub data Tree : Type 0 where
  leaf : Tree
  branch : Ptr → Object → Tree → Tree → Tree

abbrev pub root : Tree → Ptr
root leaf = null
root (branch p _ _ _) = p

abbrev pub nodes : Tree → ℕ
nodes leaf = 0
nodes (branch _ _ l r) = suc (nodes l + nodes r)

-- The nodes of the tree lie in the heap, each with the pointers to its subtrees.
abbrev pub InHeap : Heap TreeNode → Tree → Type 0
InHeap h leaf = Unit
InHeap h (branch p d l r) =
    (p ≢ null) × (h p ≡ some (tree_node d (root l) (root r))) × InHeap h l × InHeap h r

abbrev pub preorder : Tree → List Object
preorder leaf = []
preorder (branch _ d l r) = d ∷ (preorder l ++ preorder r)

abbrev pub inorder : Tree → List Object
inorder leaf = []
inorder (branch _ d l r) = inorder l ++ d ∷ inorder r

abbrev pub postorder : Tree → List Object
postorder leaf = []
postorder (branch _ d l r) = postorder l ++ (postorder r ++ d ∷ [])

abbrev pub listing : Order → Tree → List Object
listing pre_order t = preorder t
listing in_order t = inorder t
listing post_order t = postorder t

tree_load-ok :
    (h : Heap TreeNode) (p : Ptr) (n : TreeNode) → p ≢ null → h p ≡ some n → load p h ≡ ok n h
unfolding load
tree_load-ok h p n ne e = let there : (p == null) ≡ false = ground arith in rw (there, e)

module _ {S : Type 0} (apply : Object → S → Bool × S) where
  pair-eta : (r : Bool × S) → (if r.0 then (true, r.1) else (false, r.1)) ≡ r
  pair-eta (true, s) = refl
  pair-eta (false, s) = refl

  -- Unless it was stopped, a traversal goes on with what comes next.
  visit-then :
      (h : Heap TreeNode) (xs ys : List Object) (s : S) (f : S → Cmd TreeNode (Bool × S))
      → ((s' : S) → f s' h ≡ ok (visit ys apply s') h)
      → and_also apply (visit xs apply s) f h ≡ ok (visit (xs ++ ys) apply s) h
  visit-then h [] ys s f goes = goes s
  visit-then h (x ∷ xs) ys s f goes = elim (Bool-cases (apply x s).0) [
    | inl more ↦ rw more (visit-then h xs ys (apply x s).1 f goes)
    | inr halted ↦ rw halted
  ]

  -- The same, where the next is a single datum.
  visit-one :
      (h : Heap TreeNode) (xs : List Object) (d : Object) (s : S)
      → and_also apply (visit xs apply s) (λ s'. pure (apply d s')) h
        ≡ ok (visit (xs ++ d ∷ []) apply s) h
  visit-one h xs d s =
      visit-then h xs (d ∷ []) s (λ s'. pure (apply d s'))
        λ s'. ap (λ r. ok r h) (sym (pair-eta (apply d s')))

  preorder_traverse-visit :
      (k : ℕ) (h : Heap TreeNode) (t : Tree) (s : S)
      → InHeap h t
      → nodes t < k
      → preorder_traverse apply k (root t) s h ≡ ok (visit (preorder t) apply s) h
  unfolding preorder_traverse is_empty
  preorder_traverse-visit zero h t s v f = absurd (omega arith)
  preorder_traverse-visit (suc k) h leaf s v f = refl
  preorder_traverse-visit (suc k) h (branch p d l r) s (ne, e, vl, vr) f =
      let there : (p == null) ≡ false = ground arith in
      rw (there, tree_load-ok h p (tree_node d (root l) (root r)) ne e)
        (elim (Bool-cases (apply d s).0) [
          | inl more ↦
              rw (more, preorder_traverse-visit k h l (apply d s).1 vl (omega arith))
                (visit-then h (preorder l) (preorder r) (apply d s).1
                  (preorder_traverse apply k (root r))
                  λ s'. preorder_traverse-visit k h r s' vr (omega arith))
          | inr halted ↦ rw halted
        ])

  inorder_traverse-visit :
      (k : ℕ) (h : Heap TreeNode) (t : Tree) (s : S)
      → InHeap h t
      → nodes t < k
      → inorder_traverse apply k (root t) s h ≡ ok (visit (inorder t) apply s) h
  unfolding inorder_traverse is_empty
  inorder_traverse-visit zero h t s v f = absurd (omega arith)
  inorder_traverse-visit (suc k) h leaf s v f = refl
  inorder_traverse-visit (suc k) h (branch p d l r) s (ne, e, vl, vr) f =
      let there : (p == null) ≡ false = ground arith in
      rw
        (
          there,
          tree_load-ok h p (tree_node d (root l) (root r)) ne e,
          inorder_traverse-visit k h l s vl (omega arith),
          visit-one h (inorder l) d s,
        )
        (visit-then h (inorder l ++ d ∷ []) (inorder r) s (inorder_traverse apply k (root r))
            (λ s'. inorder_traverse-visit k h r s' vr (omega arith))
          ∙ ap (λ xs. ok (visit xs apply s) h) (append_assoc (inorder l) (d ∷ []) (inorder r)))

  postorder_traverse-visit :
      (k : ℕ) (h : Heap TreeNode) (t : Tree) (s : S)
      → InHeap h t
      → nodes t < k
      → postorder_traverse apply k (root t) s h ≡ ok (visit (postorder t) apply s) h
  unfolding postorder_traverse is_empty
  postorder_traverse-visit zero h t s v f = absurd (omega arith)
  postorder_traverse-visit (suc k) h leaf s v f = refl
  postorder_traverse-visit (suc k) h (branch p d l r) s (ne, e, vl, vr) f =
      let there : (p == null) ≡ false = ground arith in
      let both =
        visit-then h (postorder l) (postorder r) s (postorder_traverse apply k (root r))
          λ s'. postorder_traverse-visit k h r s' vr (omega arith) in
      rw
        (
          there,
          tree_load-ok h p (tree_node d (root l) (root r)) ne e,
          postorder_traverse-visit k h l s vl (omega arith),
          both,
        )
        (visit-one h (postorder l ++ postorder r) d s
          ∙ ap (λ xs. ok (visit xs apply s) h) (append_assoc (postorder l) (postorder r) (d ∷ [])))

-- BinTree_traverse of a tree that lies in the heap, with fuel above the number of its nodes, hands
-- the data to the callback in the order asked for, and stops with false at the first refusal.
pub traverse-listing :
    {S : Type 0} (k : ℕ) (h : Heap TreeNode) (t : Tree) (apply : Object → S → Bool × S) (o : Order)
    (s : S)
    → InHeap h t
    → nodes t < k
    → traverse k (root t) apply o s h ≡ ok (visit (listing o t) apply s) h
unfolding traverse
traverse-listing k h t apply pre_order s v f = preorder_traverse-visit apply k h t s v f
traverse-listing k h t apply in_order s v f = inorder_traverse-visit apply k h t s v f
traverse-listing k h t apply post_order s v f = postorder_traverse-visit apply k h t s v f

tree_store-ok :
    (h : Heap TreeNode) (p : Ptr) (n m : TreeNode)
    → p ≢ null
    → h p ≡ some n
    → store p m h ≡ ok tt (write h p (some m))
unfolding store
tree_store-ok h p n m ne e = rw (tree_load-ok h p n ne e)

-- A tree survives what is written into a cell that was not in use.
InHeap-frame :
    (h g : Heap TreeNode) (fresh : Ptr) (t : Tree)
    → InHeap h t
    → h fresh ≡ none
    → ((a : Ptr) → a ≢ fresh → g a ≡ h a)
    → InHeap g t
InHeap-frame h g fresh leaf v unused same = tt
InHeap-frame h g fresh (branch p d l r) (ne, e, vl, vr) unused same =
    let other : p ≢ fresh = λ q. grind arith in
    (
      ne,
      same p other ∙ e,
      InHeap-frame h g fresh l vl unused same,
      InHeap-frame h g fresh r vr unused same,
    )

written : (h : Heap TreeNode) (p : Ptr) (n : TreeNode) → write h p (some n) p ≡ some n
unfolding write
written h p n = ground arith

-- BinTree_make_root on an empty tree, with malloc succeeding, returns the new node, at the root of
-- a tree with the two trees given as they were.
pub make_root-branch :
    (h : Heap TreeNode) (fresh : Ptr) (d : Object) (l r : Tree)
    → InHeap h l
    → InHeap h r
    → fresh ≢ null
    → h fresh ≡ none
    → Returns
        (λ q g. (q ≡ fresh) × InHeap g (branch fresh d l r))
        (make_root fresh null d (root l) (root r) h)
unfolding make_root is_empty allocate_tree_node memory_alloc write
make_root-branch h fresh d l r vl vr ne unused =
    let there : (fresh == null) ≡ false = ground arith in
    let n0 : TreeNode = tree_node d null null in
    let n1 : TreeNode = tree_node d (root l) null in
    let h0 : Heap TreeNode = write h fresh (some n0) in
    let h1 : Heap TreeNode = write h0 fresh (some n1) in
    let h2 : Heap TreeNode = write h1 fresh (some (tree_node d (root l) (root r))) in
    let e0 = written h fresh n0 in
    let e1 = written h0 fresh n1 in
    let kept : (a : Ptr) → a ≢ fresh → h2 a ≡ h a = λ a o. ground arith in
    rw
      (
        there,
        tree_load-ok h0 fresh n0 ne e0,
        tree_store-ok h0 fresh n0 n1 ne e0,
        tree_load-ok h1 fresh n1 ne e1,
        tree_store-ok h1 fresh n1 (tree_node d (root l) (root r)) ne e1,
      )
      (returns (
        refl,
        (
          ne,
          written h1 fresh (tree_node d (root l) (root r)),
          InHeap-frame h h2 fresh l vl unused kept,
          InHeap-frame h h2 fresh r vr unused kept,
        ),
      ))
