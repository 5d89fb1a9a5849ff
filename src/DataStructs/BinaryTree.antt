-- ===== src/DataStructs/BinaryTree.antt =====
-- src/libs/data_structs/binary_tree.c: trees of linked nodes. A walk runs on fuel; a callback works
-- on a state of its own, `S`, and leaves the nodes alone.
pub mod Orders
use c_lang_project.DataStructs.ListRep.{Object}
use c_lang_project.Common.{◌==◌, Bool, Option, false, if◌then◌else◌, none, suc, true, zero, ℕ}
use c_lang_project.DataStructs.List.{free_data}
use c_lang_project.Lang.Memory.{
  ◌>>=◌, ◌>>◌, Cmd, Ptr, load, memory_alloc, memory_free, null, out_of_fuel, pure, require, store,
}

pub record TreeNode : Type 0 where
  pub datapointer : Object
  pub left : Ptr
  pub right : Ptr

abbrev pub tree_node : Object → Ptr → Ptr → TreeNode
tree_node d l r = record { datapointer = d; left = l; right = r }

unfoldable pub allocate_tree_node : Ptr → Object → Cmd TreeNode Ptr
allocate_tree_node fresh d = memory_alloc fresh (tree_node d null null)

unfoldable pub free_tree_node : Ptr → Cmd TreeNode (Unit {0})
free_tree_node p = memory_free p

unfoldable pub new : Ptr
new = null

unfoldable pub is_empty : Ptr → Bool
is_empty p = p == null

-- The new tree pointer.
unfoldable pub make_root : Ptr → Ptr → Object → Ptr → Ptr → Cmd TreeNode Ptr
make_root fresh p d l r = do
  require (is_empty p)
  q ← allocate_tree_node fresh d
  n ← load q
  store q (record n { left = l })
  n' ← load q
  store q (record n' { right = r })
  pure q

pub data Order : Type 0 where
  pre_order in_order post_order : Order

module _ {S : Type 0} (apply : Object → S → Bool × S) where
  -- `if (result) { result = next; }`
  abbrev pub and_also : Bool × S → (S → Cmd TreeNode (Bool × S)) → Cmd TreeNode (Bool × S)
  and_also (true, s) next = next s
  and_also (false, s) next = pure (false, s)

  unfoldable pub preorder_traverse : ℕ → Ptr → S → Cmd TreeNode (Bool × S)
  preorder_traverse zero p s = λ _. out_of_fuel
  preorder_traverse (suc k) p s = if is_empty p then pure (true, s) else do
    n ← load p
    r ← and_also (apply n.datapointer s) (preorder_traverse k n.left)
    and_also r (preorder_traverse k n.right)

  unfoldable pub inorder_traverse : ℕ → Ptr → S → Cmd TreeNode (Bool × S)
  inorder_traverse zero p s = λ _. out_of_fuel
  inorder_traverse (suc k) p s = if is_empty p then pure (true, s) else do
    n ← load p
    r ← inorder_traverse k n.left s
    r' ← and_also r (λ s'. pure (apply n.datapointer s'))
    and_also r' (inorder_traverse k n.right)

  unfoldable pub postorder_traverse : ℕ → Ptr → S → Cmd TreeNode (Bool × S)
  postorder_traverse zero p s = λ _. out_of_fuel
  postorder_traverse (suc k) p s = if is_empty p then pure (true, s) else do
    n ← load p
    r ← postorder_traverse k n.left s
    r' ← and_also r (postorder_traverse k n.right)
    and_also r' (λ s'. pure (apply n.datapointer s'))

-- `BinTree_traverse`, at the three orders that there are.
unfoldable pub traverse :
    {S : Type 0} → ℕ → Ptr → (Object → S → Bool × S) → Order → S → Cmd TreeNode (Bool × S)
traverse k p apply pre_order s = preorder_traverse apply k p s
traverse k p apply in_order s = inorder_traverse apply k p s
traverse k p apply post_order s = postorder_traverse apply k p s

-- The tree pointer, null at the end, which is written where it stands, and what the free function
-- made of the data.
unfoldable pub destroy :
    {S : Type 0} → ℕ → Ptr → Option (Object → S → S) → S → Cmd TreeNode (Ptr × S)
destroy zero p free s = λ _. out_of_fuel
destroy (suc k) p free s = if is_empty p then pure (p, s) else do
  n ← load p
  (l, s1) ← destroy k n.left free s
  n1 ← load p
  store p (record n1 { left = l })
  n2 ← load p
  (r, s2) ← destroy k n2.right free s1
  n3 ← load p
  store p (record n3 { right = r })
  n4 ← load p
  let s3 = free_data free n4.datapointer s2
  free_tree_node p
  pure (null, s3)

unfoldable pub free_tree : ℕ → Ptr → Cmd TreeNode (Ptr × Unit {0})
free_tree k p = destroy k p none tt
