-- ===== src/Books/SkewHeap.antt =====
-- src/bin/books/advanced_data_structures/ch5/skew_heap.c: skew heaps. A heap is the value that its
-- pointer leads to, `nil` is NULL, and a heap whose root has no object is empty. A key stands by its
-- place among the ints.
pub mod Laws
use c_lang_project.Lang.Memory.{null}
use c_lang_project.DataStructs.ListRep.{Object}
use c_lang_project.Common.{◌==◌, Bool, false, if◌then◌else◌, ltb, true, ℕ}
use c_lang_project.Lang.Result.{◌>>=◌, Result, done, undefined}
use mathlib.Core.Bool.{not}

pub data Tree : Type 0 where
  nil : Tree
  node : ℕ → Object → Tree → Tree → Tree

-- `hp->object == NULL`
abbrev pub heap_empty : Tree → Result Bool
heap_empty nil = undefined
heap_empty (node k o l r) = done (o == null)

unfoldable pub find_min_key : Tree → Result ℕ
find_min_key nil = undefined
find_min_key (node k o l r) = done k

unfoldable pub find_min_object : Tree → Result Object
find_min_object nil = undefined
find_min_object (node k o l r) = done o

-- The loop of `insert` down the right path, from `current`, which is the first node and has the right
-- subtree that comes last. The exchange of the subtrees is on the way.
unfoldable pub insert_path : ℕ → Object → ℕ → Object → Tree → Tree → Tree
insert_path k o k' o' l nil = node k' o' l (node k o nil nil)
insert_path k o k' o' l (node k2 o2 l2 r2) =
    if ltb k2 k
    then node k' o' (insert_path k o k2 o2 l2 r2) l
    else node k' o' l (node k o (node k2 o2 l2 r2) nil)

-- `got`: get_node gets a node.
unfoldable pub insert : Bool → ℕ → Object → Tree → Result Tree
insert got k o nil = undefined
insert got k o (node k' o' l r) =
    if o' == null
    then done (node k o nil nil)
    else if not got
    then undefined
    else if ltb k k'
    then done (node k o (node k' o' l r) nil)
    else done (insert_path k o k' o' l r)

-- The loop of `merge`, from `tmp1`, which has the left subtree `l`, with `tmp2` and `tmp3`.
unfoldable pub merge_path : ℕ → Object → Tree → Tree → Tree → Tree
merge_path k o l nil t3 = node k o l t3
merge_path k o l (node k2 o2 l2 r2) nil = node k o l (node k2 o2 l2 r2)
merge_path k o l (node k2 o2 l2 r2) (node k3 o3 l3 r3) = elim (ltb k2 k3) [
  | true ↦ node k o (merge_path k2 o2 l2 r2 (node k3 o3 l3 r3)) l
  | false ↦ node k o (merge_path k3 o3 l3 (node k2 o2 l2 r2) r3) l
]

unfoldable pub merge : Tree → Tree → Result Tree
merge nil t' = undefined
merge (node k o l r) nil = if o == null then done nil else undefined
merge (node k o l r) (node k' o' l' r') =
    if o == null
    then done (node k' o' l' r')
    else if o' == null
    then done (node k o l r)
    else if ltb k k'
    then done (merge_path k o l r (node k' o' l' r'))
    else done (merge_path k' o' l' r' (node k o l r))

unfoldable pub delete_min : Tree → Result (Object × Tree)
delete_min nil = undefined
delete_min (node k o nil nil) = done (o, node k null nil nil)
delete_min (node k o (node k1 o1 l1 r1) nil) = done (o, node k1 o1 l1 r1)
delete_min (node k o nil (node k2 o2 l2 r2)) = done (o, node k2 o2 l2 r2)
delete_min (node k o (node k1 o1 l1 r1) (node k2 o2 l2 r2)) =
    merge (node k1 o1 l1 r1) (node k2 o2 l2 r2) >>= λ t. done (o, t)
