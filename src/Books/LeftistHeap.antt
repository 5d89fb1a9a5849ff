-- ===== src/Books/LeftistHeap.antt =====
-- src/bin/books/advanced_data_structures/ch5/left_heap.c: leftist heaps. A heap is the value that
-- its pointer leads to, `nil` is NULL, and a heap of rank 0 is empty. A key stands by its place
-- among the ints.
pub mod Invariant
pub mod Lift
pub mod Insert
pub mod Settle
pub mod Merge
pub mod DeleteMin
pub mod Remove
use c_lang_project.DataStructs.BinaryTree.{Order}
use c_lang_project.Common.{
  ◌&&◌, ◌+◌, ◌==◌, Bool, List, [], false, if◌then◌else◌, length, ltb, true, ◌||◌, ℕ, ◌∷◌, suc, zero,
}
use c_lang_project.Lang.Result.{◌>>=◌, Result, done, undefined, no_fuel}
use mathlib.Core.Bool.{not}
use c_lang_project.DataStructs.ListRep.{Object}

pub data Tree : Type 0 where
  nil : Tree
  node : ℕ → ℕ → Object → Tree → Tree → Tree

-- `t->rank`; 0 for NULL, where the code does not ask.
abbrev pub rank : Tree → ℕ
rank nil = 0
rank (node n k o l r) = n

abbrev pub is_nil : Tree → Bool
is_nil nil = true
is_nil (node n k o l r) = false

unfoldable pub heap_empty : Tree → Result Bool
heap_empty nil = undefined
heap_empty (node n k o l r) = done (n == 0)

unfoldable pub find_min_key : Tree → Result ℕ
find_min_key nil = undefined
find_min_key (node n k o l r) = done k

unfoldable pub find_min_object : Tree → Result Object
find_min_object nil = undefined
find_min_object (node n k o l r) = done o

-- A node on the way down to the right, without its right subtree.
pub record Frame : Type 0 where
  pub rank_of : ℕ
  pub key : ℕ
  pub object : Object
  pub left : Tree

abbrev pub close : Frame → Tree → Tree
close f r = node f.rank_of f.key f.object f.left r

abbrev pub plug : List Frame → Tree → Tree
plug [] t = t
plug (f ∷ fs) t = plug fs (close f t)

-- `node_stack[100]`.
abbrev pub stack_room : ℕ
stack_room = 100

-- The loop of `insert` down the right path: `node_stack`, `tmp`, and `tmp->right`.
unfoldable pub go_down : ℕ → List Frame → Frame → Tree → List Frame × Frame × Tree
go_down q fs f nil = (fs, f, nil)
go_down q fs f (node n k o l r) =
    if ltb k q
    then go_down q (f ∷ fs) (record { rank_of = n; key = k; object = o; left = l }) r
    else (fs, f, node n k o l r)

-- One round of the loop of `insert` back up.
abbrev pub lift_node : Frame → Tree → Result Tree
lift_node f nil = undefined
lift_node f (node n k o l r) =
    if is_nil f.left
    then undefined
    else let t : Tree = node n k o l r in
      if ltb (rank f.left) (rank t)
      then done (node (rank f.left + 1) f.key f.object t f.left)
      else done (node (rank t + 1) f.key f.object f.left t)

unfoldable pub lift : List Frame → Tree → Result Tree
lift [] t = done t
lift (f ∷ fs) t = lift_node f t >>= λ t'. lift fs t'

-- `insert` below `tmp`, which is `f` over `below`.
unfoldable pub insert_below : ℕ → Object → List Frame → Frame → Tree → Result Tree
unfolding lift
insert_below k o fs f below =
    let new_node : Tree = node 1 k o below nil in
    if ltb stack_room (length fs)
    then undefined
    else if is_nil f.left
    then done (plug fs (node f.rank_of f.key f.object new_node below))
    else lift fs (node 2 f.key f.object f.left new_node)

-- `got`: get_node gets a node.
unfoldable pub insert : Bool → ℕ → Object → Tree → Result Tree
unfolding go_down
insert got k o nil = undefined
insert got k o (node n k' o' l r) =
    if n == 0
    then done (node 1 k o nil nil)
    else if not got
    then undefined
    else if ltb k k'
    then done (node 1 k o (node n k' o' l r) nil)
    else let (fs, f, below) =
        go_down k [] (record { rank_of = n; key = k'; object = o'; left = l }) r in
      insert_below k o fs f below

-- The loop of `merge`: `node_stack` with `tmp1` on top, and what is left of the two right paths.
unfoldable pub merge_loop : List Frame → Tree → Tree → List Frame × Tree
merge_loop fs nil t = (fs, t)
merge_loop fs (node n k o l r) nil = (fs, node n k o l r)
merge_loop fs (node n k o l r) (node n' k' o' l' r') = elim (ltb k k') [
  | true ↦
      merge_loop (record { rank_of = n; key = k; object = o; left = l } ∷ fs) r
        (node n' k' o' l' r')
  | false ↦
      merge_loop (record { rank_of = n'; key = k'; object = o'; left = l' } ∷ fs) (node n k o l r)
        r'
]

-- One round of the loop of `merge` back up: exchange, and the new rank.
abbrev pub is_light : Tree → Tree → Bool
is_light l r = is_nil l || (not (is_nil l) && not (is_nil r) && ltb (rank l) (rank r))

abbrev pub ranked : ℕ → Object → Tree → Tree → Tree
ranked k o l r = node (if is_nil r then 1 else rank r + 1) k o l r

abbrev pub settled : ℕ → Object → Tree → Tree → Tree
settled k o l r = if is_light l r then ranked k o r l else ranked k o l r

unfoldable pub settle : List Frame → Tree → Tree
settle [] t = t
settle (f ∷ fs) t = settle fs (settled f.key f.object f.left t)

-- The right paths of a root and of another heap.
unfoldable pub merge_paths : Frame → Tree → Tree → Result Tree
unfolding merge_loop settle
merge_paths f t t' =
    let (fs, rest) = merge_loop (f ∷ []) t t' in
    if ltb stack_room (length fs) then undefined else done (settle fs rest)

unfoldable pub merge : Tree → Tree → Result Tree
merge nil t' = undefined
merge (node n k o l r) nil = if n == 0 then done nil else undefined
merge (node n k o l r) (node n' k' o' l' r') =
    if n == 0
    then done (node n' k' o' l' r')
    else if n' == 0
    then done (node n k o l r)
    else if ltb k k'
    then merge_paths (record { rank_of = n; key = k; object = o; left = l }) r (node n' k' o' l' r')
    else merge_paths (record { rank_of = n'; key = k'; object = o'; left = l' }) r' (node n k o l r)

unfoldable pub delete_min : Tree → Result (Object × Tree)
delete_min nil = undefined
delete_min (node n k o nil nil) = done (o, node 0 k o nil nil)
delete_min (node n k o (node n' k' o' l' r') nil) = done (o, node n' k' o' l' r')
delete_min (node n k o l (node n' k' o' l' r')) = merge l (node n' k' o' l' r') >>= λ t. done (o, t)

-- The loop of `remove_heap`; `returned` counts the calls of return_node.
unfoldable pub remove_loop : ℕ → Tree → ℕ → Result ℕ
remove_loop zero t returned = no_fuel
remove_loop (suc fuel) nil returned = done returned
remove_loop (suc fuel) (node n k o nil r) returned = remove_loop fuel r (returned + 1)
remove_loop (suc fuel) (node n k o (node n' k' o' l m) r) returned =
    remove_loop fuel (node n' k' o' l (node n k o m r)) returned

unfoldable pub remove_heap : ℕ → Tree → Result ℕ
remove_heap fuel t = if rank t == 0 then done 1 else remove_loop fuel t 0
