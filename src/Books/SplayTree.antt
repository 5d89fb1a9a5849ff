-- ===== src/Books/SplayTree.antt =====
-- src/bin/books/advanced_data_structures/ch3/spla_tree.c: splay trees, whose objects lie in all
-- nodes. A tree is the value that its pointer leads to, `nil` is NULL, and a tree whose root has no
-- object is empty. A key stands by its place among the ints. Code that leaves the trees, as a
-- rotation without a child would, is undefined here. The pool of nodes is that of triv_tree.c.
pub mod Keys
pub mod Descend
pub mod Find
pub mod Insert
pub mod Outside
pub mod Delete
use c_lang_project.Books.NodePool.{Pool, return_node, take_node}
use c_lang_project.Lang.Memory.{null}
use c_lang_project.Common.Int.{negsuc, ℤ, pos}
use c_lang_project.DataStructs.ListRep.{Object}
use c_lang_project.Common.{
  ◌==◌, Bool, List, Option, [], false, if◌then◌else◌, ltb, map, none, some, true, ℕ, ◌∷◌,
}
use mathlib.Core.Bool.{not, ◌&&◌}
use mathlib.Core.Option
use c_lang_project.Lang.Result.{◌>>=◌, Result, done, undefined}

pub data Tree : Type 0 where
  nil : Tree
  node : ℕ → Object → Tree → Tree → Tree

-- A step of the way down, with the node's key and object, and its other child.
pub data Frame : Type 0 where
  went_left : ℕ → Object → Tree → Frame
  went_right : ℕ → Object → Tree → Frame

abbrev pub fill : Frame → Tree → Tree
fill (went_left k o r) t = node k o t r
fill (went_right k o l) t = node k o l t

-- The whole tree, with `t` at the end of the way.
abbrev pub plug : List Frame → Tree → Tree
plug [] t = t
plug (f ∷ fs) t = plug fs (fill f t)

abbrev pub is_nil : Tree → Bool
is_nil nil = true
is_nil (node k o l r) = false

-- The node itself stays where it is, and its child is used again on the other side.
abbrev pub left_rotation : Tree → Result Tree
left_rotation (node k o l (node k' o' m r)) = done (node k' o' (node k o l m) r)
left_rotation t = undefined

abbrev pub right_rotation : Tree → Result Tree
right_rotation (node k o (node k' o' l m) r) = done (node k' o' l (node k o m r))
right_rotation t = undefined

-- Where the first loop of `find` is: the way that the stack spells out, `current_node`, the nodes
-- of the stack, and the pool that they come from.
pub record Descent : Type 0 where
  pub path : List Frame
  pub current : Tree
  pub stack : List ℕ
  pub pool : Pool

-- The first loop of `find`. `m` is what malloc answers.
unfoldable pub descend : (ℕ → ℕ) → ℕ → Tree → List Frame → List ℕ → Pool → Result Descent
descend m q nil fs ss p = undefined
descend m q (node k o l r) fs ss p = take_node m p >>= λ (s, p').
    if ltb q k && not (is_nil l)
    then descend m q l (went_left k o r ∷ fs) (s ∷ ss) p'
    else if ltb k q && not (is_nil r)
    then descend m q r (went_right k o l ∷ fs) (s ∷ ss) p'
    else done (record { path = fs; current = node k o l r; stack = s ∷ ss; pool = p' })

-- A round of the second loop, where `upper` is the root.
abbrev pub rotate_up : Frame → Tree → Result Tree
rotate_up (went_left k o r) t = right_rotation (node k o t r)
rotate_up (went_right k o l) t = left_rotation (node k o l t)

-- A round below `upper2`: `f` is `upper`, and `g` is `upper2`.
abbrev pub rotate_twice : Frame → Frame → Tree → Result Tree
rotate_twice (went_left k o r) (went_left k' o' r') t =
    right_rotation (node k' o' (node k o t r) r') >>= right_rotation
rotate_twice (went_right k o l) (went_left k' o' r') t =
    left_rotation (node k o l t) >>= λ upper. right_rotation (node k' o' upper r')
rotate_twice (went_right k o l) (went_right k' o' l') t =
    left_rotation (node k' o' l' (node k o l t)) >>= left_rotation
rotate_twice (went_left k o r) (went_right k' o' l') t =
    right_rotation (node k o t r) >>= λ upper. left_rotation (node k' o' l' upper)

-- The second loop of `find`.
unfoldable pub splay : List Frame → Tree → Result Tree
splay [] t = done t
splay (f ∷ []) t = rotate_up f t
splay (f ∷ g ∷ gs) t = rotate_twice f g t >>= λ u. splay gs u

abbrev pub root_object : Tree → Result Object
root_object nil = undefined
root_object (node k o l r) = done o

-- The stack goes back to the pool, from its top on.
unfoldable pub return_nodes : List ℕ → Pool → Result Pool
return_nodes [] p = done p
return_nodes (s ∷ ss) p = return_node s p >>= return_nodes ss

-- `find` from where its first loop ends. The second loop gives back a node of the stack for each
-- step up; the rotations in between do not touch the pool.
unfoldable pub find_found :
    Tree → ℕ → List Frame → Tree → List ℕ → Pool → Result (Object × Tree × Pool)
find_found t q fs nil ss p = undefined
find_found t q fs (node k o l r) ss p =
    if k == q
    then (splay fs (node k o l r) >>= λ u.
        return_nodes ss p >>= λ p'. root_object u >>= λ o'. done (o', u, p'))
    else done (null, t, p)

unfoldable pub find : (ℕ → ℕ) → Tree → ℕ → Pool → Result (Object × Tree × Pool)
find m nil q p = undefined
find m (node k o l r) q p =
    if o == null
    then done (null, node k o l r, p)
    else (descend m q (node k o l r) [] [] p >>= λ d.
        find_found (node k o l r) q d.path d.current d.stack d.pool)

-- The loop of `insert`, and the new leaf; `none` where the key is there.
unfoldable pub insert_path : ℕ → Object → Tree → Option Tree
insert_path k o nil = some (node k o nil nil)
insert_path k o (node k' o' l r) =
    if ltb k k'
    then Option.map (λ l'. node k' o' l' r) (insert_path k o l)
    else if ltb k' k
    then Option.map (λ r'. node k' o' l r') (insert_path k o r)
    else none

-- `got`: get_node gets a node.
unfoldable pub insert : Bool → ℕ → Object → Tree → Result (ℤ × Tree)
insert got k o nil = undefined
insert got k o (node k' o' l r) =
    if o' == null then done (pos 0, node k o nil nil) else elim (insert_path k o (node k' o' l r)) [
      | none ↦ done (negsuc 0, node k' o' l r)
      | some t ↦ if got then done (pos 0, t) else undefined
    ]

-- The loop of `delete` to the least key of the right subtree, whose node is taken out.
unfoldable pub take_least : ℕ → Object → Tree → Tree → (ℕ × Object) × Tree
take_least k o nil r = ((k, o), r)
take_least k o (node k2 o2 l2 r2) r =
    let (least, l) = take_least k2 o2 l2 r2 in (least, node k o l r)

-- What comes where the node was of which these are the children.
unfoldable pub delete_node : Tree → Tree → Tree
delete_node nil r = r
delete_node (node k o l r) nil = node k o l r
delete_node (node k o l r) (node k2 o2 l2 r2) =
    let (least, rest) = take_least k2 o2 l2 r2 in node least.0 least.1 (node k o l r) rest

-- The object at the key and the tree without it; `none` where the key is not there.
unfoldable pub delete_path : ℕ → Tree → Option (Object × Tree)
delete_path q nil = none
delete_path q (node k o l r) =
    if ltb q k
    then Option.map (λ (x, l'). (x, node k o l' r)) (delete_path q l)
    else if ltb k q
    then Option.map (λ (x, r'). (x, node k o l r')) (delete_path q r)
    else some (o, delete_node l r)

-- Without its last object the root stays, as the empty tree.
abbrev pub last_root : ℕ → Tree → Tree
last_root k nil = node k null nil nil
last_root k (node k' o l r) = node k' o l r

unfoldable pub delete : Tree → ℕ → Result (Object × Tree)
delete nil q = undefined
delete (node k o l r) q =
    if o == null then done (null, node k o l r) else elim (delete_path q (node k o l r)) [
      | none ↦ done (null, node k o l r)
      | some (x, t) ↦ done (x, last_root k t)
    ]
