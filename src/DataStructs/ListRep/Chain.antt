-- ===== src/DataStructs/ListRep/Chain.antt =====
-- Chains of nodes: what the `next` pointers of src/libs/data_structs/list_rep.h spell out, and
-- how a chain bears writes.
use mathlib.Core.Bool.{or_assoc}
use c_lang_project.Common.{
  ◌≡◌, refl, ◌≢◌, Bool, true, false, ◌||◌, Option, none, some, List, [], ◌∷◌, ◌++◌, arith, ap, ◌==◌,
  sym, ◌∙◌,
}
use c_lang_project.Lang.Memory.{
  Ptr, null, Heap, write, ok, throw, memory_failed, load, store, memory_free,
}
use c_lang_project.DataStructs.ListRep.{Object, Node, node, allocate_node, free_node}

-- Address and data of each node, in order.
abbrev pub Cells : Type 0
Cells = List (Ptr × Object)

abbrev pub has : Ptr → Cells → Bool
has a [] = false
has a ((p, _) ∷ xs) = (a == p) || has a xs

abbrev pub objects : Cells → List Object
objects [] = []
objects ((_, d) ∷ xs) = d ∷ objects xs

-- The pointer that leads to `xs`, with `stop` behind them.
abbrev pub first : Ptr → Cells → Ptr
first stop [] = stop
first stop ((p, _) ∷ xs) = p

-- The nodes `xs` lie in `h`, are distinct, and each leads to the next, the last to `stop`.
abbrev pub Chain : Heap Node → Ptr → Cells → Type 0
Chain h stop [] = Unit
Chain h stop ((p, d) ∷ xs) =
    (p ≢ null) × (has p xs ≡ false) × (h p ≡ some (node d (first stop xs))) × Chain h stop xs

abbrev pub SameOutside : Cells → Heap Node → Heap Node → Type 0
SameOutside xs h g = (a : Ptr) → has a xs ≡ false → g a ≡ h a

abbrev pub Disjoint : Cells → Cells → Type 0
Disjoint xs ys = (a : Ptr) → has a xs ≡ true → has a ys ≡ false

-- `list` points at the chain `xs`, which ends by a null pointer.
pub record IsList (h : Heap Node) (list : Ptr) (xs : Cells) : Type 0 where
  pub start : list ≡ first null xs
  pub chain : Chain h null xs

pub has-append : (p : Ptr) (ys zs : Cells) → has p (ys ++ zs) ≡ (has p ys || has p zs)
has-append p [] zs = refl
has-append p ((q, _) ∷ ys) zs =
    ap (λ b. (p == q) || b) (has-append p ys zs) ∙ sym (or_assoc (p == q) (has p ys) (has p zs))

pub first-append : (stop : Ptr) (xs ys : Cells) → first stop (xs ++ ys) ≡ first (first stop ys) xs
first-append stop [] ys = refl
first-append stop (x ∷ xs) ys = refl

pub objects-append : (xs ys : Cells) → objects (xs ++ ys) ≡ objects xs ++ objects ys
objects-append [] ys = refl
objects-append ((p, d) ∷ xs) ys = rw (objects-append xs ys)

-- A chain survives any change that spares its own nodes.
pub Chain-frame :
    (h g : Heap Node) (stop : Ptr) (xs : Cells)
    → Chain h stop xs
    → ((a : Ptr) → has a xs ≡ true → g a ≡ h a)
    → Chain g stop xs
Chain-frame h g stop [] c same = tt
Chain-frame h g stop ((p, d) ∷ xs) (ne, out, e, c) same =
    (ne, out, ground (arith, same p), Chain-frame h g stop xs c (λ a i. same a (ground arith)))

pub Chain-write :
    (h : Heap Node) (stop : Ptr) (xs : Cells) (p : Ptr) (c : Option Node)
    → Chain h stop xs
    → has p xs ≡ false
    → Chain (write h p c) stop xs
unfolding write
Chain-write h stop xs p c k out = Chain-frame h (write h p c) stop xs k (λ a i. ground arith)

pub Chain-append :
    (h : Heap Node) (stop : Ptr) (xs ys : Cells)
    → Chain h (first stop ys) xs
    → Chain h stop ys
    → Disjoint xs ys
    → Chain h stop (xs ++ ys)
Chain-append h stop [] ys c k apart = k
Chain-append h stop ((p, d) ∷ xs) ys (ne, out, e, c) k apart = (
  ne,
  rw (has-append, out) (apart p (ground arith)),
  rw first-append e,
  Chain-append h stop xs ys c k (λ a i. apart a (ground arith)),
)

-- The last node of a chain is not null, and lies in the heap.
pub last-in_heap :
    (h : Heap Node) (stop : Ptr) (xs : Cells) (p : Ptr) (d : Object)
    → Chain h stop (xs ++ (p, d) ∷ [])
    → (p ≢ null) × (h p ≡ some (node d stop))
last-in_heap h stop [] p d (ne, out, e, c) = (ne, e)
last-in_heap h stop (x ∷ xs) p d (ne, out, e, c) = last-in_heap h stop xs p d c

pub first-ne-null :
    (h : Heap Node) (stop : Ptr) (xs : Cells) (p : Ptr) (d : Object)
    → Chain h stop (xs ++ (p, d) ∷ [])
    → first p xs ≢ null
first-ne-null h stop [] p d (ne, out, e, c) = ne
first-ne-null h stop (x ∷ xs) p d (ne, out, e, c) = ne

-- A chain that is not empty has a last node.
pub unsnoc :
    (x : Ptr × Object) (xs : Cells) → (ys : Cells) × (z : Ptr × Object) × (x ∷ xs ≡ ys ++ z ∷ [])
unsnoc x [] = ([], x, refl)
unsnoc x (y ∷ xs) = let (ys, z, e) = unsnoc y xs in (x ∷ ys, z, ap (◌∷◌ x) e)

-- Writing the link of the last node lets the chain end anywhere.
pub Chain-relink :
    (h : Heap Node) (stop stop' : Ptr) (xs : Cells) (p : Ptr) (d : Object)
    → Chain h stop (xs ++ (p, d) ∷ [])
    → Chain (write h p (some (node d stop'))) stop' (xs ++ (p, d) ∷ [])
unfolding write
Chain-relink h stop stop' [] p d (ne, out, e, c) = (ne, refl, ground arith, tt)
Chain-relink h stop stop' ((q, v) ∷ xs) p d (ne, out, e, c) = (
  ne,
  out,
  ground (
    arith,
    first-append stop xs ((p, d) ∷ []),
    first-append stop' xs ((p, d) ∷ []),
    has-append q xs ((p, d) ∷ []),
  ),
  Chain-relink h stop stop' xs p d c,
)

-- An unused address holds no node of a chain, and neither does the null pointer.
pub not-has_of_none :
    (h : Heap Node) (stop : Ptr) (xs : Cells) (a : Ptr)
    → Chain h stop xs
    → h a ≡ none
    → has a xs ≡ false
not-has_of_none h stop [] a c e = refl
not-has_of_none h stop ((p, d) ∷ xs) a (ne, out, l, c) e =
    ground (arith, not-has_of_none h stop xs a c)

pub not-has-null : (h : Heap Node) (stop : Ptr) (xs : Cells) → Chain h stop xs → has null xs ≡ false
not-has-null h stop [] c = refl
not-has-null h stop ((p, d) ∷ xs) (ne, out, l, c) = ground (arith, not-has-null h stop xs c)

module _ (h : Heap Node) (p : Ptr) (d : Object) (q : Ptr) (ne : p ≢ null)
    (e : h p ≡ some (node d q)) where
  pub not-null : (p == null) ≡ false
  not-null = ground arith

  pub load-ok : load p h ≡ ok (node d q) h
  unfolding load
  load-ok = rw (not-null, e)

  pub store-ok : (n : Node) → store p n h ≡ ok tt (write h p (some n))
  unfolding store
  store-ok n = rw load-ok

  pub free_node-ok : free_node p h ≡ ok tt (write h p none)
  unfolding free_node
  free_node-ok = rw (not-null, e)

  pub memory_free-ok : memory_free p h ≡ ok tt (write h p none)
  unfolding memory_free
  memory_free-ok = rw (not-null, e)

-- An allocation that succeeds: the new node, and the chains that are there stay.
pub allocate_node-ok :
    (h : Heap Node) (fresh : Ptr) (d : Object)
    → fresh ≢ null
    → allocate_node fresh d h ≡ ok fresh (write h fresh (some (node d null)))
unfolding allocate_node
allocate_node-ok h fresh d ne = ground arith

pub allocate_node-null : (h : Heap Node) (d : Object) → allocate_node null d h ≡ throw memory_failed
unfolding allocate_node
allocate_node-null h d = refl
