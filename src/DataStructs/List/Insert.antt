-- ===== src/DataStructs/List/Insert.antt =====
-- `List_insert` and `List_append` of src/libs/data_structs/list.c.

use c_lang_project.Common.{
  ℕ, zero, suc, ◌<◌, ◌≡◌, refl, ◌≢◌, false, none, some, [], ◌∷◌, ◌++◌, arith, ◌==◌, ap, ◌∙◌, length,
  length-append, subst,
}
use c_lang_project.Lang.Memory.{Ptr, null, Heap, write, ok, throw, memory_failed}
use c_lang_project.Lang.Returns.{Returns, returns}
use c_lang_project.DataStructs.ListRep.{Object, Node, node, allocate_node}
use c_lang_project.DataStructs.ListRep.Chain.{
  Cells, first, Chain, SameOutside, IsList, Chain-frame, Chain-write, not-has_of_none, load-ok,
  store-ok, allocate_node-ok, first-append, first-ne-null, Chain-append, Chain-relink, unsnoc,
  has-append,
}
use c_lang_project.DataStructs.List.{set_next, insert, append_loop, append, is_empty}

pub set_next-ok :
    (h : Heap Node) (p : Ptr) (d : Object) (q r : Ptr)
    → p ≢ null
    → h p ≡ some (node d q)
    → set_next p r h ≡ ok tt (write h p (some (node d r)))
unfolding set_next
set_next-ok h p d q r ne e = rw (load-ok h p d q ne e, store-ok h p d q ne e (node d r))

-- List_insert, with malloc succeeding, returns with the new node in front of the others, and
-- writes only that node.
pub insert-cons :
    (h : Heap Node) (fresh list : Ptr) (d : Object) (xs : Cells)
    → IsList h list xs
    → fresh ≢ null
    → h fresh ≡ none
    → Returns
        (λ p g. IsList g p ((fresh, d) ∷ xs) × SameOutside ((fresh, d) ∷ []) h g)
        (insert fresh list d h)
unfolding insert write
insert-cons h fresh list d xs l ne unused =
    let out = not-has_of_none h null xs fresh l.chain unused in
    rw
      (
        allocate_node-ok h fresh d ne,
        set_next-ok (write h fresh (some (node d null))) fresh d null list ne (ground arith),
      )
      (returns (
        record {
          start = refl;
          chain = (
            ne,
            out,
            ground (arith, l.start),
            Chain-frame h _ null xs l.chain (λ a i. ground arith),
          );
        },
        λ a o. ground arith,
      ))

-- When `malloc` has nothing left, the exception leaves the list as it was.
pub insert-null :
    (h : Heap Node) (list : Ptr) (d : Object) → insert null list d h ≡ throw memory_failed
unfolding insert allocate_node
insert-null h list d = refl

ne_null :
    (h : Heap Node) (stop : Ptr) (xs : Cells) (p : Ptr) (d : Object)
    → Chain h stop (xs ++ (p, d) ∷ [])
    → (first p xs == null) ≡ false
ne_null h stop xs p d c = ground (arith, first-ne-null h stop xs p d c)

-- The walk ends at the last node, which it links to `p`.
append_loop-relinks :
    (k : ℕ) (h : Heap Node) (p : Ptr) (xs : Cells) (q : Ptr) (d : Object)
    → Chain h null (xs ++ (q, d) ∷ [])
    → length xs < k
    → append_loop k (first q xs) p h ≡ ok tt (write h q (some (node d p)))
unfolding append_loop
append_loop-relinks zero h p xs q d c f = absurd (omega arith)
append_loop-relinks (suc k) h p [] q d (ne, out, e, c) f =
    rw (load-ok h q d null ne e) (set_next-ok h q d null p ne e)
append_loop-relinks (suc k) h p ((r, v) ∷ xs) q d (ne, out, e, c) f =
    let e' = rw first-append at e in
    rw (load-ok h r v (first q xs) ne e', ne_null h null xs q d c)
      (append_loop-relinks k h p xs q d c (omega arith))

abbrev pub Appended : Heap Node → Ptr → Object → Cells → Ptr → Heap Node → Type 0
Appended h fresh d xs p g =
    IsList g p (xs ++ (fresh, d) ∷ []) × SameOutside (xs ++ (fresh, d) ∷ []) h g

append-behind :
    (k : ℕ) (h : Heap Node) (fresh : Ptr) (d : Object) (ys : Cells) (q : Ptr) (v : Object)
    → Chain h null (ys ++ (q, v) ∷ [])
    → fresh ≢ null
    → h fresh ≡ none
    → length ys < k
    → Returns (Appended h fresh d (ys ++ (q, v) ∷ [])) (append k fresh (first q ys) d h)
unfolding append is_empty write
append-behind k h fresh d ys q v c ne unused f =
    let zs : Cells = ys ++ (q, v) ∷ [] in
    let h1 = write h fresh (some (node d null)) in
    let out = not-has_of_none h null zs fresh c unused in
    let c1 = Chain-write h null zs fresh (some (node d null)) c out in
    rw
      (
        allocate_node-ok h fresh d ne,
        ne_null h null ys q v c,
        append_loop-relinks k h1 fresh ys q v c1 f,
      )
      (returns (
        record {
          start =
              ground (
                arith,
                first-append null zs ((fresh, d) ∷ []),
                first-append fresh ys ((q, v) ∷ []),
              );
          chain =
              Chain-append _ null zs ((fresh, d) ∷ []) (Chain-relink h1 null fresh ys q v c1)
                (ne, refl, ground (arith, has-append fresh ys ((q, v) ∷ [])), tt)
                (λ a i. grind arith);
        },
        λ a o. ground (arith, has-append a zs ((fresh, d) ∷ []), has-append a ys ((q, v) ∷ [])),
      ))

-- With fuel above the length of the list, List_append, with malloc succeeding, returns with the
-- new node behind the others, and writes nothing outside the new list.
pub append-snoc :
    (k : ℕ) (h : Heap Node) (fresh list : Ptr) (d : Object) (xs : Cells)
    → IsList h list xs
    → fresh ≢ null
    → h fresh ≡ none
    → length xs < k
    → Returns (Appended h fresh d xs) (append k fresh list d h)
unfolding append is_empty write
append-snoc k h fresh list d [] l ne unused f =
    rw (l.start, allocate_node-ok h fresh d ne)
      (returns (record { start = refl; chain = (ne, refl, ground arith, tt) }, λ a o. ground arith))
append-snoc k h fresh list d (x ∷ xs) l ne unused f =
    let (ys, (q, v), e) = unsnoc x xs in
    let same : first null (ys ++ (q, v) ∷ []) ≡ first q ys = first-append null ys ((q, v) ∷ []) in
    let c : Chain h null (ys ++ (q, v) ∷ []) = subst (Chain h null) e l.chain in
    let start : list ≡ first q ys = l.start ∙ ap (first null) e ∙ same in
    let room : length ys < k = omega (arith, ap length e, length-append ys ((q, v) ∷ [])) in
    rw (e, start) (append-behind k h fresh d ys q v c ne unused room)
