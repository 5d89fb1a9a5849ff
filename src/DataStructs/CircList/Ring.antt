-- ===== src/DataStructs/CircList/Ring.antt =====
-- What the operations of src/libs/data_structs/circ_list.c do to a ring of nodes.
use c_lang_project.DataStructs.Examples.{unused}
use c_lang_project.DataStructs.List.Insert.{set_next-ok}
use c_lang_project.Lang.Returns.{Returns, returns}
use c_lang_project.Lang.Memory.{Heap, Ptr, null, write}
use c_lang_project.DataStructs.ListRep.{Node, Object, node}
use c_lang_project.DataStructs.ListRep.Chain.{
  Cells, Chain, Chain-relink, Chain-write, allocate_node-ok, first, first-append, last-in_heap,
  load-ok, memory_free-ok, not-has_of_none,
}
use c_lang_project.Common.{
  ◌++◌, ◌<◌, ◌==◌, Option, [], arith, false, none, refl, some, suc, true, zero, ℕ, ◌∷◌, ◌≡◌, ◌≢◌,
}
use c_lang_project.DataStructs.CircList.{insert, destroy, destroy_loop, is_empty}
use c_lang_project.DataStructs.List.{free_data}

-- The nodes `xs`, and behind them the one at `list`, with the data `d`, which leads back to the
-- first.
abbrev pub Ring : Heap Node → Ptr → Cells → Object → Type 0
Ring h list xs d = Chain h (first list xs) (xs ++ (list, d) ∷ [])

-- CircList_insert on a ring that is not empty, with malloc succeeding, keeps the list pointer and
-- leaves the ring with the new node in front of the others.
pub insert-Ring :
    (h : Heap Node) (fresh list : Ptr) (v d : Object) (xs : Cells)
    → Ring h list xs d
    → fresh ≢ null
    → h fresh ≡ none
    → Returns (λ p g. (p ≡ list) × Ring g list ((fresh, v) ∷ xs) d) (insert fresh list v h)
unfolding insert is_empty write
insert-Ring h fresh list v d xs c ne unused =
    let zs : Cells = xs ++ (list, d) ∷ [] in
    let stop : Ptr = first list xs in
    let out = not-has_of_none h stop zs fresh c unused in
    let h1 = write h fresh (some (node v null)) in
    let h2 = write h1 fresh (some (node v stop)) in
    let c1 = Chain-write h stop zs fresh (some (node v null)) c out in
    let c2 = Chain-write h1 stop zs fresh (some (node v stop)) c1 out in
    let (ne', e') = last-in_heap h1 stop xs list d c1 in
    let (_, e2) = last-in_heap h2 stop xs list d c2 in
    let there : (list == null) ≡ false = ground arith in
    let other : (list == fresh) ≡ false = ground (arith, last-in_heap h stop xs list d c) in
    rw
      (
        allocate_node-ok h fresh v ne,
        there,
        load-ok h1 list d stop ne' e',
        set_next-ok h1 fresh v null stop ne (ground arith),
        set_next-ok h2 list d stop fresh ne' e2,
      )
      (returns (
        refl,
        (
          ne,
          out,
          ground (arith, first-append fresh xs ((list, d) ∷ [])),
          Chain-relink h2 stop fresh xs list d c2,
        ),
      ))

-- With fuel for two rounds, CircList_destroy of a ring that is not empty hands only the datum at
-- the list pointer to the free function and frees only that node; every other cell of the heap
-- stays as it was.
pub destroy-leaks :
    {S : Type 0} (k : ℕ) (h : Heap Node) (list : Ptr) (xs : Cells) (d : Object)
    (free : Option (Object → S → S)) (s : S)
    → Ring h list xs d
    → 1 < k
    → Returns
        (λ r g. (r.1 ≡ free_data free d s) × (g list ≡ none) × ((a : Ptr) → a ≢ list → g a ≡ h a))
        (destroy k list free s h)
unfolding destroy destroy_loop write
destroy-leaks zero h list xs d free s c f = absurd (omega arith)
destroy-leaks (suc zero) h list xs d free s c f = absurd (omega arith)
destroy-leaks (suc (suc k)) h list xs d free s c f =
    let stop : Ptr = first list xs in
    let (ne, e) = last-in_heap h stop xs list d c in
    let there : (list == null) ≡ false = ground arith in
    let same : (stop == stop) ≡ true = ground arith in
    rw (there, load-ok h list d stop ne e, memory_free-ok h list d stop ne e, same)
      (returns (refl, ground arith, λ a o. ground arith))
