-- ===== src/DataStructs/Heap/Delete.antt =====
-- `Heap_delete` of src/libs/data_structs/heap.c. It moves the last datum into the hole and sifts
-- it down, never up.
use native.Mathlib.Decide.{ℕ_discrete}
use c_lang_project.Lang.Result.{done, Ends, Ends-bind, Ends-mono, ends}
use c_lang_project.Lang.Array.Access.{at-set, count-add-one, count-set, load_at-ok, store_at-ok}
use c_lang_project.Lang.Array.{at, count}
use c_lang_project.DataStructs.ListRep.{Object}
use c_lang_project.DataStructs.Heap.Insert.{IsValid, holds}
use c_lang_project.DataStructs.Heap.Order.{IsOrder, Le, IsHeap, SameItems}
use c_lang_project.DataStructs.Heap.Down.{DownInv, SiftedDown, siftdown-IsHeap}
use c_lang_project.Common.{
  ◌+◌, ◌-◌, ◌<◌, ◌==◌, List, Option, arith, if◌then◌else◌, length, length-set, none, set, some, ℕ,
  ◌≡◌, ◌≤◌, ◌⊎◌, sym, true, ap, false, inl, leb, refl, ◌∙◌,
}
use c_lang_project.Common.Int.{ℤ}
use c_lang_project.DataStructs.Heap.{delete, Heap, parent, is_neg}

-- Past the end `Heap_delete` says so and changes nothing.
pub delete-outside :
    (cmp : Object → Object → ℤ) (hp : Heap) (i : ℕ)
    → hp.next ≤ i
    → delete hp i cmp ≡ done (none, hp)
unfolding delete
delete-outside cmp hp i h = ground arith

module _ (cmp : Object → Object → ℤ) (o : IsOrder cmp) where
  abbrev pub last : Heap → Object
  last hp = at hp.storage (hp.next - 1)

  -- The deleted datum is the one asked for, and the heap has exactly the others.
  abbrev pub Deleted : Heap → ℕ → Option Object × Heap → Type 0
  Deleted hp i (out, hp') =
      (out ≡ some (at hp.storage i))
      × (hp'.next ≡ hp.next - 1)
      × (hp'.size ≡ hp.size)
      × ((x : Object) → holds x hp ≡ holds x hp' + (if at hp.storage i == x then 1 else 0))

  -- The last datum is moved into the hole at `i`.
  module _ (hp : Heap) (i n : ℕ) (v : IsValid cmp hp) (e : hp.next ≡ n + 1) (inner : i < n) where
    abbrev moved : List Object
    moved = set hp.storage i (at hp.storage n)

    hole : i < length hp.storage
    hole = omega (arith, v.whole, v.fits)

    at-moved : (c : ℕ) → at moved c ≡ (if i == c then at hp.storage n else at hp.storage c)
    at-moved c = at-set hp.storage i c (at hp.storage n) hole

    -- Behind the hole all edges are in order; all edges of the heap are, if the one above the hole
    -- is.
    moved-DownInv :
        (lo : ℕ)
        → (i ≤ lo) ⊎ (i ≡ 0) ⊎ Le cmp (at hp.storage (parent i)) (at hp.storage n)
        → DownInv cmp o lo n moved i
    moved-DownInv lo high = record {
      inside = inner;
      room = omega (arith, length-set hp.storage i (at hp.storage n), v.whole, v.fits);
      edges = λ c p q up r. ground (arith, at-moved c, at-moved (parent c), v.heap c);
      bridged = λ c p q r z up. ground (
        arith,
        at-moved c,
        at-moved (parent i),
        v.heap c,
        v.heap i,
        o.trans (at hp.storage (parent i)) (at hp.storage i) (at hp.storage c),
      );
    }

    moved-count :
        (b : List Object) (x : Object)
        → SameItems b moved n
        → holds x hp ≡ count x b n + (if at hp.storage i == x then 1 else 0)
    moved-count b x same =
        rw (e, count-add-one x hp.storage n, same x)
          (sym (count-set x hp.storage i (at hp.storage n) n hole inner))

    -- What `Heap_delete` does where the hole is not the last cell.
    delete-inner :
        (lo : ℕ)
        → (i ≤ lo) ⊎ (i ≡ 0) ⊎ Le cmp (at hp.storage (parent i)) (at hp.storage n)
        → Ends
            (λ r.
              Deleted hp i r
              × (length r.1.storage ≡ r.1.size)
              × SiftedDown cmp o lo n moved i r.1.storage)
            (delete hp i cmp)
    unfolding delete
    delete-inner lo high =
        let there : leb hp.next i ≡ false = ground (arith, e) in
        let before : hp.next - 1 ≡ n = omega (arith, e) in
        let not_last : (i == n) ≡ false = ground arith in
        let last_there : n < length hp.storage = omega (arith, e, v.whole, v.fits) in
        rw
          (
            there,
            before,
            not_last,
            load_at-ok hp.storage i hole,
            load_at-ok hp.storage n last_there,
            store_at-ok hp.storage i (at hp.storage n) hole,
          )
          (Ends-bind
            (siftdown-IsHeap cmp o lo n (n + 1) moved i (omega arith) (omega arith)
              (moved-DownInv lo high))
            λ b d. ends (
              (refl, refl, refl, λ x. moved-count b x d.same),
              d.size ∙ length-set hp.storage i (at hp.storage n) ∙ v.whole,
              d,
            ))

  -- Deleting the last datum moves nothing.
  delete-last :
      (hp : Heap) (n : ℕ)
      → IsValid cmp hp
      → hp.next ≡ n + 1
      → Ends (λ r. Deleted hp n r × IsValid cmp r.1) (delete hp n cmp)
  unfolding delete
  delete-last hp n v e =
      let there : leb hp.next n ≡ false = ground (arith, e) in
      let before : hp.next - 1 ≡ n = omega (arith, e) in
      let same : (n == n) ≡ true = ground arith in
      let inside : n < length hp.storage = omega (arith, e, v.whole, v.fits) in
      rw (there, before, same, load_at-ok hp.storage n inside)
        (ends (
          (refl, refl, refl, λ x. ap (count x hp.storage) e ∙ count-add-one x hp.storage n),
          record {
            whole = v.whole;
            fits = omega (arith, e, v.fits);
            heap = λ c p q. v.heap c p (omega (arith, e));
          },
        ))

  -- For a comparison that orders the data totally, up to ties, Heap_delete within a valid heap, of
  -- the last datum, of the root, or of any datum whose parent does not come after the last one,
  -- hands out that datum and leaves a valid heap of exactly the others.
  pub delete-IsValid :
      (hp : Heap) (i : ℕ)
      → IsValid cmp hp
      → i < hp.next
      → (i ≡ hp.next - 1) ⊎ (i ≡ 0) ⊎ Le cmp (at hp.storage (parent i)) (last hp)
      → Ends (λ r. Deleted hp i r × IsValid cmp r.1) (delete hp i cmp)
  delete-IsValid hp i v l high = elim (ℕ_discrete i (hp.next - 1)) [
    | yes e ↦ rw e (delete-last hp (hp.next - 1) v (omega arith))
    | no ne ↦
        let n : ℕ = hp.next - 1 in
        Ends-mono (delete-inner hp i n v (omega arith) (omega arith) 0 (ground arith))
          λ r (del, whole, d). (
            del,
            record {
              whole = whole;
              fits = omega (arith, v.fits, del.1, del.2);
              heap = λ c p q. d.heap c p (omega (arith, del.1)) (omega arith);
            },
          )
  ]

  -- For a comparison that orders the data totally, up to ties, Heap_delete, within a valid heap,
  -- of an inner datum whose parent comes after the last datum ends with the datum handed out and
  -- the others kept, but in an array that is no heap.
  pub delete-breaks :
      (hp : Heap) (i : ℕ)
      → IsValid cmp hp
      → 0 < i
      → i < hp.next - 1
      → is_neg (cmp (last hp) (at hp.storage (parent i))) ≡ true
      → Ends (λ r. Deleted hp i r × ¬ IsHeap cmp r.1.storage r.1.next) (delete hp i cmp)
  delete-breaks hp i v z l worse =
      let n : ℕ = hp.next - 1 in
      Ends-mono (delete-inner hp i n v (omega arith) l i (inl (omega arith))) λ r (del, whole, d). (
        del,
        λ h. ground (
          arith,
          h i z (omega (arith, del.1)),
          d.kept (parent i),
          d.risen,
          at-moved hp i n v (omega arith) l i,
          at-moved hp i n v (omega arith) l (parent i),
          o.trans (at hp.storage (parent i)) (at r.1.storage i) (last hp),
        ),
      )
