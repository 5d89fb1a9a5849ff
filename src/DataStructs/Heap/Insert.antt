-- ===== src/DataStructs/Heap/Insert.antt =====
-- `Heap_new` and `Heap_insert` of src/libs/data_structs/heap.c.
use c_lang_project.Lang.Array.Access.{at-set, store_at-ok, count-add-one, count-set_above}
use c_lang_project.Lang.Array.{at, count, store_at}
use c_lang_project.DataStructs.Heap.Up.{UpInv, siftup-IsHeap}
use c_lang_project.DataStructs.ListRep.{Object}
use c_lang_project.DataStructs.Heap.Order.{IsHeap, IsOrder}
use c_lang_project.Common.{
  ◌%◌, ◌+◌, ◌++◌, ◌<◌, ◌==◌, List, [], ◌^◌, arith, if◌then◌else◌, length, length-append, length-set,
  refl, set, some, suc, take-length, true, zero, ℕ, ◌∙◌, ◌∷◌, ◌≡◌, ◌≤◌, Bool-cases, inl, inr,
}
use c_lang_project.Lang.Result.{◌>>=◌, Ends, Ends-bind, done, ends, Ends-mono}
use c_lang_project.Common.Int.{ℤ}
use c_lang_project.DataStructs.Heap.{
  grow, new, is_empty, Heap, k_resize_step, parent, siftup, insert,
}

-- The block has the size that is noted down, and its first cells are a heap.
pub record IsValid (cmp : Object → Object → ℤ) (hp : Heap) : Type 0 where
  pub whole : length hp.storage ≡ hp.size
  pub fits : hp.next ≤ hp.size
  pub heap : IsHeap cmp hp.storage hp.next

-- What `realloc` adds behind the old cells, and no overflow of `size`.
pub record CanGrow (hp : Heap) (more : List Object) : Type 0 where
  pub added : length more ≡ k_resize_step
  pub small : hp.size + k_resize_step < 2 ^ 64

-- How often the heap holds a datum.
abbrev pub holds : Object → Heap → ℕ
holds x hp = count x hp.storage hp.next

-- `Heap_new` is an empty heap.
pub new-IsValid :
    (cmp : Object → Object → ℤ) (b : List Object)
    → length b ≡ k_resize_step
    → Ends (λ hp. IsValid cmp hp × (is_empty hp ≡ true)) (new (some b))
unfolding new is_empty
new-IsValid cmp b e =
    ends (record { whole = e; fits = omega arith; heap = λ c p q. absurd (omega arith) }, refl)

at-append : (a b : List Object) (i : ℕ) → i < length a → at (a ++ b) i ≡ at a i
unfolding at
at-append [] b i h = absurd (omega arith)
at-append (x ∷ a) b zero h = refl
at-append (x ∷ a) b (suc i) h = at-append a b i (omega arith)

count-append : (x : ℕ) (a b : List Object) (n : ℕ) → n ≤ length a → count x (a ++ b) n ≡ count x a n
unfolding count
count-append x a b zero h = refl
count-append x a b (suc n) h = rw (count-append x a b n (omega arith), at-append a b n h)

module _ (cmp : Object → Object → ℤ) (o : IsOrder cmp) where
  -- Growing moves the heap to a larger block.
  grow-IsValid :
      (hp : Heap) (more : List Object)
      → IsValid cmp hp
      → CanGrow hp more
      → hp.next ≡ hp.size
      → Ends
          (λ hp'.
            IsValid cmp hp'
            × (hp'.next < hp'.size)
            × (hp'.next ≡ hp.next)
            × ((x : Object) → holds x hp' ≡ holds x hp))
          (grow (some more) hp)
  unfolding grow
  grow-IsValid hp more v g full =
      let n : (hp.size + k_resize_step) % 2 ^ 64 ≡ hp.size + k_resize_step =
        omega (arith, g.small) in
      let len : length (hp.storage ++ more) ≡ hp.size + k_resize_step =
        omega (arith, length-append hp.storage more, v.whole, g.added) in
      rw (n, take-length (hp.storage ++ more) (hp.size + k_resize_step) len)
        (ends (
          record {
            whole = len;
            fits = omega arith;
            heap = λ c p q.
                rw
                  (
                    at-append hp.storage more c (omega (arith, v.whole)),
                    at-append hp.storage more (parent c) (omega (arith, v.whole)),
                  )
                  (v.heap c p q);
          },
          omega arith,
          refl,
          λ x. count-append x hp.storage more hp.next (omega (arith, v.whole)),
        ))

  abbrev pub Inserted : Object → Heap → Heap → Type 0
  Inserted d hp hp' =
      IsValid cmp hp'
      × (hp'.next ≡ hp.next + 1)
      × ((x : Object) → holds x hp' ≡ holds x hp + (if d == x then 1 else 0))

  -- The insertion proper, into a free cell.
  place-Inserted :
      (hp : Heap) (d : Object)
      → IsValid cmp hp
      → hp.next < hp.size
      → Ends (Inserted d hp) (do
        a ← store_at hp.storage hp.next d
        b ← siftup (hp.next + 1) a hp.next cmp
        done (record hp { storage = b; next = hp.next + 1 }))
  place-Inserted hp d v room =
      let inside : hp.next < length hp.storage = omega (arith, v.whole) in
      let a : List Object = set hp.storage hp.next d in
      let s = at-set hp.storage hp.next in
      let size = length-set hp.storage hp.next d in
      let start : UpInv cmp o (hp.next + 1) a hp.next = record {
        inside = omega arith;
        room = omega (arith, size);
        edges = λ c p q r. ground (arith, s c d, s (parent c) d, v.heap c);
        bridged = λ c p q e z. absurd (omega arith);
      } in
      rw (store_at-ok hp.storage hp.next d inside) (
        Ends-bind (siftup-IsHeap cmp o (hp.next + 1) (hp.next + 1) a hp.next (omega arith) start)
          λ b t. ends (
            record { whole = t.size ∙ size ∙ v.whole; fits = omega arith; heap = t.heap },
            refl,
            λ x. t.same x ∙ counted x,
          ))
    where
      counted :
          (x : Object)
          → count x (set hp.storage hp.next d) (hp.next + 1)
            ≡ holds x hp + (if d == x then 1 else 0)
      counted x =
          let inside : hp.next < length hp.storage = omega (arith, v.whole) in
          rw
            (
              count-add-one x (set hp.storage hp.next d) hp.next,
              count-set_above x hp.storage hp.next d hp.next inside (omega arith),
            )
            (ground (arith, at-set hp.storage hp.next hp.next d))

  -- For a comparison that orders the data totally, up to ties, Heap_insert on a valid heap, with
  -- realloc succeeding and no overflow of the size, ends without undefined behaviour in a valid
  -- heap whose first cells are in heap order, with one datum more, which holds the inserted datum
  -- once more and every other one as often as before.
  pub insert-Inserted :
      (more : List Object) (hp : Heap) (d : Object)
      → IsValid cmp hp
      → CanGrow hp more
      → Ends (Inserted d hp) (insert (some more) hp d cmp)
  unfolding insert
  insert-Inserted more hp d v g = elim (Bool-cases (hp.next == hp.size)) [
    | inl full ↦ rw full (
        Ends-bind (grow-IsValid hp more v g (ground arith)) λ hp' (v', room, n, same).
          Ends-mono (place-Inserted hp' d v' room)
            λ hp'' (v'', n', held). (v'', omega arith, λ x. rw (held x, same x)))
    | inr free ↦ rw free (place-Inserted hp d v (ground (arith, v.fits)))
  ]
