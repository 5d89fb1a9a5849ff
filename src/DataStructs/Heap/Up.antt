-- ===== src/DataStructs/Heap/Up.antt =====
-- `__siftup` of src/libs/data_structs/heap.c.
use c_lang_project.DataStructs.Heap.{is_neg, parent, siftup}
use c_lang_project.Lang.Array.Access.{at-swap, count-swap, length-swap, load_at-ok}
use c_lang_project.Lang.Array.{at, swap}
use c_lang_project.DataStructs.ListRep.{Object}
use c_lang_project.DataStructs.Heap.Order.{IsBridged, IsHeap, IsOrder, Le, SameItems, exchange-ok}
use c_lang_project.Lang.Result.{Ends, Ends-mono, ends}
use c_lang_project.Common.{
  ◌<◌, ◌==◌, Bool-cases, List, arith, inl, inr, length, refl, suc, true, zero, ℕ, ◌∙◌, ◌≡◌, ◌≢◌,
  ◌≤◌,
}
use c_lang_project.Common.Int.{ℤ}

module _ (cmp : Object → Object → ℤ) (o : IsOrder cmp) (n : ℕ) where
  -- Only the edge above `i` may be out of order.
  pub record UpInv (a : List Object) (i : ℕ) : Type 0 where
    pub inside : i < n
    pub room : n ≤ length a
    pub edges : (c : ℕ) → 0 < c → c < n → c ≢ i → Le cmp (at a (parent c)) (at a c)
    pub bridged : IsBridged cmp a n i

  swap-edges :
      (a : List Object) (i : ℕ)
      → UpInv a i
      → 0 < i
      → is_neg (cmp (at a i) (at a (parent i))) ≡ true
      → (c : ℕ) → 0 < c
      → c < n
      → c ≢ parent i
      → Le cmp (at (swap a i (parent i)) (parent c)) (at (swap a i (parent i)) c)
  swap-edges a i v p below c q r ne =
      let hi : i < length a = omega (arith, v.inside, v.room) in
      let hp : parent i < length a = omega (arith, v.inside, v.room) in
      let s = at-swap a i (parent i) in
      ground (
        arith,
        s c hi hp,
        s (parent c) hi hp,
        o.asym (at a i) (at a (parent i)),
        v.edges c,
        v.bridged c,
        o.trans (at a i) (at a (parent i)) (at a c),
      )

  swap-IsBridged :
      (a : List Object) (i : ℕ)
      → UpInv a i
      → 0 < i
      → IsBridged cmp (swap a i (parent i)) n (parent i)
  swap-IsBridged a i v p c q r e t =
      let hi : i < length a = omega (arith, v.inside, v.room) in
      let hp : parent i < length a = omega (arith, v.inside, v.room) in
      let s = at-swap a i (parent i) in
      ground (
        arith,
        s c hi hp,
        s (parent (parent i)) hi hp,
        v.edges (parent i),
        v.edges c,
        o.trans (at a (parent (parent i))) (at a (parent i)) (at a c),
      )

  pub record SiftedUp (a b : List Object) : Type 0 where
    pub heap : IsHeap cmp b n
    pub same : SameItems b a n
    pub size : length b ≡ length a

  -- For a comparison that orders the data totally, up to ties: from an array that is a heap but
  -- for the edge above one index, __siftup with fuel above that index ends in a heap of the same
  -- data.
  pub siftup-IsHeap :
      (k : ℕ) (a : List Object) (i : ℕ) → i < k → UpInv a i → Ends (SiftedUp a) (siftup k a i cmp)
  unfolding siftup
  siftup-IsHeap zero a i f v = absurd (omega arith)
  siftup-IsHeap (suc k) a i f v =
      let hi : i < length a = omega (arith, v.inside, v.room) in
      let hp : parent i < length a = omega (arith, v.inside, v.room) in
      elim (Bool-cases (i == 0)) [
        | inl root ↦ rw root (
            ends (record {
              heap = λ c p q. v.edges c p q (ground arith);
              same = λ x. refl;
              size = refl;
            }))
        | inr inner ↦
            rw (inner, load_at-ok a i hi, load_at-ok a (parent i) hp)
              (elim (Bool-cases (is_neg (cmp (at a i) (at a (parent i))))) [
                | inl below ↦
                    let v' : UpInv (swap a i (parent i)) (parent i) = record {
                      inside = omega (arith, v.inside);
                      room = rw (length-swap a i (parent i)) v.room;
                      edges = swap-edges a i v (ground arith) below;
                      bridged = swap-IsBridged a i v (ground arith);
                    } in
                    rw (below, exchange-ok a i (parent i) hi hp)
                      (Ends-mono
                        (siftup-IsHeap k (swap a i (parent i)) (parent i) (ground arith) v')
                        λ b s. record {
                          heap = s.heap;
                          same = λ x.
                              s.same x
                              ∙ count-swap x a i (parent i) n hi hp v.inside
                                  (omega (arith, v.inside));
                          size = s.size ∙ length-swap a i (parent i);
                        })
                | inr settled ↦ rw settled (
                    ends (record {
                      heap = λ c p q. ground (arith, v.edges c);
                      same = λ x. refl;
                      size = refl;
                    }))
              ])
      ]
