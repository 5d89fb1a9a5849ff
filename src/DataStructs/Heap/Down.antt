-- ===== src/DataStructs/Heap/Down.antt =====
-- `__siftdown` of src/libs/data_structs/heap.c.
use c_lang_project.Lang.Result.{Ends, ends, Ends-mono}
use c_lang_project.DataStructs.ListRep.Chain.{first}
use c_lang_project.DataStructs.Heap.{parent, is_neg, is_pos, siftdown}
use c_lang_project.Lang.Array.Access.{at-swap, count-swap, length-swap, load_at-ok}
use c_lang_project.Lang.Array.{at, swap}
use c_lang_project.DataStructs.ListRep.{Object}
use c_lang_project.DataStructs.Heap.Order.{IsOrder, Le, SameItems, exchange-ok}
use c_lang_project.Common.{
  ◌*◌, ◌+◌, ◌<◌, List, arith, length, refl, ℕ, ◌∙◌, ◌≡◌, ◌≢◌, ◌≤◌, ◌⊎◌, Bool-cases, if◌then◌else◌,
  inr, true, ◌||◌, inl, leb, suc, zero,
}
use c_lang_project.Common.Int.{ℤ}

module _ (cmp : Object → Object → ℤ) (o : IsOrder cmp) (lo n : ℕ) where
  -- Of the edges whose parent is `lo` or lies behind it, only those below `p` may be out of order.
  pub record DownInv (a : List Object) (p : ℕ) : Type 0 where
    pub inside : p < n
    pub room : n ≤ length a
    pub edges :
        (c : ℕ) → 0 < c → c < n → lo ≤ parent c → parent c ≢ p → Le cmp (at a (parent c)) (at a c)
    pub bridged :
        (c : ℕ)
        → 0 < c
        → c < n
        → parent c ≡ p
        → 0 < p
        → lo ≤ parent p
        → Le cmp (at a (parent p)) (at a c)

  -- `m` is a child of `p` that does not come after the other, nor after `p`.
  record IsFirstChild (a : List Object) (p m : ℕ) : Type 0 where
    inside : m < n
    child : (m ≡ 2 * p + 1) ⊎ (m ≡ 2 * p + 2)
    least : (c : ℕ) → 0 < c → c < n → parent c ≡ p → Le cmp (at a m) (at a c)
    below : Le cmp (at a m) (at a p)

  pub record SiftedDown (a : List Object) (p : ℕ) (b : List Object) : Type 0 where
    pub heap : (c : ℕ) → 0 < c → c < n → lo ≤ parent c → Le cmp (at b (parent c)) (at b c)
    pub same : SameItems b a n
    pub size : length b ≡ length a
    pub kept : (j : ℕ) → j < p → at b j ≡ at a j
    pub risen : Le cmp (at b p) (at a p)

  swap-DownInv :
      (a : List Object) (p m : ℕ) → DownInv a p → IsFirstChild a p m → DownInv (swap a p m) m
  swap-DownInv a p m v s =
      let hp : p < length a = omega (arith, v.inside, v.room) in
      let hm : m < length a = omega (arith, s.inside, v.room) in
      let t = at-swap a p m in
      record {
        inside = s.inside;
        room = rw (length-swap a p m) v.room;
        edges = λ c q r up ne. ground (
          arith,
          t c hp hm,
          t (parent c) hp hm,
          v.edges c,
          v.bridged m,
          s.least c,
          s.below,
          s.child,
          s.inside,
        );
        bridged = λ c q r e z up.
            ground (arith, t c hp hm, t (parent m) hp hm, v.edges c, s.child, s.inside);
      }

  settled :
      (a : List Object) (p : ℕ)
      → DownInv a p
      → ((c : ℕ) → 0 < c → c < n → parent c ≡ p → Le cmp (at a p) (at a c))
      → SiftedDown a p a
  settled a p v h = record {
    heap = λ c q r up. ground (arith, v.edges c, h c);
    same = λ x. refl;
    size = refl;
    kept = λ j l. refl;
    risen = ground (arith, o.asym (at a p) (at a p));
  }

  sunk :
      (a b : List Object) (p m : ℕ)
      → DownInv a p
      → IsFirstChild a p m
      → SiftedDown (swap a p m) m b
      → SiftedDown a p b
  sunk a b p m v s d =
      let hp : p < length a = omega (arith, v.inside, v.room) in
      let hm : m < length a = omega (arith, s.inside, v.room) in
      let t = at-swap a p m in
      record {
        heap = d.heap;
        same = λ x. d.same x ∙ count-swap x a p m n hp hm v.inside s.inside;
        size = d.size ∙ length-swap a p m;
        kept = λ j l. ground (arith, d.kept j, t j hp hm, s.child);
        risen = ground (arith, d.kept p, t p hp hm, s.child, s.below);
      }

  left-IsFirstChild :
      (a : List Object) (p : ℕ)
      → 2 * p + 2 ≡ n
      → is_pos (cmp (at a p) (at a (2 * p + 1))) ≡ true
      → IsFirstChild a p (2 * p + 1)
  left-IsFirstChild a p e gt =
      let l : ℕ = 2 * p + 1 in
      record {
        inside = omega arith;
        child = inl refl;
        least = λ c q r u.
            let only : c ≡ 2 * p + 1 = omega arith in
            rw only (ground (arith, o.asym (at a l) (at a l)));
        below = o.asym (at a l) (at a p) (ground (arith, o.flip (at a p) (at a l)));
      }

  two-IsFirstChild :
      (a : List Object) (p : ℕ)
      → 2 * p + 2 < n
      → (is_pos (cmp (at a p) (at a (2 * p + 1))) || is_pos (cmp (at a p) (at a (2 * p + 2))))
        ≡ true
      → IsFirstChild a p
          (if is_neg (cmp (at a (2 * p + 1)) (at a (2 * p + 2))) then 2 * p + 1 else 2 * p + 2)
  two-IsFirstChild a p room gt =
      let x : Object = at a p in
      let l : Object = at a (2 * p + 1) in
      let r : Object = at a (2 * p + 2) in
      let one_of : (c : ℕ) → 0 < c → parent c ≡ p → (c ≡ 2 * p + 1) ⊎ (c ≡ 2 * p + 2) =
        (λ c q v. omega arith) in
      elim (Bool-cases (is_neg (cmp l r))) [
        | inl first ↦ rw first (record {
          inside = omega arith;
          child = inl refl;
          least = λ c q u v. ground (arith, one_of c q v, o.asym l r, o.asym l l);
          below =
              ground
                (arith, o.flip x l, o.flip x r, o.asym l r, o.asym l x, o.asym r x, o.trans l r x);
        })
        | inr second ↦ rw second (record {
          inside = room;
          child = inr refl;
          least = λ c q u v. ground (arith, one_of c q v, o.asym r r);
          below = ground (arith, o.flip x l, o.flip x r, o.asym l x, o.asym r x, o.trans r l x);
        })
      ]

  -- For a comparison that orders the data totally, up to ties: from an array in which only the
  -- edges below one index may be out of order, __siftdown with enough fuel ends with all edges
  -- from the given bound on in order, the same data, the cells before the index untouched, and no
  -- later datum at the index.
  pub siftdown-IsHeap :
      (k : ℕ) (a : List Object) (p : ℕ)
      → n ≤ k + p
      → 0 < k
      → DownInv a p
      → Ends (SiftedDown a p) (siftdown k a n p cmp)
  unfolding siftdown
  siftdown-IsHeap zero a p f g v = absurd (omega arith)
  siftdown-IsHeap (suc k) a p f g v =
      let right : 2 * p + 1 + 1 ≡ 2 * p + 2 = omega arith in
      let hp : p < length a = omega (arith, v.inside, v.room) in
      elim (Bool-cases (leb n (2 * p + 1))) [
        | inl leaf ↦ rw leaf (ends (settled a p v (λ c q r u. absurd (ground arith))))
        | inr inner ↦
            let hl : 2 * p + 1 < length a = ground (arith, v.room) in
            rw (inner, right)
              (elim (Bool-cases (leb n (2 * p + 2))) [
                | inl only ↦
                    rw (only, load_at-ok a p hp, load_at-ok a (2 * p + 1) hl)
                      (elim (Bool-cases (is_pos (cmp (at a p) (at a (2 * p + 1))))) [
                        | inl gt ↦
                            let s = left-IsFirstChild a p (ground arith) gt in
                            let leaf =
                              settled (swap a p (2 * p + 1)) (2 * p + 1)
                                (swap-DownInv a p (2 * p + 1) v s)
                                (λ c q r u. absurd (ground arith)) in
                            rw (gt, exchange-ok a p (2 * p + 1) hp hl)
                              (ends (sunk a _ p (2 * p + 1) v s leaf))
                        | inr le ↦ rw le (
                            ends (
                              settled a p v λ c q r u.
                                let c-left : c ≡ 2 * p + 1 = ground arith in
                                rw c-left (ground (arith, o.flip (at a p) (at a (2 * p + 1))))))
                      ])
                | inr both ↦
                    let hr : 2 * p + 2 < length a = ground (arith, v.room) in
                    rw
                      (
                        both,
                        load_at-ok a p hp,
                        load_at-ok a (2 * p + 1) hl,
                        load_at-ok a (2 * p + 2) hr,
                      )
                      (elim (Bool-cases (
                        is_pos (cmp (at a p) (at a (2 * p + 1)))
                        || is_pos (cmp (at a p) (at a (2 * p + 2))))) [
                          | inl gt ↦
                              let m : ℕ =
                                if is_neg (cmp (at a (2 * p + 1)) (at a (2 * p + 2)))
                                then 2 * p + 1
                                else 2 * p + 2 in
                              let s = two-IsFirstChild a p (ground arith) gt in
                              let hm : m < length a = omega (arith, s.inside, v.room) in
                              rw (gt, exchange-ok a p m hp hm)
                                (Ends-mono
                                  (siftdown-IsHeap k (swap a p m) m (omega (arith, s.child))
                                    (omega (arith, s.child, s.inside)) (swap-DownInv a p m v s))
                                  λ b d. sunk a b p m v s d)
                          | inr le ↦ rw le (
                              ends (
                                settled a p v λ c q r u.
                                  let one_of : (c ≡ 2 * p + 1) ⊎ (c ≡ 2 * p + 2) = omega arith in
                                  ground (
                                    arith,
                                    one_of,
                                    o.flip (at a p) (at a (2 * p + 1)),
                                    o.flip (at a p) (at a (2 * p + 2)),
                                  )))
                        ])
              ])
      ]
