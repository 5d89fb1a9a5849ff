-- ===== src/Books/LeftistHeap/Lift.antt =====
-- The loop of `insert` in left_heap.c back up to the root.
use c_lang_project.DataStructs.ListRep.{Object}
use c_lang_project.Books.LeftistHeap.Invariant.{
  IsHeap, IsLeftist, IsValid, above, count, count_on, is_item, is_nil-rank,
}
use c_lang_project.Books.LeftistHeap.{
  Frame, Tree, close, is_nil, lift, lift_node, nil, node, plug, rank,
}
use c_lang_project.Lang.Result.{Ends, Ends-bind, Ends-mono, ends}
use c_lang_project.Common.{◌+◌, ◌<◌, List, [], arith, false, le→ltb, lt→ltb, refl, ℕ, ◌∷◌, ◌≡◌, ◌≤◌}
use native.Mathlib.Decide.{dec_lt}

-- A way down to the right in a leftist heap, to where a heap of rank `h`, above 0, stood.
abbrev pub OnSpine : List Frame → ℕ → Type 0
OnSpine [] h = Unit {0}
OnSpine (f ∷ fs) h =
    (f.rank_of ≡ h + 1)
    × (0 < h)
    × (h ≤ rank f.left)
    × IsLeftist f.left
    × IsHeap f.key f.left
    × (above fs ≤ f.key)
    × OnSpine fs f.rank_of

pub plug-IsValid :
    (fs : List Frame) (t : Tree)
    → OnSpine fs (rank t)
    → IsLeftist t
    → IsHeap (above fs) t
    → 0 < rank t
    → IsValid (plug fs t)
plug-IsValid [] t way s h pos = record { leftist = s; heap = h; some_node = pos }
plug-IsValid (f ∷ fs) t (e, _, le, sl, hl, up, way) s h pos =
    plug-IsValid fs (close f t) way (e, le, sl, s) (up, hl, h) (omega arith)

lift_node-IsValid :
    (f : Frame) (t : Tree)
    → 0 < rank f.left
    → 0 < rank t
    → IsLeftist f.left
    → IsLeftist t
    → IsHeap f.key f.left
    → IsHeap f.key t
    → Ends
        (λ u.
          IsLeftist u
          × (0 < rank u)
          × ((m : ℕ) → m ≤ f.key → IsHeap m u)
          × ((q : ℕ) (x : Object)
              → count q x u ≡ is_item q x f.key f.object + count q x f.left + count q x t))
        (lift_node f t)
lift_node-IsValid f nil pl pt sl st hl ht = absurd (omega arith)
lift_node-IsValid f (node n k o l r) pl pt sl st hl ht =
    let some_left : is_nil f.left ≡ false = is_nil-rank f.left pl in
    rw some_left (elim (dec_lt (rank f.left) n) [
      | yes h ↦ rw (lt→ltb _ _ h) (
          ends ((refl, omega arith, st, sl), omega arith, (λ m p. (p, ht, hl)), λ q x. omega arith))
      | no h ↦ rw (le→ltb (rank f.left) n (omega arith)) (
          ends ((refl, omega arith, sl, st), omega arith, (λ m p. (p, hl, ht)), λ q x. omega arith))
    ])

pub record Lifted (fs : List Frame) (t u : Tree) : Type 0 where
  pub valid : IsValid u
  pub same : (q : ℕ) (x : Object) → count q x u ≡ count_on q x fs + count q x t

pub lift-Lifted :
    (fs : List Frame) (h : ℕ) (t : Tree)
    → OnSpine fs h
    → IsLeftist t
    → IsHeap (above fs) t
    → 0 < rank t
    → Ends (Lifted fs t) (lift fs t)
unfolding lift
lift-Lifted [] h t way s hp pos = ends (record {
  valid = record { leftist = s; heap = hp; some_node = pos };
  same = λ q x. omega arith;
})
lift-Lifted (f ∷ fs) h t (e, ph, le, sl, hl, up, way) s hp pos =
    Ends-bind (lift_node-IsValid f t (omega arith) pos sl s hl hp) λ u (su, pu, hu, cu).
      Ends-mono (lift-Lifted fs f.rank_of u way su (hu (above fs) up) pu)
        λ w d. record { valid = d.valid; same = λ q x. omega (arith, d.same q x, cu q x) }
