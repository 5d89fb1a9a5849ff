-- ===== src/Books/LeftistHeap/Insert.antt =====
-- `insert` of left_heap.c.
use c_lang_project.Books.LeftistHeap.Lift.{OnSpine, lift-Lifted, plug-IsValid}
use c_lang_project.DataStructs.ListRep.{Object}
use c_lang_project.Books.LeftistHeap.Invariant.{
  IsHeap, IsLeftist, IsValid, above, count, is_item, is_nil-rank, holds, IsLeftistHeap,
  count-is_nil, count-plug, holds-count, rank-le, rank_pos, size,
}
use c_lang_project.Books.LeftistHeap.{
  Frame, Tree, close, is_nil, nil, node, plug, go_down, insert_below, stack_room, insert,
}
use c_lang_project.Lang.Result.{Ends, Ends-mono, ends}
use c_lang_project.Common.{
  ◌+◌, ◌<◌, List, [], arith, false, le→ltb, lt→ltb, refl, ℕ, ◌∷◌, ◌≡◌, ◌≤◌, Bool-cases, inl, inr,
  length, ==-false, ==-true, ◌^◌, true, ◌∙◌, ap, sym,
}
use native.Mathlib.Decide.{dec_lt}

-- Where the loop down ends: the new key belongs between `tmp` and its right subtree.
pub record Down (q room : ℕ) (whole : Tree) (r : List Frame × Frame × Tree) : Type 0 where
  pub spine : OnSpine r.0 r.1.rank_of
  pub leftist : IsLeftist (close r.1 r.2)
  pub heap : IsHeap (above r.0) (close r.1 r.2)
  pub after : r.1.key ≤ q
  pub before : IsHeap q r.2
  pub same : plug r.0 (close r.1 r.2) ≡ whole
  pub short : length r.0 + r.1.rank_of ≡ room

go_down-Down :
    (q : ℕ) (fs : List Frame) (f : Frame) (t : Tree)
    → OnSpine fs f.rank_of
    → IsLeftist (close f t)
    → IsHeap (above fs) (close f t)
    → f.key ≤ q
    → Down q (length fs + f.rank_of) (plug fs (close f t)) (go_down q fs f t)
unfolding go_down
go_down-Down q fs f nil way s h after = record {
  spine = way;
  leftist = s;
  heap = h;
  after = after;
  before = tt;
  same = refl;
  short = refl;
}
go_down-Down q fs f (node n k o l r) way (e, le, sl, (e', le', sl', sr')) (up, hl, (m, hl', hr'))
      after =
    elim (dec_lt k q) [
      | yes p ↦
          let g : Frame = record { rank_of = n; key = k; object = o; left = l } in
          let rec =
            go_down-Down q (f ∷ fs) g r (e, omega arith, le, sl, hl, up, way) (e', le', sl', sr')
              (m, hl', hr') (omega arith) in
          rw (lt→ltb _ _ p) (record {
            spine = rec.spine;
            leftist = rec.leftist;
            heap = rec.heap;
            after = rec.after;
            before = rec.before;
            same = rec.same;
            short = omega (arith, rec.short);
          })
      | no p ↦ rw (le→ltb k q (omega arith)) (record {
        spine = way;
        leftist = (e, le, sl, (e', le', sl', sr'));
        heap = (up, hl, (m, hl', hr'));
        after = after;
        before = (omega arith, hl', hr');
        same = refl;
        short = refl;
      })
    ]

-- What `insert` leaves.
pub record Inserted (k : ℕ) (o : Object) (t u : Tree) : Type 0 where
  pub valid : IsValid u
  pub same : (q : ℕ) (x : Object) → holds q x u ≡ is_item q x k o + holds q x t

module _ (k : ℕ) (o : Object) (fs : List Frame) (f : Frame) (way : OnSpine fs f.rank_of)
    (after : f.key ≤ k) (few : length fs ≤ stack_room) where
  abbrev Grown : Tree → Tree → Type 0
  Grown below u =
      IsValid u
      × ((q : ℕ) (x : Object) → count q x u ≡ is_item q x k o + count q x (plug fs (close f below)))

  -- `tmp` has no subtrees.
  insert_left-Grown :
      is_nil f.left ≡ true
      → f.rank_of ≡ 1
      → above fs ≤ f.key
      → Ends (Grown nil) (insert_below k o fs f nil)
  unfolding insert_below
  insert_left-Grown z e up =
      let t : Tree = node f.rank_of f.key f.object (node 1 k o nil nil) nil in
      rw (le→ltb stack_room (length fs) few, z)
        (ends (
          plug-IsValid fs t way (omega arith, omega arith, omega arith, tt)
              (up, (after, tt, tt), tt) (omega arith),
          λ q x. omega (
            arith,
            count-plug q x fs t,
            count-plug q x fs (close f nil),
            count-is_nil q x f.left z,
          ),
        ))

  insert_right-Grown :
      (below : Tree)
      → is_nil f.left ≡ false
      → IsLeftist (close f below)
      → IsHeap (above fs) (close f below)
      → IsHeap k below
      → Ends (Grown below) (insert_below k o fs f below)
  unfolding insert_below
  insert_right-Grown below z (e, le, sl, s) (up, hl, _) before =
      let t : Tree = node 2 f.key f.object f.left (node 1 k o below nil) in
      let pos = rank_pos f.left sl z in
      rw (le→ltb stack_room (length fs) few, z)
        (Ends-mono
          (lift-Lifted fs f.rank_of t way (refl, omega arith, sl, (refl, omega arith, s, tt))
            (up, hl, (after, before, tt)) (omega arith))
          λ u d. (d.valid, λ q x. omega (arith, d.same q x, count-plug q x fs (close f below))))

  insert_below-Grown :
      (below : Tree)
      → IsLeftist (close f below)
      → IsHeap (above fs) (close f below)
      → IsHeap k below
      → Ends (Grown below) (insert_below k o fs f below)
  insert_below-Grown nil s h before = elim (Bool-cases (is_nil f.left)) [
    | inl z ↦ insert_left-Grown z (omega arith) h.0
    | inr z ↦ insert_right-Grown nil z s h before
  ]
  insert_below-Grown (node n k' o' l r) s h before =
      insert_right-Grown (node n k' o' l r) (is_nil-rank f.left (omega arith)) s h before

-- insert of left_heap.c, with get_node succeeding, on a leftist heap that may be empty and has
-- fewer than 2 ^ 50 nodes, ends without undefined behaviour in a leftist heap with the new item
-- once more and every other one as often as before.
pub insert-Inserted_heap :
    (k : ℕ) (o : Object) (t : Tree)
    → IsLeftistHeap t
    → size t < 2 ^ 50
    → Ends (Inserted k o t) (insert true k o t)
unfolding insert
insert-Inserted_heap k o nil (inl (e, some_node)) small = cc
insert-Inserted_heap k o nil (inr v) small = absurd (omega (arith, v.some_node))
insert-Inserted_heap k o (node n k' o' l r) (inl (e, _)) small = rw (==-true n 0 e) (
    ends (record {
      valid = record { leftist = omega arith; heap = omega arith; some_node = omega arith };
      same = λ q x. rw (==-true n 0 e) (omega arith);
    }))
insert-Inserted_heap k o (node n k' o' l r) (inr v) small =
    let t : Tree = node n k' o' l r in
    let f : Frame = record { rank_of = n; key = k'; object = o'; left = l } in
    let there = ==-false n 0 (omega (arith, v.some_node)) in
    rw there (elim (dec_lt k k') [
      | yes p ↦ rw (lt→ltb _ _ p) (
          ends (record {
            valid = record {
              leftist = (refl, omega arith, v.leftist, tt);
              heap = (omega arith, (omega arith, v.heap.1, v.heap.2), tt);
              some_node = omega arith;
            };
            same = λ q x. rw there (omega arith);
          }))
      | no p ↦
          let d = go_down-Down k [] f r tt v.leftist v.heap (omega arith) in
          let low = rank-le t v.leftist small in
          rw (le→ltb k k' (omega arith)) (
            Ends-mono
              (insert_below-Grown k o (go_down k [] f r).0 (go_down k [] f r).1 d.spine d.after
                (omega (arith, d.short)) (go_down k [] f r).2 d.leftist d.heap d.before)
              λ u (vu, cu). record {
                valid = vu;
                same = λ q x.
                    holds-count q x u vu.some_node
                    ∙ cu q x
                    ∙ ap (λ (c : ℕ). is_item q x k o + c)
                        (ap (count q x) d.same ∙ sym (holds-count q x t v.some_node));
              })
    ])
