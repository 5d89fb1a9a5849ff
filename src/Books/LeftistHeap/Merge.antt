-- ===== src/Books/LeftistHeap/Merge.antt =====
-- `merge` and `delete_min` of left_heap.c.
use c_lang_project.Books.LeftistHeap.Settle.{OnPath, settle-Settled}
use c_lang_project.Lang.Result.{Ends, Ends-mono, ends}
use c_lang_project.DataStructs.ListRep.{Object}
use c_lang_project.Books.LeftistHeap.Invariant.{
  IsHeap, IsLeftist, IsValid, above, count, count_on, rank-le, size, IsLeftistHeap, holds,
  holds-count,
}
use c_lang_project.Books.LeftistHeap.{
  Frame, Tree, merge_loop, nil, node, rank, merge, merge_paths, stack_room,
}
use c_lang_project.Common.{
  ◌+◌, ◌<◌, List, [], arith, inl, inr, length, le→ltb, lt→ltb, ℕ, ◌∷◌, ◌≡◌, ◌≤◌, ==-false, ◌^◌,
  ==-true, sym, ◌∙◌,
}
use native.Mathlib.Decide.{dec_lt}

-- What the loop of `merge` makes of two right paths.
pub record Looped (fs : List Frame) (t t' : Tree) (r : List Frame × Tree) : Type 0 where
  pub path : OnPath r.0
  pub leftist : IsLeftist r.1
  pub heap : IsHeap (above r.0) r.1
  pub same :
      (q : ℕ) (x : Object)
      → count_on q x r.0 + count q x r.1 ≡ count_on q x fs + count q x t + count q x t'
  pub longer : length fs ≤ length r.0
  pub room : length r.0 ≤ length fs + rank t + rank t'

merge_loop-Looped :
    (fs : List Frame) (t t' : Tree)
    → OnPath fs
    → IsLeftist t
    → IsHeap (above fs) t
    → IsLeftist t'
    → IsHeap (above fs) t'
    → Looped fs t t' (merge_loop fs t t')
unfolding merge_loop
merge_loop-Looped fs nil t' path s h s' h' = record {
  path = path;
  leftist = s';
  heap = h';
  same = λ q x. omega arith;
  longer = omega arith;
  room = omega arith;
}
merge_loop-Looped fs (node n k o l r) nil path s h s' h' = record {
  path = path;
  leftist = s;
  heap = h;
  same = λ q x. omega arith;
  longer = omega arith;
  room = omega arith;
}
merge_loop-Looped fs (node n k o l r) (node n' k' o' l' r') path (e, le, sl, sr) (m, hl, hr)
      (e', le', sl', sr') (m', hl', hr') =
    elim (dec_lt k k') [
      | yes p ↦
          let f : Frame = record { rank_of = n; key = k; object = o; left = l } in
          let rec =
            merge_loop-Looped (f ∷ fs) r (node n' k' o' l' r') (sl, hl, m, path) sr hr
              (e', le', sl', sr') (omega arith, hl', hr') in
          rw (lt→ltb _ _ p, merge_loop)
            (record {
              path = rec.path;
              leftist = rec.leftist;
              heap = rec.heap;
              same = λ q x. omega (arith, rec.same q x);
              longer = omega (arith, rec.longer);
              room = omega (arith, rec.room);
            })
      | no p ↦
          let f : Frame = record { rank_of = n'; key = k'; object = o'; left = l' } in
          let rec =
            merge_loop-Looped (f ∷ fs) (node n k o l r) r' (sl', hl', m', path) (e, le, sl, sr)
              (omega arith, hl, hr) sr' hr' in
          rw (le→ltb k k' (omega arith), merge_loop)
            (record {
              path = rec.path;
              leftist = rec.leftist;
              heap = rec.heap;
              same = λ q x. omega (arith, rec.same q x);
              longer = omega (arith, rec.longer);
              room = omega (arith, rec.room);
            })
    ]

-- The heap has what both had.
pub record Merged (t t' u : Tree) : Type 0 where
  pub valid : IsValid u
  pub same : (q : ℕ) (x : Object) → count q x u ≡ count q x t + count q x t'

merge_paths-Merged :
    (n k : ℕ) (o : Object) (l r t' : Tree)
    → IsLeftist l
    → IsHeap k l
    → IsLeftist r
    → IsHeap k r
    → IsLeftist t'
    → IsHeap k t'
    → rank r + rank t' < stack_room
    → Ends
        (Merged (node n k o l r) t')
        (merge_paths (record { rank_of = n; key = k; object = o; left = l }) r t')
unfolding merge_paths
merge_paths-Merged n k o l r t' sl hl sr hr s' h' room =
    let f : Frame = record { rank_of = n; key = k; object = o; left = l } in
    let loop = merge_loop-Looped (f ∷ []) r t' (sl, hl, omega arith, tt) sr hr s' h' in
    let end =
      settle-Settled (merge_loop (f ∷ []) r t').0 (merge_loop (f ∷ []) r t').1 loop.path
        loop.leftist loop.heap (inr (omega (arith, loop.longer))) in
    rw (le→ltb stack_room (length (merge_loop (f ∷ []) r t').0) (omega (arith, loop.room))) (
      ends (record { valid = end.valid; same = λ q x. omega (arith, end.same q x, loop.same q x) }))

merge_valid-Merged :
    (t t' : Tree)
    → IsValid t
    → IsValid t'
    → size t < 2 ^ 50
    → size t' < 2 ^ 50
    → Ends (Merged t t') (merge t t')
unfolding merge
merge_valid-Merged nil t' v v' small small' = absurd (omega (arith, v.some_node))
merge_valid-Merged (node n k o l r) nil v v' small small' = absurd (omega (arith, v'.some_node))
merge_valid-Merged (node n k o l r) (node n' k' o' l' r') v v' small small' =
    let (e, le, sl, sr) = v.leftist in
    let (m, hl, hr) = v.heap in
    let (e', le', sl', sr') = v'.leftist in
    let (m', hl', hr') = v'.heap in
    let low = rank-le (node n k o l r) v.leftist small in
    let low' = rank-le (node n' k' o' l' r') v'.leftist small' in
    rw (==-false n 0 (omega (arith, v.some_node)), ==-false n' 0 (omega (arith, v'.some_node)))
      (elim (dec_lt k k') [
        | yes p ↦ rw (lt→ltb _ _ p) (
            merge_paths-Merged n k o l r (node n' k' o' l' r') sl hl sr hr v'.leftist
              (omega arith, hl', hr') (omega arith))
        | no p ↦ rw (le→ltb k k' (omega arith)) (
            Ends-mono
              (merge_paths-Merged n' k' o' l' r' (node n k o l r) sl' hl' sr' hr' v.leftist
                (omega arith, hl, hr) (omega arith))
              λ u d. record { valid = d.valid; same = λ q x. omega (arith, d.same q x) })
      ])

-- What `merge` leaves, of heaps that may be empty.
pub record Joined (t t' u : Tree) : Type 0 where
  pub valid : IsLeftistHeap u
  pub same : (q : ℕ) (x : Object) → holds q x u ≡ holds q x t + holds q x t'

-- merge of left_heap.c, on leftist heaps that may be empty and have fewer than 2 ^ 50 nodes each,
-- ends without undefined behaviour, as node_stack does not overflow, in a leftist heap with
-- exactly the items of both.
pub merge-Joined :
    (t t' : Tree)
    → IsLeftistHeap t
    → IsLeftistHeap t'
    → size t < 2 ^ 50
    → size t' < 2 ^ 50
    → Ends (Joined t t') (merge t t')
unfolding merge
merge-Joined nil t' (inl (e, some_node)) v' small small' = cc
merge-Joined nil t' (inr v) v' small small' = absurd (omega (arith, v.some_node))
merge-Joined (node n k o l r) nil v (inl (e, some_node)) small small' = cc
merge-Joined (node n k o l r) nil v (inr v') small small' = absurd (omega (arith, v'.some_node))
merge-Joined (node n k o l r) (node n' k' o' l' r') (inl (e, _)) v' small small' =
    rw (==-true n 0 e)
      (ends (record { valid = v'; same = λ q x. rw (==-true n 0 e) (omega arith) }))
merge-Joined (node n k o l r) (node n' k' o' l' r') (inr v) (inl (e, _)) small small' =
    let some_node = ==-false n 0 (omega (arith, v.some_node)) in
    rw (some_node, ==-true n' 0 e)
      (ends (record { valid = inr v; same = λ q x. rw (some_node, ==-true n' 0 e) (omega arith) }))
merge-Joined (node n k o l r) (node n' k' o' l' r') (inr v) (inr v') small small' =
    let t : Tree = node n k o l r in
    let t' : Tree = node n' k' o' l' r' in
    Ends-mono (merge_valid-Merged t t' v v' small small') λ u d. record {
      valid = inr d.valid;
      same = λ q x.
          holds-count q x u d.valid.some_node
          ∙ d.same q x
          ∙ sym (omega (arith, holds-count q x t v.some_node, holds-count q x t' v'.some_node));
    }
