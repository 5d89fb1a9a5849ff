-- ===== src/Books/LeftistHeap/DeleteMin.antt =====
-- `delete_min` of left_heap.c.
use c_lang_project.Books.LeftistHeap.Merge.{merge-Joined}
use c_lang_project.Books.LeftistHeap.{Tree, delete_min, find_min_key, nil, node}
use c_lang_project.DataStructs.ListRep.{Object}
use c_lang_project.Books.LeftistHeap.Invariant.{
  IsHeap, IsHeap-weaken, IsLeftistHeap, IsValid, count, holds, holds-count, is_item, size,
}
use c_lang_project.Lang.Result.{Ends, Ends-bind, ends}
use c_lang_project.Common.{◌+◌, ◌<◌, ◌^◌, arith, inl, inr, refl, ℕ, ◌∙◌, ◌≡◌}

count-below : (m q : ℕ) (x : Object) (t : Tree) → IsHeap m t → q < m → count q x t ≡ 0
count-below m q x nil h p = refl
count-below m q x (node n k o l r) (low, hl, hr) p =
    ground (arith, count-below k q x l hl, count-below k q x r hr)

-- What `delete_min` hands out and leaves, where `k` was the key of the root.
pub record Deleted (t : Tree) (r : Object × Tree) (k : ℕ) : Type 0 where
  pub valid : IsLeftistHeap r.1
  pub same : (q : ℕ) (x : Object) → holds q x t ≡ is_item q x k r.0 + holds q x r.1
  pub least : (q : ℕ) (x : Object) → q < k → holds q x t ≡ 0

module _ (n k : ℕ) (o : Object) (l r : Tree) (v : IsValid (node n k o l r)) where
  abbrev whole : Tree
  whole = node n k o l r

  -- `u` has what is left.
  rest-Deleted :
      (u : Tree)
      → IsLeftistHeap u
      → ((q : ℕ) (x : Object) → holds q x u ≡ count q x l + count q x r)
      → Deleted whole (o, u) k
  rest-Deleted u valid same = record {
    valid = valid;
    same = λ q x. omega (arith, holds-count q x whole v.some_node, same q x);
    least = λ q x p.
        holds-count q x whole v.some_node
        ∙ ground (arith, count-below k q x l, count-below k q x r, v.heap);
  }

-- delete_min of left_heap.c, on a leftist heap that is not empty and has fewer than 2 ^ 50 nodes,
-- ends without undefined behaviour and hands out an object of the key that find_min_key gives,
-- below which the heap has no key; it leaves a leftist heap, or the empty one, with exactly the
-- other items.
pub delete_min-Deleted :
    (t : Tree)
    → IsValid t
    → size t < 2 ^ 50
    → Ends (λ r. Ends (Deleted t r) (find_min_key t)) (delete_min t)
unfolding delete_min find_min_key
delete_min-Deleted nil v small = absurd (omega (arith, v.some_node))
delete_min-Deleted (node n k o nil nil) v small =
    ends (ends (rest-Deleted n k o nil nil v (node 0 k o nil nil) (inl (refl, refl)) (λ q x. refl)))
delete_min-Deleted (node n k o (node n' k' o' l' r') nil) v small =
    let l : Tree = node n' k' o' l' r' in
    let (e, le, sl, sr) = v.leftist in
    let vl : IsValid l = record {
      leftist = sl;
      heap = IsHeap-weaken k 0 l (omega arith) v.heap.1;
      some_node = omega arith;
    } in
    ends (
      ends (
        rest-Deleted n k o l nil v l (inr vl)
          (λ q x. omega (arith, holds-count q x l vl.some_node))))
delete_min-Deleted (node n k o nil (node n' k' o' l' r')) v small =
    absurd (omega (arith, v.leftist))
delete_min-Deleted (node n k o (node na ka oa la ra) (node nb kb ob lb rb)) v small =
    let l : Tree = node na ka oa la ra in
    let r : Tree = node nb kb ob lb rb in
    let (e, le, sl, sr) = v.leftist in
    let (m, hl, hr) = v.heap in
    let vl : IsValid l = record {
      leftist = sl;
      heap = IsHeap-weaken k 0 l (omega arith) hl;
      some_node = omega arith;
    } in
    let vr : IsValid r = record {
      leftist = sr;
      heap = IsHeap-weaken k 0 r (omega arith) hr;
      some_node = omega arith;
    } in
    Ends-bind (merge-Joined l r (inr vl) (inr vr) (omega arith) (omega arith)) λ u d. ends (
      ends (
        rest-Deleted n k o l r v u d.valid (λ q x.
          d.same q x
          ∙ omega (arith, holds-count q x l vl.some_node, holds-count q x r vr.some_node))))
