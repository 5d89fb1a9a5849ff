-- ===== src/DataStructs/DoubleList/Walk.antt =====
-- What double_list.c does along a list, and at its end.
use c_lang_project.DataStructs.ListRep.Apart.{Disjoint-sym, one-Disjoint, not-has-append}
use c_lang_project.Lang.Returns.{Returns, Returns-bind, Returns-mono, returns}
use c_lang_project.DataStructs.DoubleList.{
  Node, allocate_node, append, delete_head, destroy, is_empty, length_loop, node, traverse, size,
}
use c_lang_project.DataStructs.DoubleList.Links.{
  SameOutside, Seg, Seg-append, Seg-frame, Seg-spared, Seg-split, final, last_loop-final, load-ok,
  memory_free-ok, not-has_of_none, set_next-Relinked, set_prev-Relinked,
}
use c_lang_project.DataStructs.DoubleList.Change.{Deleted, delete_node-Seg}
use c_lang_project.Common.{
  ◌+◌, ◌++◌, ◌<◌, ==-false, Bool, Bool-cases, Option, [], ap, arith, if◌then◌else◌, inl, inr,
  length, none, refl, some, suc, zero, ℕ, ◌∙◌, ◌∷◌, ◌≡◌, ◌≢◌,
}
use c_lang_project.Lang.Memory.{Heap, Ptr, memory_alloc, null, ok, write}
use c_lang_project.DataStructs.ListRep.{Object}
use c_lang_project.DataStructs.List.{free_data}
use c_lang_project.DataStructs.List.Walk.{visit, fold}
use c_lang_project.DataStructs.ListRep.Chain.{Cells, has, first, objects}

length_loop-length :
    (k : ℕ) (h : Heap Node) (before : Ptr) (xs : Cells) (n : ℕ)
    → Seg h before null xs
    → length xs < k
    → length_loop k (first null xs) n h ≡ ok (n + length xs) h
unfolding length_loop
length_loop-length zero h before xs n s f = absurd (omega arith)
length_loop-length (suc k) h before [] n s f = ap (λ m. ok m h) (omega arith)
length_loop-length (suc k) h before ((p, d) ∷ xs) n (ne, out, e, s) f =
    rw (==-false p null ne, load-ok h p d (first null xs) before ne e)
      (length_loop-length k h p xs (n + 1) s (omega arith) ∙ ap (λ m. ok m h) (omega arith))

-- x
pub double_size-length :
    (k : ℕ) (h : Heap Node) (before : Ptr) (xs : Cells)
    → Seg h before null xs
    → length xs < k
    → size k (first null xs) h ≡ ok (length xs) h
unfolding size
double_size-length k h before xs s f =
    length_loop-length k h before xs 0 s f ∙ ap (λ m. ok m h) (omega arith)

-- x
pub double_traverse-visit :
    {S : Type 0} (k : ℕ) (h : Heap Node) (before : Ptr) (xs : Cells) (apply : Object → S → Bool × S)
    (s : S)
    → Seg h before null xs
    → length xs < k
    → traverse k (first null xs) apply s h ≡ ok (visit (objects xs) apply s) h
unfolding traverse
double_traverse-visit zero h before xs apply s seg f = absurd (omega arith)
double_traverse-visit (suc k) h before [] apply s seg f = refl
double_traverse-visit (suc k) h before ((p, d) ∷ xs) apply s (ne, out, e, seg) f =
    rw (==-false p null ne, load-ok h p d (first null xs) before ne e)
      (elim (Bool-cases (apply d s).0) [
        | inl more ↦ rw more (double_traverse-visit k h p xs apply (apply d s).1 seg (omega arith))
        | inr stop ↦ rw stop refl
      ])

-- What `append` leaves of the nodes `all`.
abbrev pub Appended : Heap Node → Ptr → Cells → Ptr → Heap Node → Type 0
Appended h list all q g = (q ≡ list) × Seg g null null all × SameOutside all h g

-- x
pub append-Seg :
    (k : ℕ) (h : Heap Node) (fresh : Ptr) (v : Object) (p : Ptr) (d : Object) (xs : Cells)
    → Seg h null null ((p, d) ∷ xs)
    → fresh ≢ null
    → h fresh ≡ none
    → length xs < k
    → Returns (Appended h p ((p, d) ∷ (xs ++ (fresh, v) ∷ []))) (append k fresh p v h)
unfolding append is_empty allocate_node memory_alloc write
append-Seg k h fresh v p d xs s ne unused fuel =
    let list : Cells = (p, d) ∷ xs in
    let n : Cells = (fresh, v) ∷ [] in
    let out = not-has_of_none h null null list fresh s unused in
    let h1 = write h fresh (some (node v null null)) in
    let s1 : Seg h1 null null list = Seg-frame h h1 null null list s (λ q i. ground arith) in
    let n1 : Seg h1 null null n = (ne, refl, ground arith, tt) in
    let nl = one-Disjoint fresh v list out in
    let ln = Disjoint-sym n list nl in
    rw (==-false fresh null ne, ==-false p null s.0, last_loop-final k h1 null p d xs s1 fuel)
      (Returns-bind (set_next-Relinked h1 null null fresh (p, d) xs s1) λ _ h2 (s2, same2).
        let n2 = Seg-spared h1 h2 null null n list n1 same2 nl in
        Returns-bind (set_prev-Relinked h2 null (final p xs) null fresh v [] n2) λ _ h3 (n3, same3).
          let s3 = Seg-spared h2 h3 null fresh list n s2 same3 ln in
          returns (
            refl,
            Seg-append h3 null null list n s3 n3 ln,
            λ q o.
                let (ol, on) = not-has-append q list n o in same3 q on ∙ same2 q ol ∙ ground arith,
          ))

-- What `delete_head` answers and leaves.
abbrev pub HeadDeleted :
    Heap Node → Ptr → Cells → Cells → Object → Option Object × Ptr → Heap Node → Type 0
HeadDeleted h p xs ys d (out, q) g = (out ≡ some d) × Deleted h p p xs ys d q g

-- x
pub double_delete_head-Seg :
    (h : Heap Node) (p : Ptr) (d : Object) (xs ys : Cells)
    → Seg h null null (xs ++ (p, d) ∷ ys)
    → Returns (HeadDeleted h p xs ys d) (delete_head p h)
unfolding delete_head is_empty
double_delete_head-Seg h p d xs ys s =
    let (a, (ne, out, e, b), apart) = Seg-split h null null xs ((p, d) ∷ ys) s in
    rw (==-false p null ne, load-ok h p d (first null ys) (final null xs) ne e)
      (Returns-bind (delete_node-Seg h p p d xs ys s) λ q g del. returns (refl, del))

-- The nodes are gone.
abbrev pub Without : Cells → Heap Node → Heap Node → Type 0
Without xs h g = (a : Ptr) → g a ≡ (if has a xs then none else h a)

-- x
pub double_destroy-Without :
    {S : Type 0} (k : ℕ) (h : Heap Node) (before : Ptr) (xs : Cells)
    (free : Option (Object → S → S)) (s : S)
    → Seg h before null xs
    → length xs < k
    → Returns
        (λ r g. (r ≡ (null, fold (objects xs) (free_data free) s)) × Without xs h g)
        (destroy k (first null xs) free s h)
unfolding destroy write
double_destroy-Without zero h before xs free s seg f = absurd (omega arith)
double_destroy-Without (suc k) h before [] free s seg f = returns (refl, λ a. refl)
double_destroy-Without (suc k) h before ((p, d) ∷ xs) free s (ne, out, e, seg) f =
    let g = write h p none in
    let seg' : Seg g p null xs = Seg-frame h g p null xs seg (λ a i. ground arith) in
    rw
      (
        ==-false p null ne,
        load-ok h p d (first null xs) before ne e,
        memory_free-ok h p d (first null xs) before ne e,
      )
      (Returns-mono (double_destroy-Without k g p xs free (free_data free d s) seg' (omega arith))
        λ r g' (er, w). (er, λ a. w a ∙ ground arith))
