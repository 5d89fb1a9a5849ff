-- ===== src/DataStructs/DoubleList/Change.antt =====
-- What double_list.c does at a node that may lie anywhere in a list.
use c_lang_project.DataStructs.ListRep.Apart.{Disjoint-sym, one-Disjoint}
use c_lang_project.DataStructs.DoubleList.Links.{
  SameOutside, Seg, Seg-append, Seg-frame, Seg-spared, Seg-split, final, link_next-Relinked,
  link_prev-Relinked, load-ok, memory_free-ok, not-has_of_none, set_next-Relinked,
  set_prev-Relinked,
}
use c_lang_project.Lang.Returns.{Returns, Returns-bind, returns}
use c_lang_project.DataStructs.DoubleList.{Node, allocate_node, delete_node, insert, is_empty, node}
use c_lang_project.Common.{
  ◌++◌, ◌==◌, ==-false, [], arith, false, if◌then◌else◌, none, refl, some, ◌∙◌, ◌∷◌, ◌≡◌, ◌≢◌,
}
use c_lang_project.Lang.Memory.{Heap, Ptr, memory_alloc, null, write}
use c_lang_project.DataStructs.ListRep.{Object}
use c_lang_project.DataStructs.ListRep.Chain.{Cells, has, first, has-append, Disjoint}

-- What `insert` in front of the node `p` leaves.
abbrev pub Inserted : Heap Node → Ptr → Object → Cells → Ptr → Heap Node → Type 0
Inserted h fresh v all q g = (q ≡ fresh) × Seg g null null all × SameOutside all h g

module _ (h : Heap Node) (fresh p : Ptr) (v d : Object) (xs ys : Cells) where
  -- DoubleList_insert at any node of a doubly linked list, with malloc succeeding, returns the new
  -- node, which lies in front of that node in the list, linked both ways, and writes no cell
  -- outside the list.
  pub insert-Seg :
      Seg h null null (xs ++ (p, d) ∷ ys)
      → fresh ≢ null
      → h fresh ≡ none
      → Returns (Inserted h fresh v (xs ++ (fresh, v) ∷ (p, d) ∷ ys)) (insert fresh p v h)
  unfolding insert is_empty allocate_node memory_alloc write
  insert-Seg s ne unused =
      let zs : Cells = (p, d) ∷ ys in
      let n : Cells = (fresh, v) ∷ [] in
      let (a, b, apart) = Seg-split h null null xs zs s in
      let h1 = write h fresh (some (node v null null)) in
      let out_a = not-has_of_none h null p xs fresh a unused in
      let out_b = not-has_of_none h (final null xs) null zs fresh b unused in
      let a1 : Seg h1 null p xs = Seg-frame h h1 null p xs a (λ q i. ground arith) in
      let b1 : Seg h1 (final null xs) null zs =
        Seg-frame h h1 (final null xs) null zs b (λ q i. ground arith) in
      let n1 : Seg h1 null null n = (ne, refl, ground arith, tt) in
      let na = one-Disjoint fresh v xs out_a in
      let nb = one-Disjoint fresh v zs out_b in
      let an = Disjoint-sym n xs na in
      let bn = Disjoint-sym n zs nb in
      let ba = Disjoint-sym xs zs apart in
      rw (==-false fresh null ne, ==-false p null b.0)
        (Returns-bind (set_next-Relinked h1 null null p (fresh, v) [] n1) λ _ h2 (n2, same2).
          let a2 = Seg-spared h1 h2 null p xs n a1 same2 an in
          let b2 = Seg-spared h1 h2 (final null xs) null zs n b1 same2 bn in
          rw (load-ok h2 p d (first null ys) (final null xs) b2.0 b2.2) (
            Returns-bind (set_prev-Relinked h2 null (final null xs) p fresh v [] n2)
              λ _ h3 (n3, same3).
                let a3 = Seg-spared h2 h3 null p xs n a2 same3 an in
                let b3 = Seg-spared h2 h3 (final null xs) null zs n b2 same3 bn in
                Returns-bind (set_prev-Relinked h3 (final null xs) fresh null p d ys b3)
                  λ _ h4 (b4, same4).
                    let a4 = Seg-spared h3 h4 null p xs zs a3 same4 apart in
                    let n4 = Seg-spared h3 h4 (final null xs) p n zs n3 same4 nb in
                    rw (load-ok h4 fresh v p (final null xs) ne n4.2) (
                      Returns-bind (link_next-Relinked h4 p fresh xs a4) λ _ h5 (a5, same5).
                        let n5 = Seg-spared h4 h5 (final null xs) p n xs n4 same5 na in
                        let b5 = Seg-spared h4 h5 fresh null zs xs b4 same5 ba in
                        returns (
                          refl,
                          Seg-append h5 null null xs ((fresh, v) ∷ zs) a5 (ne, out_b, n5.2, b5)
                              (λ q i. ground (arith, an q, apart q)),
                          λ q o. ground (
                            arith,
                            has-append q xs ((fresh, v) ∷ zs),
                            same5 q,
                            same4 q,
                            same3 q,
                            same2 q,
                          ),
                        ))))

-- The new list pointer after the node `p` has been deleted.
abbrev pub moved : Ptr → Ptr → Cells → Cells → Ptr
moved list p xs ys =
    if p == list then (if first null ys == null then final null xs else first null ys) else list

abbrev pub Deleted : Heap Node → Ptr → Ptr → Cells → Cells → Object → Ptr → Heap Node → Type 0
Deleted h list p xs ys d q g =
    (q ≡ moved list p xs ys)
    × Seg g null null (xs ++ ys)
    × (g p ≡ none)
    × SameOutside (xs ++ (p, d) ∷ ys) h g

module _ (h : Heap Node) (list p : Ptr) (d : Object) (xs ys : Cells) where
  -- __delete_double_node of any node of a doubly linked list returns with the node freed and the
  -- others linked both ways without it, with the list pointer, where it was that node, at the next
  -- one, or else the previous one, and writes no cell outside the list.
  pub delete_node-Seg :
      Seg h null null (xs ++ (p, d) ∷ ys)
      → Returns (Deleted h list p xs ys d) (delete_node list p h)
  unfolding delete_node write
  delete_node-Seg s =
      let n : Cells = (p, d) ∷ [] in
      let (a, (ne, out, e, b), apart) = Seg-split h null null xs ((p, d) ∷ ys) s in
      let na : Disjoint n xs = λ q i. Disjoint-sym xs ((p, d) ∷ ys) apart q (ground arith) in
      let nb = one-Disjoint p d ys out in
      let ab : Disjoint xs ys = λ q i. ground (arith, apart q) in
      let out_a : has p xs ≡ false = na p (ground arith) in
      rw (load-ok h p d (first null ys) (final null xs) ne e) (
        Returns-bind (link_next-Relinked h p (first null ys) xs a) λ _ h1 (a1, same1).
          let b1 = Seg-spared h h1 p null ys xs b same1 (Disjoint-sym xs ys ab) in
          Returns-bind (link_prev-Relinked h1 p (final null xs) ys b1) λ _ h2 (b2, same2).
            let a2 = Seg-spared h1 h2 null (first null ys) xs ys a1 same2 ab in
            let there : h2 p ≡ some (node d (first null ys) (final null xs)) =
              same2 p out ∙ same1 p out_a ∙ e in
            let h3 = write h2 p none in
            let a3 = Seg-frame h2 h3 null (first null ys) xs a2 (λ q i. ground arith) in
            let b3 = Seg-frame h2 h3 (final null xs) null ys b2 (λ q i. ground arith) in
            rw (memory_free-ok h2 p d (first null ys) (final null xs) ne there) (
              returns (
                refl,
                Seg-append h3 null null xs ys a3 b3 ab,
                ground arith,
                λ q o. ground (arith, has-append q xs ((p, d) ∷ ys), same2 q, same1 q),
              )))
