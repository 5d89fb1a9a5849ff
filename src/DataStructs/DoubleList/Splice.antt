-- ===== src/DataStructs/DoubleList/Splice.antt =====
-- Nodes taken out of a list of double_list.c, and put into one.
use c_lang_project.DataStructs.ListRep.Apart.{
  Disjoint-sym, one-Disjoint, not-has-append, Disjoint-append, Disjoint-join,
}
use c_lang_project.Lang.Returns.{Returns, Returns-bind, returns}
use c_lang_project.DataStructs.DoubleList.{Node, backward, cut, is_empty, nth, paste}
use c_lang_project.DataStructs.DoubleList.Links.{
  SameOutside, Seg, Seg-append, Seg-spared, Seg-split, final, final-in_heap, final-ne-null,
  last_loop-final, link_next-Relinked, link_prev-Relinked, load-ok, set_next-Relinked,
  set_prev-Relinked,
}
use c_lang_project.Common.{
  ◌++◌, ◌<◌, ◌==◌, ==-false, [], arith, false, if◌then◌else◌, length, refl, ℕ, ◌∙◌, ◌∷◌, ◌≡◌,
}
use c_lang_project.Lang.Memory.{Heap, Ptr, null}
use c_lang_project.DataStructs.ListRep.{Object}
use c_lang_project.DataStructs.ListRep.Chain.{Cells, has, first, has-append, Disjoint}

-- What `cut` leaves of `xs`, `ms` and `ys`, and the new list pointer.
abbrev pub Cut : Heap Node → Ptr → Cells → Cells → Cells → Ptr → Heap Node → Type 0
Cut h list xs ms ys q g =
    (q ≡ (if list == first null ms then first null ys else list))
    × Seg g null null (xs ++ ys)
    × Seg g null null ms
    × SameOutside (xs ++ (ms ++ ys)) h g

module _ (h : Heap Node) (list p : Ptr) (d : Object) (xs ms ys : Cells) where
  abbrev middle : Cells
  middle = (p, d) ∷ ms

  -- DoubleList_cut of one node or more that follow each other in a doubly linked list, given the
  -- first and the last of them, returns with the other nodes linked both ways without them and
  -- with them as a list of their own; the list pointer moves to the node behind them where it was
  -- the first of them, and no cell outside the list is written.
  pub cut-Seg :
      Seg h null null (xs ++ ((p, d) ∷ (ms ++ ys)))
      → Returns (Cut h list xs ((p, d) ∷ ms) ys) (cut list p (final p ms) h)
  unfolding cut
  cut-Seg s =
      let (a, mb, apart) = Seg-split h null null xs (middle ++ ys) s in
      let (m, b, apart') = Seg-split h (final null xs) null middle ys mb in
      let (am, ab) = Disjoint-append xs middle ys apart in
      let ma = Disjoint-sym xs middle am in
      let ba = Disjoint-sym xs ys ab in
      let bm = Disjoint-sym middle ys apart' in
      let end = final p ms in
      let ne = final-ne-null h (final null xs) (first null ys) (p, d) ms m in
      let (d', q', e) = final-in_heap h (final null xs) (first null ys) (p, d) ms m in
      rw
        (
          load-ok h p d (first (first null ys) ms) (final null xs) m.0 m.2,
          load-ok h end d' (first null ys) q' ne e,
        )
        (Returns-bind (link_next-Relinked h p (first null ys) xs a) λ _ h1 (a1, same1).
          let m1 = Seg-spared h h1 (final null xs) (first null ys) middle xs m same1 ma in
          let b1 = Seg-spared h h1 end null ys xs b same1 ba in
          let (d1, q1, e1) = final-in_heap h1 (final null xs) (first null ys) (p, d) ms m1 in
          rw
            (
              load-ok h1 end d1 (first null ys) q1 ne e1,
              load-ok h1 p d (first (first null ys) ms) (final null xs) m1.0 m1.2,
            )
            (Returns-bind (link_prev-Relinked h1 end (final null xs) ys b1) λ _ h2 (b2, same2).
              let a2 = Seg-spared h1 h2 null (first null ys) xs ys a1 same2 ab in
              let m2 = Seg-spared h1 h2 (final null xs) (first null ys) middle ys m1 same2 apart' in
              let (d2, q2, e2) = final-in_heap h2 (final null xs) (first null ys) (p, d) ms m2 in
              rw (load-ok h2 end d2 (first null ys) q2 ne e2) (
                Returns-bind
                  (set_next-Relinked h2 (final null xs) (first null ys) null (p, d) ms m2)
                  λ _ h3 (m3, same3).
                    let a3 = Seg-spared h2 h3 null (first null ys) xs middle a2 same3 am in
                    let b3 = Seg-spared h2 h3 (final null xs) null ys middle b2 same3 bm in
                    Returns-bind (set_prev-Relinked h3 (final null xs) null null p d ms m3)
                      λ _ h4 (m4, same4).
                        let a4 = Seg-spared h3 h4 null (first null ys) xs middle a3 same4 am in
                        let b4 = Seg-spared h3 h4 (final null xs) null ys middle b3 same4 bm in
                        returns (
                          refl,
                          Seg-append h4 null null xs ys a4 b4 ab,
                          m4,
                          λ q o.
                              let (oa, omb) = not-has-append q xs (middle ++ ys) o in
                              let (om, ob) = not-has-append q middle ys omb in
                              same4 q om ∙ same3 q om ∙ same2 q ob ∙ same1 q oa,
                        ))))

-- What `paste` behind the node `t` leaves.
abbrev pub Pasted : Heap Node → Ptr → Cells → Ptr → Heap Node → Type 0
Pasted h t all q g = (q ≡ t) × Seg g null null all × SameOutside all h g

module _ (k : ℕ) (h : Heap Node) (t s : Ptr) (d e : Object) (xs ys ws : Cells) where
  abbrev source : Cells
  source = (s, e) ∷ ws

  abbrev target : Cells
  target = (t, d) ∷ []

  -- With fuel above the length of the source but for one, DoubleList_paste of a doubly linked list
  -- that is not empty behind a node of another, with no node in common, returns with the nodes of
  -- both linked both ways in one list, those of the source behind that node, and writes no other
  -- cell.
  pub paste-Seg :
      Seg h null null (xs ++ (t, d) ∷ ys)
      → Seg h null null ((s, e) ∷ ws)
      → Disjoint (xs ++ (t, d) ∷ ys) ((s, e) ∷ ws)
      → length ws < k
      → Returns (Pasted h t (xs ++ ((t, d) ∷ (s, e) ∷ (ws ++ ys)))) (paste k t s h)
  unfolding paste nth is_empty backward
  paste-Seg list z other fuel =
      let (a, (ne, out, at_t, b), apart) = Seg-split h null null xs ((t, d) ∷ ys) list in
      let n : Seg h (final null xs) (first null ys) target = (ne, refl, at_t, tt) in
      let an : Disjoint xs target = λ q i. ground (arith, apart q) in
      let ab : Disjoint xs ys = λ q i. ground (arith, apart q) in
      let nb = one-Disjoint t d ys out in
      let az : Disjoint xs source =
        λ q i. other q (rw (has-append q xs ((t, d) ∷ ys)) (ground arith)) in
      let nz : Disjoint target source =
        λ q i. other q (rw (has-append q xs ((t, d) ∷ ys)) (ground arith)) in
      let bz : Disjoint ys source =
        λ q i. other q (rw (has-append q xs ((t, d) ∷ ys)) (ground arith)) in
      let na = Disjoint-sym xs target an in
      let bn = Disjoint-sym target ys nb in
      let zn = Disjoint-sym target source nz in
      let zb = Disjoint-sym ys source bz in
      let last = final s ws in
      rw
        (
          ==-false s null z.0,
          ==-false t null ne,
          last_loop-final k h null s e ws z fuel,
          load-ok h t d (first null ys) (final null xs) ne at_t,
        )
        (Returns-bind (set_next-Relinked h null null (first null ys) (s, e) ws z)
          λ _ h1 (z1, same1).
            let a1 = Seg-spared h h1 null t xs source a same1 az in
            let n1 = Seg-spared h h1 (final null xs) (first null ys) target source n same1 nz in
            let b1 = Seg-spared h h1 t null ys source b same1 bz in
            rw (load-ok h1 t d (first null ys) (final null xs) ne n1.2) (
              Returns-bind (link_prev-Relinked h1 t last ys b1) λ _ h2 (b2, same2).
                let a2 = Seg-spared h1 h2 null t xs ys a1 same2 ab in
                let n2 = Seg-spared h1 h2 (final null xs) (first null ys) target ys n1 same2 nb in
                let z2 = Seg-spared h1 h2 null (first null ys) source ys z1 same2 zb in
                Returns-bind (set_prev-Relinked h2 null t (first null ys) s e ws z2)
                  λ _ h3 (z3, same3).
                    let a3 = Seg-spared h2 h3 null t xs source a2 same3 az in
                    let n3 =
                      Seg-spared h2 h3 (final null xs) (first null ys) target source n2 same3 nz in
                    let b3 = Seg-spared h2 h3 last null ys source b2 same3 bz in
                    Returns-bind
                      (set_next-Relinked h3 (final null xs) (first null ys) s (t, d) [] n3)
                      λ _ h4 (n4, same4).
                        let a4 = Seg-spared h3 h4 null t xs target a3 same4 an in
                        let z4 = Seg-spared h3 h4 t (first null ys) source target z3 same4 zn in
                        let b4 = Seg-spared h3 h4 last null ys target b3 same4 bn in
                        let rest = Seg-append h4 t null source ys z4 b4 zb in
                        let out' : has t (source ++ ys) ≡ false =
                          has-append t source ys ∙ ground (arith, nz t) in
                        returns (
                          refl,
                          Seg-append h4 null null xs ((t, d) ∷ (s, e) ∷ (ws ++ ys)) a4
                              (ne, out', n4.2, rest)
                              (Disjoint-join xs target (source ++ ys) an
                                (Disjoint-join xs source ys az ab)),
                          λ q o.
                              let (oa, others) = not-has-append q xs (target ++ (source ++ ys)) o in
                              let (ot, ozb) = not-has-append q target (source ++ ys) others in
                              let (oz, ob) = not-has-append q source ys ozb in
                              same4 q ot ∙ same3 q oz ∙ same2 q ob ∙ same1 q oz,
                        )))
