-- ===== src/DataStructs/DoubleList/Links.antt =====
-- Segments of nodes that lead both ways, and the assignments of double_list.c to their links.
use c_lang_project.Lang.Returns.{Returns, Returns-mono, returns}
use c_lang_project.DataStructs.DoubleList.{
  Node, link_next, link_prev, node, set_next, set_prev, last_loop,
}
use c_lang_project.Common.{
  ◌++◌, ◌==◌, ==-false, [], ap, arith, false, none, refl, some, true, ◌∙◌, ◌∷◌, ◌≡◌, ◌≢◌, ◌<◌,
  length, suc, zero, ℕ,
}
use c_lang_project.Lang.Memory.{Heap, Ptr, load, memory_free, null, ok, store, write}
use c_lang_project.DataStructs.ListRep.{Object}
use c_lang_project.DataStructs.ListRep.Chain.{Cells, has, first, first-append, has-append, Disjoint}

-- The last node of `xs`, or the one before them.
abbrev pub final : Ptr → Cells → Ptr
final before [] = before
final before ((p, _) ∷ xs) = final p xs

-- The nodes `xs` lie in `h`, are distinct, and lead to each other, the first one back to `before`
-- and the last one on to `stop`.
abbrev pub Seg : Heap Node → Ptr → Ptr → Cells → Type 0
Seg h before stop [] = Unit {0}
Seg h before stop ((p, d) ∷ xs) =
    (p ≢ null) × (has p xs ≡ false) × (h p ≡ some (node d (first stop xs) before)) × Seg h p stop xs

abbrev pub SameOutside : Cells → Heap Node → Heap Node → Type 0
SameOutside xs h g = (a : Ptr) → has a xs ≡ false → g a ≡ h a

pub Seg-frame :
    (h g : Heap Node) (before stop : Ptr) (xs : Cells)
    → Seg h before stop xs
    → ((a : Ptr) → has a xs ≡ true → g a ≡ h a)
    → Seg g before stop xs
Seg-frame h g before stop [] s same = tt
Seg-frame h g before stop ((p, d) ∷ xs) (ne, out, e, s) same =
    (ne, out, ground (arith, same p), Seg-frame h g p stop xs s (λ a i. same a (ground arith)))

pub Seg-spared :
    (h g : Heap Node) (before stop : Ptr) (xs ys : Cells)
    → Seg h before stop xs
    → SameOutside ys h g
    → Disjoint xs ys
    → Seg g before stop xs
Seg-spared h g before stop xs ys s same apart =
    Seg-frame h g before stop xs s (λ a i. same a (apart a i))

pub Seg-append :
    (h : Heap Node) (before stop : Ptr) (xs ys : Cells)
    → Seg h before (first stop ys) xs
    → Seg h (final before xs) stop ys
    → Disjoint xs ys
    → Seg h before stop (xs ++ ys)
Seg-append h before stop [] ys s t apart = t
Seg-append h before stop ((p, d) ∷ xs) ys (ne, out, e, s) t apart = (
  ne,
  rw (has-append, out) (apart p (ground arith)),
  rw first-append e,
  Seg-append h p stop xs ys s t (λ a i. apart a (ground arith)),
)

pub Seg-split :
    (h : Heap Node) (before stop : Ptr) (xs ys : Cells)
    → Seg h before stop (xs ++ ys)
    → Seg h before (first stop ys) xs × Seg h (final before xs) stop ys × Disjoint xs ys
Seg-split h before stop [] ys s = (tt, s, λ a i. ground arith)
Seg-split h before stop ((p, d) ∷ xs) ys (ne, out, e, s) =
    let (l, r, apart) = Seg-split h p stop xs ys s in
    (
      (
        ne,
        ground (arith, has-append p xs ys),
        e ∙ ap (λ q. some (node d q before)) (first-append stop xs ys),
        l,
      ),
      r,
      λ a i. ground (arith, apart a, has-append p xs ys),
    )

pub final-ne-null :
    (h : Heap Node) (before stop : Ptr) (x : Ptr × Object) (xs : Cells)
    → Seg h before stop (x ∷ xs)
    → final before (x ∷ xs) ≢ null
final-ne-null h before stop (p, d) [] (ne, out, e, s) = ne
final-ne-null h before stop (p, d) (y ∷ ys) (ne, out, e, s) = final-ne-null h p stop y ys s

module _ (h : Heap Node) (p : Ptr) (d : Object) (q r : Ptr) (ne : p ≢ null)
    (e : h p ≡ some (node d q r)) where
  pub not-null : (p == null) ≡ false
  not-null = ground arith

  pub load-ok : load p h ≡ ok (node d q r) h
  unfolding load
  load-ok = rw (not-null, e)

  pub set_next-ok : (q' : Ptr) → set_next p q' h ≡ ok tt (write h p (some (node d q' r)))
  unfolding set_next store
  set_next-ok q' = rw (load-ok, load-ok)

  pub set_prev-ok : (r' : Ptr) → set_prev p r' h ≡ ok tt (write h p (some (node d q r')))
  unfolding set_prev store
  set_prev-ok r' = rw (load-ok, load-ok)

  pub memory_free-ok : memory_free p h ≡ ok tt (write h p none)
  unfolding memory_free
  memory_free-ok = rw (not-null, e)

-- What an assignment to a link of the nodes `xs` leaves.
abbrev pub Relinked : Heap Node → Ptr → Ptr → Cells → Unit {0} → Heap Node → Type 0
Relinked h before stop xs _ g = Seg g before stop xs × SameOutside xs h g

-- The last node leads elsewhere.
pub set_next-Relinked :
    (h : Heap Node) (before stop stop' : Ptr) (x : Ptr × Object) (xs : Cells)
    → Seg h before stop (x ∷ xs)
    → Returns (Relinked h before stop' (x ∷ xs)) (set_next (final before (x ∷ xs)) stop' h)
unfolding write
set_next-Relinked h before stop stop' (p, d) [] (ne, out, e, s) =
    rw (set_next-ok h p d stop before ne e stop')
      (returns ((ne, refl, ground arith, tt), λ a o. ground arith))
set_next-Relinked h before stop stop' (p, d) ((p', d') ∷ ys) (ne, out, e, s) =
    Returns-mono (set_next-Relinked h p stop stop' (p', d') ys s)
      λ _ g (t, same). ((ne, out, same p out ∙ e, t), λ a o. same a (ground arith))

-- The first node leads back elsewhere.
pub set_prev-Relinked :
    (h : Heap Node) (before before' stop p : Ptr) (d : Object) (xs : Cells)
    → Seg h before stop ((p, d) ∷ xs)
    → Returns (Relinked h before' stop ((p, d) ∷ xs)) (set_prev p before' h)
unfolding write
set_prev-Relinked h before before' stop p d xs (ne, out, e, s) =
    rw (set_prev-ok h p d (first stop xs) before ne e before') (
      returns (
        (ne, out, ground arith, Seg-frame h _ p stop xs s (λ a i. ground arith)),
        λ a o. ground arith,
      ))

pub link_next-Relinked :
    (h : Heap Node) (stop stop' : Ptr) (xs : Cells)
    → Seg h null stop xs
    → Returns (Relinked h null stop' xs) (link_next (final null xs) stop' h)
unfolding link_next
link_next-Relinked h stop stop' [] s = returns (tt, λ a o. refl)
link_next-Relinked h stop stop' (x ∷ xs) s =
    rw (==-false _ _ (final-ne-null h null stop x xs s))
      (set_next-Relinked h null stop stop' x xs s)

pub link_prev-Relinked :
    (h : Heap Node) (before before' : Ptr) (xs : Cells)
    → Seg h before null xs
    → Returns (Relinked h before' null xs) (link_prev (first null xs) before' h)
unfolding link_prev
link_prev-Relinked h before before' [] s = returns (tt, λ a o. refl)
link_prev-Relinked h before before' ((p, d) ∷ xs) s =
    rw (==-false p null s.0) (set_prev-Relinked h before before' null p d xs s)

-- An unused address holds no node of a segment.
pub not-has_of_none :
    (h : Heap Node) (before stop : Ptr) (xs : Cells) (a : Ptr)
    → Seg h before stop xs
    → h a ≡ none
    → has a xs ≡ false
not-has_of_none h before stop [] a s e = refl
not-has_of_none h before stop ((p, d) ∷ xs) a (ne, out, l, s) e =
    ground (arith, not-has_of_none h p stop xs a s)

-- The last node of a segment.
pub final-in_heap :
    (h : Heap Node) (before stop : Ptr) (x : Ptr × Object) (xs : Cells)
    → Seg h before stop (x ∷ xs)
    → (d : Object) × (q : Ptr) × (h (final before (x ∷ xs)) ≡ some (node d stop q))
final-in_heap h before stop (p, d) [] (ne, out, e, s) = (d, before, e)
final-in_heap h before stop (p, d) (y ∷ ys) (ne, out, e, s) = final-in_heap h p stop y ys s

-- The walk to the last node.
pub last_loop-final :
    (k : ℕ) (h : Heap Node) (before p : Ptr) (d : Object) (xs : Cells)
    → Seg h before null ((p, d) ∷ xs)
    → length xs < k
    → last_loop k p h ≡ ok (final p xs) h
unfolding last_loop
last_loop-final zero h before p d xs s f = absurd (omega arith)
last_loop-final (suc k) h before p d [] (ne, out, e, s) f = rw (load-ok h p d null before ne e) refl
last_loop-final (suc k) h before p d ((p', d') ∷ ys) (ne, out, e, s) f =
    rw (load-ok h p d p' before ne e, ==-false p' null s.0)
      (last_loop-final k h p p' d' ys s (omega arith))
