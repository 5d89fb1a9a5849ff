-- ===== src/DataStructs/List/Walk.antt =====
-- The loops of src/libs/data_structs/list.c that read a list: length, traversal, search, printing;
-- and `List_destroy`.

use c_lang_project.Lang.Returns.{Returns, Returns-mono, returns}
use c_lang_project.Lang.Memory.{Heap, Ptr, null, ok, throw, precondition_failed, write}
use c_lang_project.DataStructs.ListRep.{Object, Node}
use c_lang_project.DataStructs.List.{
  length_loop, size, traverse, is_empty, find_loop, find_key, iterator, destroy, free_data,
  print_list, print_loop,
}
use c_lang_project.DataStructs.ListRep.Chain.{
  Cells, Chain, IsList, first, objects, not-null, load-ok, Chain-write, has, memory_free-ok,
}
use c_lang_project.Common.{
  List, Bool, ℕ, true, Option, none, ◌≡◌, length, ◌∷◌, ◌<◌, ◌≢◌, ◌⊎◌, suc, ◌+◌, ◌∙◌, arith, ap,
  ◌==◌, false, Bool-cases, [], if◌then◌else◌, inl, inr, refl, some, zero,
}

-- What a callback that may stop the traversal makes of the data, in order.
abbrev pub visit : {S : Type 0} → List Object → (Object → S → Bool × S) → S → Bool × S
visit [] apply s = (true, s)
visit (d ∷ ds) apply s =
    let (more, s') = apply d s in let rest = visit ds apply s' in if more then rest else (false, s')

abbrev pub fold : {S : Type 0} → List Object → (Object → S → S) → S → S
fold [] f s = s
fold (d ∷ ds) f s = fold ds f (f d s)

-- The first node whose data matches.
abbrev pub find : Cells → (Object → Bool) → Option Ptr
find [] test = none
find ((p, d) ∷ xs) test = if test d then some p else find xs test

length_loop-length :
    (k : ℕ) (h : Heap Node) (xs : Cells) (n : ℕ)
    → Chain h null xs
    → length xs < k
    → length_loop k (first null xs) n h ≡ ok (n + length xs) h
unfolding length_loop
length_loop-length zero h xs n c f = absurd (omega arith)
length_loop-length (suc k) h [] n c f = ap (λ m. ok m h) (omega arith)
length_loop-length (suc k) h ((p, d) ∷ xs) n (ne, out, e, c) f =
    rw (not-null h p d (first null xs) ne e, load-ok h p d (first null xs) ne e)
      (length_loop-length k h xs (n + 1) c (omega arith) ∙ ap (λ m. ok m h) (omega arith))

-- With fuel above the length of the list, List_length returns the number of nodes.
pub size-length :
    (k : ℕ) (h : Heap Node) (list : Ptr) (xs : Cells)
    → IsList h list xs
    → length xs < k
    → size k list h ≡ ok (length xs) h
unfolding size
size-length k h list xs l f =
    rw l.start (length_loop-length k h xs 0 l.chain f ∙ ap (λ m. ok m h) (omega arith))

-- With fuel above the length of the list, List_traverse hands the data to the callback in order
-- and stops with false at the first refusal.
pub traverse-visit :
    {S : Type 0} (k : ℕ) (h : Heap Node) (list : Ptr) (xs : Cells) (apply : Object → S → Bool × S)
    (s : S)
    → IsList h list xs
    → length xs < k
    → traverse k list apply s h ≡ ok (visit (objects xs) apply s) h
unfolding traverse is_empty
traverse-visit zero h list xs apply s l f = absurd (omega arith)
traverse-visit (suc k) h list [] apply s l f = rw l.start
traverse-visit (suc k) h list ((p, d) ∷ xs) apply s l f =
    let (ne, out, e, c) = l.chain in
    let ih =
      traverse-visit k h (first null xs) xs apply (apply d s).1 (record { start = refl; chain = c })
        (omega arith) in
    rw (l.start, not-null h p d (first null xs) ne e, load-ok h p d (first null xs) ne e)
      (elim (Bool-cases (apply d s).0) [ inl go ↦ rw go ih | inr stop ↦ rw stop ])

module _ (equal : Object → Object → Bool) (key : Object) where
  -- Behind the node `r` of the list, the search goes on in `xs`.
  find_loop-find :
      (k : ℕ) (h : Heap Node) (list r : Ptr) (v : Object) (xs : Cells)
      → Chain h null ((r, v) ∷ xs)
      → length xs < k
      → find_loop k list equal key r h ≡ ok (find xs (equal key)) h
  unfolding find_loop iterator
  find_loop-find zero h list r v xs c f = absurd (omega arith)
  find_loop-find (suc k) h list r v [] (ne, out, e, c) f =
      rw (not-null h r v null ne e, load-ok h r v null ne e)
  find_loop-find (suc k) h list r v ((p, d) ∷ xs) (ne, out, e, (ne', out', e', c)) f =
      let ih = find_loop-find k h list p d xs (ne', out', e', c) (omega arith) in
      rw
        (
          not-null h r v p ne e,
          load-ok h r v p ne e,
          not-null h p d (first null xs) ne' e',
          load-ok h p d (first null xs) ne' e',
        )
        (elim (Bool-cases (equal key d)) [ inl hit ↦ rw hit | inr miss ↦ rw miss ih ])

  -- With fuel above the length of the list, List_find_key on a list that is not empty, with a key
  -- that is not null, finds the first node whose datum matches the key, or says that there is
  -- none.
  pub find_key-find :
      (k : ℕ) (h : Heap Node) (list : Ptr) (x : Ptr × Object) (xs : Cells)
      → IsList h list (x ∷ xs)
      → key ≢ null
      → suc (length xs) < k
      → find_key k list equal key h ≡ ok (find (x ∷ xs) (equal key)) h
  unfolding find_key find_loop iterator
  find_key-find zero h list x xs l ne f = absurd (omega arith)
  find_key-find (suc k) h list (p, d) xs l ne f =
      let (ne', out, e, c) = l.chain in
      let key_ok : (key == null) ≡ false = ground arith in
      let ih = find_loop-find k h p p d xs l.chain (omega arith) in
      let there = not-null h p d (first null xs) ne' e in
      rw (l.start, there, key_ok, there, load-ok h p d (first null xs) ne' e)
        (elim (Bool-cases (equal key d)) [ inl hit ↦ rw hit | inr miss ↦ rw miss ih ])

  -- An empty list, or a null key, fails the precondition.
  pub find_key-throws :
      (k : ℕ) (h : Heap Node) (list : Ptr)
      → (list ≡ null) ⊎ (key ≡ null)
      → find_key k list equal key h ≡ throw precondition_failed
  unfolding find_key
  find_key-throws k h list e = ground arith

print_loop-fold :
    {S : Type 0} (k : ℕ) (h : Heap Node) (list r : Ptr) (v : Object) (xs : Cells)
    (print : Object → S → S) (s : S)
    → Chain h null ((r, v) ∷ xs)
    → length xs < k
    → print_loop k list print r s h ≡ ok (fold (objects xs) print s) h
unfolding print_loop iterator
print_loop-fold zero h list r v xs print s c f = absurd (omega arith)
print_loop-fold (suc k) h list r v [] print s (ne, out, e, c) f =
    rw (not-null h r v null ne e, load-ok h r v null ne e)
print_loop-fold (suc k) h list r v ((p, d) ∷ xs) print s (ne, out, e, (ne', out', e', c)) f =
    rw
      (
        not-null h r v p ne e,
        load-ok h r v p ne e,
        not-null h p d (first null xs) ne' e',
        load-ok h p d (first null xs) ne' e',
      )
      (print_loop-fold k h list p d xs print (print d s) (ne', out', e', c) (omega arith))

-- With fuel above the length of the list, List_print hands the datum of every node to the print
-- function, in order.
pub print_list-fold :
    {S : Type 0} (k : ℕ) (h : Heap Node) (list : Ptr) (xs : Cells) (print : Object → S → S) (s : S)
    → IsList h list xs
    → length xs < k
    → print_list k list print s h ≡ ok (fold (objects xs) print s) h
unfolding print_list print_loop iterator
print_list-fold zero h list xs print s l f = absurd (omega arith)
print_list-fold (suc k) h list [] print s l f = rw l.start
print_list-fold (suc k) h list ((p, d) ∷ xs) print s l f =
    let (ne, out, e, c) = l.chain in
    rw (l.start, not-null h p d (first null xs) ne e, load-ok h p d (first null xs) ne e)
      (print_loop-fold k h p p d xs print (print d s) l.chain (omega arith))

-- Every node of `xs` is freed, and nothing else is touched.
abbrev pub Without : Cells → Heap Node → Heap Node → Type 0
Without xs h g = (a : Ptr) → g a ≡ (if has a xs then none else h a)

-- With fuel above the length of the list, List_destroy frees every node of the list once, touches
-- nothing else, and hands the data to the free function in order.
pub destroy-Without :
    {S : Type 0} (k : ℕ) (h : Heap Node) (list : Ptr) (xs : Cells) (free : Option (Object → S → S))
    (s : S)
    → IsList h list xs
    → length xs < k
    → Returns
        (λ s' g. (s' ≡ fold (objects xs) (free_data free) s) × Without xs h g)
        (destroy k list free s h)
unfolding destroy write
destroy-Without zero h list xs free s l f = absurd (omega arith)
destroy-Without (suc k) h list [] free s l f = rw l.start (returns (refl, λ a. refl))
destroy-Without (suc k) h list ((p, d) ∷ xs) free s l f =
    let (ne, out, e, c) = l.chain in
    let c' = Chain-write h null xs p none c out in
    rw
      (
        l.start,
        not-null h p d (first null xs) ne e,
        load-ok h p d (first null xs) ne e,
        memory_free-ok h p d (first null xs) ne e,
      )
      (Returns-mono
        (destroy-Without k _ (first null xs) xs free (free_data free d s)
          (record { start = refl; chain = c' }) (omega arith))
        λ s' g (said, gone). (said, λ a. ground (arith, gone a)))
