-- ===== src/DataStructs/List/Delete.antt =====
-- `List_delete_node` and `List_delete_head` of src/libs/data_structs/list.c.
use c_lang_project.Common.{
  ℕ, zero, suc, ◌<◌, ◌≡◌, refl, true, false, none, some, [], ◌∷◌, arith, ◌==◌, if◌then◌else◌,
  length, Bool-cases, inl, inr, ◌≢◌, Option,
}
use c_lang_project.Lang.Memory.{
  Ptr, null, Heap, write, Cmd, ensure, pure, load, and_then, ◌>>=◌, ◌>>◌, ok, throw,
  postcondition_failed,
}
use mathlib.Core.Bool.{not}
use c_lang_project.Lang.Returns.{Returns, returns, Returns-mono, Returns-bind}
use c_lang_project.DataStructs.ListRep.{Object, Node, node, free_node}
use c_lang_project.DataStructs.ListRep.Chain.{
  Cells, has, first, Chain, SameOutside, IsList, Chain-frame, load-ok, not-null, free_node-ok,
  Chain-write,
}
use c_lang_project.DataStructs.List.{find_previous, set_next, delete_node, delete_head, is_empty}
use c_lang_project.DataStructs.List.Insert.{set_next-ok}

-- The cells without the node at `p`.
unfoldable pub remove : Ptr → Cells → Cells
remove p [] = []
remove p ((q, d) ∷ xs) = if p == q then xs else (q, d) ∷ remove p xs

-- What `List_delete_node` does with a node of the list: `p` is unlinked and freed.
pub record Deleted (h : Heap Node) (p : Ptr) (xs : Cells) (list : Ptr) (g : Heap Node)
    : Type 0 where
  pub left : IsList g list (remove p xs)
  pub same : SameOutside xs h g
  pub freed : g p ≡ none

remove-first : (p : Ptr) (w : Object) (xs : Cells) → remove p ((p, w) ∷ xs) ≡ xs
unfolding remove
remove-first p w xs = ground arith

remove-other :
    (p q : Ptr) (w : Object) (xs : Cells)
    → (q == p) ≡ false
    → remove p ((q, w) ∷ xs) ≡ (q, w) ∷ remove p xs
unfolding remove
remove-other p q w xs e = ground arith

has-remove : (p a : Ptr) (xs : Cells) → has a xs ≡ false → has a (remove p xs) ≡ false
unfolding remove
has-remove p a [] e = refl
has-remove p a ((q, d) ∷ xs) e = ground (arith, has-remove p a xs)

-- What `List_delete_node` does once the node before `p` is found.
unlink : Ptr → Ptr → Ptr → Cmd Node Ptr
unlink list p iter = do
  ensure (not (iter == null))
  n ← load p
  set_next iter n.next
  free_node p
  pure list

abbrev Unlinked : Heap Node → Ptr → Ptr → Object → Cells → Heap Node → Type 0
Unlinked h p r v xs g =
    Chain g null ((r, v) ∷ remove p xs) × SameOutside ((r, v) ∷ xs) h g × (g p ≡ none)

unlink-here :
    (h : Heap Node) (list p r : Ptr) (v w : Object) (xs : Cells)
    → Chain h null ((r, v) ∷ (p, w) ∷ xs)
    → Returns (λ q g. (q ≡ list) × Unlinked h p r v ((p, w) ∷ xs) g) (unlink list p r h)
unfolding unlink remove write
unlink-here h list p r v w xs (ne, out, e, (ne', out', e', c)) =
    let h1 = write h r (some (node v (first null xs))) in
    let kept : h1 p ≡ some (node w (first null xs)) = ground arith in
    rw
      (
        not-null h r v p ne e,
        load-ok h p w (first null xs) ne' e',
        set_next-ok h r v p (first null xs) ne e,
        free_node-ok h1 p w (first null xs) ne' kept,
      )
      (returns (
        refl,
        (
          rw (remove-first p w xs)
              (ne, ground arith, ground arith, Chain-frame h _ null xs c (λ a i. grind arith)),
          λ a o. ground arith,
          ground arith,
        ),
      ))

-- The walk finds the node before `p`, wherever `p` stands behind `r`.
find_previous-unlinks :
    (k : ℕ) (h : Heap Node) (list p r : Ptr) (v : Object) (xs : Cells)
    → Chain h null ((r, v) ∷ xs)
    → has p xs ≡ true
    → length xs < k
    → Returns
        (λ q g. (q ≡ list) × Unlinked h p r v xs g)
        (and_then (find_previous k r p h) (unlink list p))
unfolding find_previous
find_previous-unlinks zero h list p r v xs c i f = absurd (omega arith)
find_previous-unlinks (suc k) h list p r v [] c i f = cc
find_previous-unlinks (suc k) h list p r v ((q, w) ∷ xs) (ne, out, e, c) i f =
    rw (not-null h r v q ne e, load-ok h r v q ne e)
      (elim (Bool-cases (q == p)) [
        | inl hit ↦
            let same : p ≡ q = ground arith in
            rw (hit, same) (unlink-here h list q r v w xs (ne, out, e, c))
        | inr miss ↦
            let i' : has p xs ≡ true = ground arith in
            rw miss (
              Returns-mono (find_previous-unlinks k h list p q w xs c i' (omega arith))
                λ l g (start, (chain, same, freed)). (
                  start,
                  (
                    rw (remove-other p q w xs miss)
                        (ne, ground (arith, has-remove p r xs), ground (arith, same r), chain),
                    λ a o. same a (ground arith),
                    freed,
                  ),
                ))
      ])

-- With fuel above the length of the list, List_delete_node of a node of the list returns, and then
-- the list is the old one without that node, the node is freed, and no cell outside the old list
-- is written.
pub delete_node-remove :
    (k : ℕ) (h : Heap Node) (list p : Ptr) (xs : Cells)
    → IsList h list xs
    → has p xs ≡ true
    → length xs < k
    → Returns (Deleted h p xs) (delete_node k list p h)
unfolding delete_node remove write unlink
delete_node-remove k h list p [] l i f = cc
delete_node-remove k h list p ((q, w) ∷ xs) l i f =
    let (ne, out, e, c) = l.chain in
    rw l.start (elim (Bool-cases (q == p)) [
      | inl hit ↦
          let same : p ≡ q = ground arith in
          rw
            (hit, same, load-ok h q w (first null xs) ne e, free_node-ok h q w (first null xs) ne e)
            (returns (record {
              left =
                  rw (remove-first q w xs)
                    (record { start = refl; chain = Chain-write h null xs q none c out });
              same = λ a o. ground arith;
              freed = ground arith;
            }))
      | inr miss ↦ rw miss (
          Returns-mono (find_previous-unlinks k h q p q w xs l.chain (ground arith) (omega arith))
            λ l' g (start, (chain, same, freed)). record {
              left = rw (remove-other p q w xs miss) (record { start = start; chain = chain });
              same = same;
              freed = freed;
            })
    ])

find_previous-end :
    (k : ℕ) (h : Heap Node) (p : Ptr) → p ≢ null → 0 < k → find_previous k null p h ≡ ok null h
unfolding find_previous
find_previous-end zero h p ne f = absurd (omega arith)
find_previous-end (suc k) h p ne f = refl

-- The walk past the end: no node leads to `p`.
find_previous-none :
    (k : ℕ) (h : Heap Node) (p : Ptr) (xs : Cells)
    → Chain h null xs
    → has p xs ≡ false
    → p ≢ null
    → length xs < k
    → find_previous k (first null xs) p h ≡ ok null h
unfolding find_previous
find_previous-none zero h p xs c o ne f = absurd (omega arith)
find_previous-none (suc k) h p [] c o ne f = refl
find_previous-none (suc k) h p ((q, w) ∷ []) (n, out, e, c) o ne f =
    let other : (null == p) ≡ false = ground arith in
    rw (not-null h q w null n e, load-ok h q w null n e, other)
      (find_previous-end k h p ne (omega arith))
find_previous-none (suc k) h p ((q, w) ∷ (r, v) ∷ xs) (n, out, e, c) o ne f =
    let o' : has p ((r, v) ∷ xs) ≡ false = ground arith in
    let ih = find_previous-none k h p ((r, v) ∷ xs) c o' ne (omega arith) in
    let other : (r == p) ≡ false = ground arith in
    rw (not-null h q w r n e, load-ok h q w r n e, other) ih

-- With fuel above the length of the list, List_delete_node with a node that is not in the list and
-- not null raises the exception of its postcondition.
pub delete_node-throws :
    (k : ℕ) (h : Heap Node) (list p : Ptr) (xs : Cells)
    → IsList h list xs
    → has p xs ≡ false
    → p ≢ null
    → length xs < k
    → delete_node k list p h ≡ throw postcondition_failed
unfolding delete_node
delete_node-throws k h list p xs l o ne f =
    let miss : (first null xs == p) ≡ false = first-miss xs o in
    rw (l.start, miss, find_previous-none k h p xs l.chain o ne f)
  where
    first-miss : (ys : Cells) → has p ys ≡ false → (first null ys == p) ≡ false
    first-miss [] o' = ground arith
    first-miss ((q, w) ∷ ys) o' = ground arith

-- What `List_delete_head` returns on a list that is not empty.
abbrev pub HeadDeleted : Heap Node → Object → Ptr → Cells → Option Object × Ptr → Heap Node → Type 0
HeadDeleted h d p xs (out, list) g =
    (out ≡ some d) × IsList g list xs × SameOutside ((p, d) ∷ xs) h g × (g p ≡ none)

-- With fuel above the length of the list, List_delete_head on a list that is not empty hands out
-- the first datum, frees its node, and leaves the list of the others.
pub delete_head-cons :
    (k : ℕ) (h : Heap Node) (list p : Ptr) (d : Object) (xs : Cells)
    → IsList h list ((p, d) ∷ xs)
    → suc (length xs) < k
    → Returns (HeadDeleted h d p xs) (delete_head k list h)
unfolding delete_head is_empty
delete_head-cons k h list p d xs l f =
    let (ne, out, e, c) = l.chain in
    rw (l.start, not-null h p d (first null xs) ne e, load-ok h p d (first null xs) ne e)
      (Returns-bind
        (delete_node-remove k h p p ((p, d) ∷ xs) (record { start = refl; chain = l.chain })
          (ground arith) f)
        λ l' g del. returns (refl, rw remove-first at del.left, del.same, del.freed))

-- On an empty list `List_delete_head` says so and changes nothing.
pub delete_head-nil :
    (k : ℕ) (h : Heap Node) (list : Ptr)
    → IsList h list []
    → delete_head k list h ≡ ok (none, list) h
unfolding delete_head is_empty
delete_head-nil k h list l = rw l.start
