-- ===== src/Books/SkewHeap/Laws.antt =====
-- Heap order and contents of skew_heap.c.
use c_lang_project.Lang.Result.{Ends, Ends-bind, ends}
use c_lang_project.Lang.Memory.{null}
use c_lang_project.Books.SkewHeap.{
  Tree, insert_path, merge_path, nil, node, delete_min, insert, merge,
}
use c_lang_project.DataStructs.ListRep.{Object}
use c_lang_project.Common.{
  ◌+◌, ◌==◌, Bool-cases, arith, if◌then◌else◌, inl, inr, le→ltb, ltb, lt→ltb, ℕ, ◌≡◌, ◌≢◌, ◌≤◌, ◌⊎◌,
  ==-false, ==-true, ap, false, refl, subst, sym, true, ◌∙◌,
}
use native.Mathlib.Decide.{dec_lt}

-- Every node has an object and a key of at least `a`, and of at least that of the node above.
abbrev pub IsHeap : ℕ → Tree → Type 0
IsHeap a nil = Unit {0}
IsHeap a (node k o l r) = (a ≤ k) × (o ≢ null) × IsHeap k l × IsHeap k r

-- A heap behind a pointer that is not NULL: the empty one, or one in order.
abbrev pub IsSkew : Tree → Type 0
IsSkew nil = ⊥
IsSkew (node k o l r) = (o ≡ null) ⊎ IsHeap 0 (node k o l r)

-- The sum of a weight over the nodes. Trees that agree on it for every weight hold the same keys
-- with the same objects.
abbrev pub total : (ℕ → Object → ℕ) → Tree → ℕ
total w nil = 0
total w (node k o l r) = w k o + total w l + total w r

abbrev pub contents : (ℕ → Object → ℕ) → Tree → ℕ
contents w nil = 0
contents w (node k o l r) = if o == null then 0 else total w (node k o l r)

-- Every key is at least `a`.
abbrev pub IsAbove : ℕ → Tree → Type 0
IsAbove a nil = Unit {0}
IsAbove a (node k o l r) = (a ≤ k) × IsAbove a l × IsAbove a r

IsHeap-IsAbove : (a b : ℕ) (t : Tree) → a ≤ b → IsHeap b t → IsAbove a t
IsHeap-IsAbove a b nil h s = tt
IsHeap-IsAbove a b (node k o l r) h (le, some_object, sl, sr) =
    (omega arith, IsHeap-IsAbove a k l (omega arith) sl, IsHeap-IsAbove a k r (omega arith) sr)

IsHeap-weaken : (a b : ℕ) (t : Tree) → a ≤ b → IsHeap b t → IsHeap a t
IsHeap-weaken a b nil h s = tt
IsHeap-weaken a b (node k o l r) h (le, some_object, sl, sr) = (omega arith, some_object, sl, sr)

insert_path-IsHeap :
    (k : ℕ) (o : Object) (k' : ℕ) (o' : Object) (l r : Tree) (a : ℕ)
    → o ≢ null
    → k' ≤ k
    → IsHeap a (node k' o' l r)
    → IsHeap a (insert_path k o k' o' l r)
unfolding insert_path
insert_path-IsHeap k o k' o' l nil a some_new le (low, some_old, sl, sr) =
    (low, some_old, sl, (le, some_new, tt, tt))
insert_path-IsHeap k o k' o' l (node k2 o2 l2 r2) a some_new le (low, some_old, sl, s2) =
    elim (dec_lt k2 k) [
      | yes h ↦
          rw (lt→ltb k2 k h)
            (low, some_old, insert_path-IsHeap k o k2 o2 l2 r2 k' some_new (omega arith) s2, sl)
      | no h ↦ rw (le→ltb k2 k (omega arith)) (
        low,
        some_old,
        sl,
        (
          le,
          some_new,
          IsHeap-weaken k k2 (node k2 o2 l2 r2) (omega arith) (omega arith, s2.1, s2.2, s2.3),
          tt,
        ),
      )
    ]

total-insert_path :
    (w : ℕ → Object → ℕ) (k : ℕ) (o : Object) (k' : ℕ) (o' : Object) (l r : Tree)
    → total w (insert_path k o k' o' l r) ≡ w k o + total w (node k' o' l r)
unfolding insert_path
total-insert_path w k o k' o' l nil = omega arith
total-insert_path w k o k' o' l (node k2 o2 l2 r2) = elim (Bool-cases (ltb k2 k)) [
  | inl h ↦ rw h (omega (arith, total-insert_path w k o k2 o2 l2 r2))
  | inr h ↦ rw h (omega arith)
]

-- The two steps of the loop of `merge`.
module _ (k : ℕ) (o : Object) (l : Tree) (k2 : ℕ) (o2 : Object) (l2 r2 : Tree) (k3 : ℕ)
    (o3 : Object) (l3 r3 : Tree) where
  abbrev merged : Tree
  merged = merge_path k o l (node k2 o2 l2 r2) (node k3 o3 l3 r3)

  merge_path_second :
      ltb k2 k3 ≡ true → merged ≡ node k o (merge_path k2 o2 l2 r2 (node k3 o3 l3 r3)) l
  unfolding merge_path
  merge_path_second e = rw (merge_path, e) refl

  merge_path_third :
      ltb k2 k3 ≡ false → merged ≡ node k o (merge_path k3 o3 l3 (node k2 o2 l2 r2) r3) l
  unfolding merge_path
  merge_path_third e = rw (merge_path, e) refl

merge_path-IsHeap :
    (k : ℕ) (o : Object) (l t2 t3 : Tree) (a : ℕ)
    → IsHeap a (node k o l t2)
    → IsHeap k t3
    → IsHeap a (merge_path k o l t2 t3)
unfolding merge_path
merge_path-IsHeap k o l nil t3 a (low, some_object, sl, s2) s3 = (low, some_object, sl, s3)
merge_path-IsHeap k o l (node k2 o2 l2 r2) nil a h s3 = h
merge_path-IsHeap k o l (node k2 o2 l2 r2) (node k3 o3 l3 r3) a (low, some_object, sl, s2) s3 =
    elim (dec_lt k2 k3) [
      | yes h ↦
          subst (IsHeap a) (sym (merge_path_second k o l k2 o2 l2 r2 k3 o3 l3 r3 (lt→ltb k2 k3 h)))
            (
              low,
              some_object,
              merge_path-IsHeap k2 o2 l2 r2 (node k3 o3 l3 r3) k s2 (omega arith, s3.1, s3.2, s3.3),
              sl,
            )
      | no h ↦
          subst (IsHeap a)
            (sym (merge_path_third k o l k2 o2 l2 r2 k3 o3 l3 r3 (le→ltb k2 k3 (omega arith))))
            (
              low,
              some_object,
              merge_path-IsHeap k3 o3 l3 (node k2 o2 l2 r2) r3 k
                  (s3.0, s3.1, s3.2, (omega arith, s2.1, s2.2, s2.3)) s3.3,
              sl,
            )
    ]

total-merge_path :
    (w : ℕ → Object → ℕ) (k : ℕ) (o : Object) (l t2 t3 : Tree)
    → total w (merge_path k o l t2 t3) ≡ total w (node k o l t2) + total w t3
unfolding merge_path
total-merge_path w k o l nil t3 = omega arith
total-merge_path w k o l (node k2 o2 l2 r2) nil = omega arith
total-merge_path w k o l (node k2 o2 l2 r2) (node k3 o3 l3 r3) = elim (Bool-cases (ltb k2 k3)) [
  | inl h ↦
      ap (total w) (merge_path_second k o l k2 o2 l2 r2 k3 o3 l3 r3 h)
      ∙ omega (arith, total-merge_path w k2 o2 l2 r2 (node k3 o3 l3 r3))
  | inr h ↦
      ap (total w) (merge_path_third k o l k2 o2 l2 r2 k3 o3 l3 r3 h)
      ∙ omega (arith, total-merge_path w k3 o3 l3 (node k2 o2 l2 r2) r3)
]

node-ne-nil : {k : ℕ} {o : Object} {l r : Tree} → ¬ (node k o l r ≡ nil)
node-ne-nil e = cc

insert_path-ne-nil :
    (k : ℕ) (o : Object) (k' : ℕ) (o' : Object) (l r : Tree) → insert_path k o k' o' l r ≢ nil
unfolding insert_path
insert_path-ne-nil k o k' o' l nil e = cc
insert_path-ne-nil k o k' o' l (node k2 o2 l2 r2) e = elim (Bool-cases (ltb k2 k)) [
  | inl h ↦ cc
  | inr h ↦ cc
]

merge_path-ne-nil : (k : ℕ) (o : Object) (l t2 t3 : Tree) → merge_path k o l t2 t3 ≢ nil
unfolding merge_path
merge_path-ne-nil k o l nil t3 e = cc
merge_path-ne-nil k o l (node k2 o2 l2 r2) nil e = cc
merge_path-ne-nil k o l (node k2 o2 l2 r2) (node k3 o3 l3 r3) e = elim (Bool-cases (ltb k2 k3)) [
  | inl h ↦ node-ne-nil (sym (merge_path_second k o l k2 o2 l2 r2 k3 o3 l3 r3 h) ∙ e)
  | inr h ↦ node-ne-nil (sym (merge_path_third k o l k2 o2 l2 r2 k3 o3 l3 r3 h) ∙ e)
]

-- A heap with these contents.
abbrev pub Holds : ((ℕ → Object → ℕ) → ℕ) → Tree → Type 0
Holds count t = IsSkew t × ((w : ℕ → Object → ℕ) → contents w t ≡ count w)

root_object : (a k : ℕ) (o : Object) (l r : Tree) → IsHeap a (node k o l r) → (o == null) ≡ false
root_object a k o l r h = ==-false o null h.1

-- A heap in order has all its nodes as contents.
ordered-Holds :
    (t : Tree) (count : (ℕ → Object → ℕ) → ℕ)
    → ¬ (t ≡ nil)
    → IsHeap 0 t
    → ((w : ℕ → Object → ℕ) → total w t ≡ count w)
    → Holds count t
ordered-Holds nil count some_node h e = absurd (some_node refl)
ordered-Holds (node k o l r) count some_node h e = (inr h, λ w. rw (root_object 0 k o l r h) (e w))

-- x
pub insert-Holds :
    (k : ℕ) (o : Object) (t : Tree)
    → IsSkew t
    → o ≢ null
    → Ends (Holds (λ w. w k o + contents w t)) (insert true k o t)
unfolding insert
insert-Holds k o nil v some_new = absurd v
insert-Holds k o (node k' o' l r) (inl e) some_new =
    rw (==-true o' null e)
      (ends (inr (omega arith, some_new, tt, tt), λ w. rw (==-false o null some_new) (omega arith)))
insert-Holds k o (node k' o' l r) (inr h) some_new =
    rw (root_object 0 k' o' l r h) (elim (dec_lt k k') [
      | yes less ↦ rw (lt→ltb k k' less) (
          ends (
            inr (omega arith, some_new, (omega arith, h.1, h.2, h.3), tt),
            λ w. rw (==-false o null some_new) (omega arith),
          ))
      | no more ↦ rw (le→ltb k k' (omega arith)) (
          ends (
            ordered-Holds (insert_path k o k' o' l r) _ (insert_path-ne-nil k o k' o' l r)
              (insert_path-IsHeap k o k' o' l r 0 some_new (omega arith) h)
              (λ w. total-insert_path w k o k' o' l r)))
    ])

-- merge of skew_heap.c, on heaps in order that may be empty, ends without undefined behaviour in a
-- heap in order, or the empty one, with the keys and objects of both.
pub merge-Holds :
    (t t' : Tree)
    → IsSkew t
    → IsSkew t'
    → Ends (Holds (λ w. contents w t + contents w t')) (merge t t')
unfolding merge
merge-Holds nil t' v v' = absurd v
merge-Holds (node k o l r) nil v v' = absurd v'
merge-Holds (node k o l r) (node k' o' l' r') (inl e) v' =
    rw (==-true o null e) (ends (v', λ w. omega arith))
merge-Holds (node k o l r) (node k' o' l' r') (inr h) (inl e') =
    rw (root_object 0 k o l r h, ==-true o' null e')
      (ends (inr h, λ w. rw (root_object 0 k o l r h) (omega arith)))
merge-Holds (node k o l r) (node k' o' l' r') (inr h) (inr h') =
    rw (root_object 0 k o l r h, root_object 0 k' o' l' r' h')
      (elim (dec_lt k k') [
        | yes less ↦ rw (lt→ltb k k' less) (
            ends (
              ordered-Holds (merge_path k o l r (node k' o' l' r')) _
                (merge_path-ne-nil k o l r (node k' o' l' r'))
                (merge_path-IsHeap k o l r (node k' o' l' r') 0 h (omega arith, h'.1, h'.2, h'.3))
                (λ w. total-merge_path w k o l r (node k' o' l' r'))))
        | no more ↦ rw (le→ltb k k' (omega arith)) (
            ends (
              ordered-Holds (merge_path k' o' l' r' (node k o l r)) _
                (merge_path-ne-nil k' o' l' r' (node k o l r))
                (merge_path-IsHeap k' o' l' r' (node k o l r) 0 h' (omega arith, h.1, h.2, h.3))
                (λ w. total-merge_path w k' o' l' r' (node k o l r) ∙ omega arith)))
      ])

-- What `delete_min` answers and leaves of a heap with the key `k` at the root.
abbrev pub Deleted : ℕ → Object → Tree → Object × Tree → Type 0
Deleted k o t (out, t') =
    (out ≡ o)
    × IsAbove k t
    × IsSkew t'
    × ((w : ℕ → Object → ℕ) → w k o + contents w t' ≡ contents w t)

-- delete_min of skew_heap.c, on a heap in order that is not empty, ends without undefined
-- behaviour; it hands out the object at the root, whose key is the least, and leaves a heap in
-- order, or the empty one, with the other keys and objects.
pub delete_min-Deleted_skew :
    (k : ℕ) (o : Object) (l r : Tree)
    → IsHeap 0 (node k o l r)
    → Ends (Deleted k o (node k o l r)) (delete_min (node k o l r))
unfolding delete_min
delete_min-Deleted_skew k o nil nil h =
    ends
      (refl, (omega arith, tt, tt), inl refl, λ w. rw (root_object 0 k o nil nil h) (omega arith))
delete_min-Deleted_skew k o (node k1 o1 l1 r1) nil h =
    let h1 : IsHeap 0 (node k1 o1 l1 r1) = (omega arith, h.2.1, h.2.2, h.2.3) in
    ends (
      refl,
      (omega arith, IsHeap-IsAbove k k (node k1 o1 l1 r1) (omega arith) h.2, tt),
      inr h1,
      λ w.
          rw (root_object 0 k o (node k1 o1 l1 r1) nil h, root_object 0 k1 o1 l1 r1 h1)
            (omega arith),
    )
delete_min-Deleted_skew k o nil (node k2 o2 l2 r2) h =
    let h2 : IsHeap 0 (node k2 o2 l2 r2) = (omega arith, h.3.1, h.3.2, h.3.3) in
    ends (
      refl,
      (omega arith, tt, IsHeap-IsAbove k k (node k2 o2 l2 r2) (omega arith) h.3),
      inr h2,
      λ w.
          rw (root_object 0 k o nil (node k2 o2 l2 r2) h, root_object 0 k2 o2 l2 r2 h2)
            (omega arith),
    )
delete_min-Deleted_skew k o (node k1 o1 l1 r1) (node k2 o2 l2 r2) h =
    let h1 : IsHeap 0 (node k1 o1 l1 r1) = (omega arith, h.2.1, h.2.2, h.2.3) in
    let h2 : IsHeap 0 (node k2 o2 l2 r2) = (omega arith, h.3.1, h.3.2, h.3.3) in
    Ends-bind (merge-Holds (node k1 o1 l1 r1) (node k2 o2 l2 r2) (inr h1) (inr h2)) λ t (skew, e).
      ends (
        refl,
        (
          omega arith,
          IsHeap-IsAbove k k (node k1 o1 l1 r1) (omega arith) h.2,
          IsHeap-IsAbove k k (node k2 o2 l2 r2) (omega arith) h.3,
        ),
        skew,
        λ w.
            ap (λ n. w k o + n) (e w)
            ∙ rw
                (
                  root_object 0 k o (node k1 o1 l1 r1) (node k2 o2 l2 r2) h,
                  root_object 0 k1 o1 l1 r1 h1,
                  root_object 0 k2 o2 l2 r2 h2,
                )
                (omega arith),
      )
