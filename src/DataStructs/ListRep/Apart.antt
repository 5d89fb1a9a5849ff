-- ===== src/DataStructs/ListRep/Apart.antt =====
-- Chains of nodes that have none in common.
use mathlib.Core.Bool.{false≢true}
use c_lang_project.Common.{
  Bool, ◌++◌, Bool-cases, [], arith, false, inl, inr, refl, sym, true, ◌||◌, ◌∙◌, ◌∷◌, ◌≡◌,
}
use c_lang_project.Lang.Memory.{Ptr}
use c_lang_project.DataStructs.ListRep.{Object}
use c_lang_project.DataStructs.ListRep.Chain.{Cells, has, has-append, Disjoint}

pub Disjoint-sym : (xs ys : Cells) → Disjoint xs ys → Disjoint ys xs
Disjoint-sym xs ys apart a i = elim (Bool-cases (has a xs)) [
  | inl there ↦ absurd (false≢true (sym (apart a there) ∙ i))
  | inr out ↦ out
]

pub one-Disjoint :
    (p : Ptr) (d : Object) (xs : Cells) → has p xs ≡ false → Disjoint ((p, d) ∷ []) xs
one-Disjoint p d xs out a i = ground arith

or_false : (x y : Bool) → (x || y) ≡ false → (x ≡ false) × (y ≡ false)
or_false true y e = cc
or_false false y e = (refl, e)

pub not-has-append :
    (q : Ptr) (xs ys : Cells) → has q (xs ++ ys) ≡ false → (has q xs ≡ false) × (has q ys ≡ false)
not-has-append q xs ys o = or_false (has q xs) (has q ys) (sym (has-append q xs ys) ∙ o)

pub Disjoint-append : (xs ys zs : Cells) → Disjoint xs (ys ++ zs) → Disjoint xs ys × Disjoint xs zs
Disjoint-append xs ys zs apart =
    (λ a i. (not-has-append a ys zs (apart a i)).0, λ a i. (not-has-append a ys zs (apart a i)).1)

pub Disjoint-join : (xs ys zs : Cells) → Disjoint xs ys → Disjoint xs zs → Disjoint xs (ys ++ zs)
Disjoint-join xs ys zs l r a i = has-append a ys zs ∙ rw (l a i) (r a i)
