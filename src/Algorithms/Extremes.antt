-- ===== src/Algorithms/Extremes.antt =====
-- What minmax.c finds.

use c_lang_project.Algorithms.{minmax}
use c_lang_project.Common.Int.{ltb_ℤ, ℤ, ◌≤ℤ◌}
use c_lang_project.Lang.Result.{Ends, Ends-bind, ends}
use c_lang_project.Common.{
  ◌++◌, ◌-◌, ◌/◌, ◌<◌, Bool-cases, List, [], ap, arith, drop, if◌then◌else◌, inl, inr, length,
  length-append, refl, subst, suc, take, zero, ℕ, ◌∷◌, ◌≡◌, ◌≤◌, ◌⊎◌,
}

abbrev pub Has : ℤ → List ℤ → Type 0
Has v [] = ⊥
Has v (x ∷ a) = (v ≡ x) ⊎ Has v a

abbrev pub Between : ℤ → ℤ → List ℤ → Type 0
Between low high [] = Unit
Between low high (x ∷ a) = (low ≤ℤ x) × (x ≤ℤ high) × Between low high a

-- Both numbers are in the list, and all others lie between them.
pub record AreExtremes (a : List ℤ) (low high : ℤ) : Type 0 where
  pub least : Has low a
  pub greatest : Has high a
  pub between : Between low high a

Has-left : (v : ℤ) (a b : List ℤ) → Has v a → Has v (a ++ b)
Has-left v [] b h = absurd h
Has-left v (x ∷ a) b (inl e) = inl e
Has-left v (x ∷ a) b (inr h) = inr (Has-left v a b h)

Has-right : (v : ℤ) (a b : List ℤ) → Has v b → Has v (a ++ b)
Has-right v [] b h = h
Has-right v (x ∷ a) b h = inr (Has-right v a b h)

Between-append :
    (low high low' high' low2 high2 : ℤ) (a b : List ℤ)
    → Between low high a
    → Between low' high' b
    → (low2 ≤ℤ low) × (low2 ≤ℤ low')
    → (high ≤ℤ high2) × (high' ≤ℤ high2)
    → Between low2 high2 (a ++ b)
Between-append low high low' high' low2 high2 [] [] h h' l g = tt
Between-append low high low' high' low2 high2 [] (y ∷ b) h (p, q, h') l g =
    (omega arith, omega arith, Between-append low high low' high' low2 high2 [] b tt h' l g)
Between-append low high low' high' low2 high2 (x ∷ a) b (p, q, h) h' l g =
    (omega arith, omega arith, Between-append low high low' high' low2 high2 a b h h' l g)

take-drop : (n : ℕ) (a : List ℤ) → take n a ++ drop n a ≡ a
take-drop zero a = refl
take-drop (suc n) [] = refl
take-drop (suc n) (x ∷ a) = ap (◌∷◌ x) (take-drop n a)

length-take : (n : ℕ) (a : List ℤ) → n ≤ length a → length (take n a) ≡ n
length-take zero a h = refl
length-take (suc n) [] h = absurd (omega arith)
length-take (suc n) (x ∷ a) h = ap suc (length-take n a (omega arith))

AreExtremes-append :
    (a b : List ℤ) (low high low' high' : ℤ)
    → AreExtremes a low high
    → AreExtremes b low' high'
    → AreExtremes
        (a ++ b)
        (if ltb_ℤ low' low then low' else low)
        (if ltb_ℤ high high' then high' else high)
AreExtremes-append a b low high low' high' h h' = record {
  least = elim (Bool-cases (ltb_ℤ low' low)) [
    | inl e ↦ rw e (Has-right low' a b h'.least)
    | inr e ↦ rw e (Has-left low a b h.least)
  ];
  greatest = elim (Bool-cases (ltb_ℤ high high')) [
    | inl e ↦ rw e (Has-right high' a b h'.greatest)
    | inr e ↦ rw e (Has-left high a b h.greatest)
  ];
  between =
      Between-append low high low' high' (if ltb_ℤ low' low then low' else low)
        (if ltb_ℤ high high' then high' else high) a b h.between h'.between
        (ground arith, ground arith) (ground arith, ground arith);
}

-- minmax of an array that is not empty, with fuel for its length, ends with two of its elements
-- between which all the others lie.
pub minmax-AreExtremes :
    (k : ℕ) (a : List ℤ)
    → 0 < length a
    → length a ≤ k
    → Ends (λ r. AreExtremes a r.0 r.1) (minmax k a)
unfolding minmax
minmax-AreExtremes zero a p f = absurd (omega arith)
minmax-AreExtremes (suc k) [] p f = absurd (omega arith)
minmax-AreExtremes (suc k) (x ∷ []) p f =
    ends
      (record { least = inl refl; greatest = inl refl; between = (omega arith, omega arith, tt) })
minmax-AreExtremes (suc k) (x ∷ y ∷ []) p f = elim (Bool-cases (ltb_ℤ x y)) [
  | inl e ↦ rw e (
      ends (record {
        least = inl refl;
        greatest = inr (inl refl);
        between = (ground arith, ground arith, (ground arith, ground arith, tt));
      }))
  | inr e ↦ rw e (
      ends (record {
        least = inr (inl refl);
        greatest = inl refl;
        between = (ground arith, ground arith, (ground arith, ground arith, tt));
      }))
]
minmax-AreExtremes (suc k) (x ∷ y ∷ z ∷ a) p f =
    let xs : List ℤ = x ∷ y ∷ z ∷ a in
    let half : ℕ = length xs / 2 in
    let first = length-take half xs (omega arith) in
    let both = take-drop half xs in
    let rest : length (drop half xs) ≡ length xs - half =
      omega (arith, first, ap length both, length-append (take half xs) (drop half xs)) in
    Ends-bind (minmax-AreExtremes k (take half xs) (omega (arith, first)) (omega (arith, first)))
      λ r h.
        Ends-bind (minmax-AreExtremes k (drop half xs) (omega (arith, rest)) (omega (arith, rest)))
          λ r' h'. ends (
            subst
              (λ b.
                AreExtremes b (if ltb_ℤ r'.0 r.0 then r'.0 else r.0)
                  (if ltb_ℤ r.1 r'.1 then r'.1 else r.1))
              both (AreExtremes-append _ _ r.0 r.1 r'.0 r'.1 h h'))
