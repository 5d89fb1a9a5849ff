-- ===== src/Books/LeftistHeap/Invariant.antt =====
-- Leftist heaps: the rank, the order, and what a heap holds.
use c_lang_project.DataStructs.ListRep.{Object}
use c_lang_project.Common.{
  ◌&&◌, ◌+◌, ◌<◌, ◌==◌, List, [], ◌^◌, arith, if◌then◌else◌, suc, zero, ℕ, ◌∷◌, ◌≡◌, ◌≤◌, ==-false,
  ==-true, false, ◌⊎◌, refl, true,
}
use native.Mathlib.Decide.{dec_lt}
use c_lang_project.Books.LeftistHeap.{Tree, nil, node, Frame, plug, close, rank, is_nil}

abbrev pub IsLeftist : Tree → Type 0
IsLeftist nil = Unit {0}
IsLeftist (node n k o l r) = (n ≡ rank r + 1) × (rank r ≤ rank l) × IsLeftist l × IsLeftist r

-- No key below a node is smaller, and none is below `m`.
abbrev pub IsHeap : ℕ → Tree → Type 0
IsHeap m nil = Unit {0}
IsHeap m (node n k o l r) = (m ≤ k) × IsHeap k l × IsHeap k r

-- How often the heap holds the key `q` with the object `x`.
abbrev pub is_item : ℕ → Object → ℕ → Object → ℕ
is_item q x k o = if k == q && o == x then 1 else 0

abbrev pub count : ℕ → Object → Tree → ℕ
count q x nil = 0
count q x (node n k o l r) = is_item q x k o + count q x l + count q x r

abbrev pub count_on : ℕ → Object → List Frame → ℕ
count_on q x [] = 0
count_on q x (f ∷ fs) = is_item q x f.key f.object + count q x f.left + count_on q x fs

abbrev pub size : Tree → ℕ
size nil = 0
size (node n k o l r) = size l + size r + 1

pub count-plug :
    (q : ℕ) (x : Object) (fs : List Frame) (t : Tree)
    → count q x (plug fs t) ≡ count_on q x fs + count q x t
count-plug q x [] t = omega arith
count-plug q x (f ∷ fs) t = omega (arith, count-plug q x fs (close f t))

pub IsHeap-weaken : (m m' : ℕ) (t : Tree) → m' ≤ m → IsHeap m t → IsHeap m' t
IsHeap-weaken m m' nil h s = tt
IsHeap-weaken m m' (node n k o l r) h (p, hl, hr) = (omega arith, hl, hr)

pow2-le-size : (j : ℕ) (t : Tree) → IsLeftist t → j ≤ rank t → 2 ^ j ≤ size t + 1
pow2-le-size zero t s h = omega arith
pow2-le-size (suc j) nil s h = absurd (omega arith)
pow2-le-size (suc j) (node n k o l r) (e, le, sl, sr) h =
    let pl = pow2-le-size j l sl (omega arith) in
    let pr = pow2-le-size j r sr (omega arith) in omega arith

-- The rank of a heap of fewer than 2 ^ 50 nodes.
pub rank-le : (t : Tree) → IsLeftist t → size t < 2 ^ 50 → rank t ≤ 50
rank-le t s h = elim (dec_lt (rank t) 51) [
  | yes p ↦ omega arith
  | no p ↦ absurd (omega (arith, pow2-le-size 51 t s (omega arith)))
]

-- The key above the end of a way.
abbrev pub above : List Frame → ℕ
above [] = 0
above (f ∷ fs) = f.key

-- A non-empty heap.
pub record IsValid (t : Tree) : Type 0 where
  pub leftist : IsLeftist t
  pub heap : IsHeap 0 t
  pub some_node : 0 < rank t

-- A heap as its users have it: with nodes, or of rank 0, where the rest does not count.
abbrev pub IsLeftistHeap : Tree → Type 0
IsLeftistHeap t = ((rank t ≡ 0) × (is_nil t ≡ false)) ⊎ IsValid t

-- How often the heap holds the key `q` with the object `x`.
abbrev pub holds : ℕ → Object → Tree → ℕ
holds q x t = if rank t == 0 then 0 else count q x t

pub holds-count : (q : ℕ) (x : Object) (t : Tree) → 0 < rank t → holds q x t ≡ count q x t
holds-count q x t h = rw (==-false (rank t) 0 (omega arith))

pub holds-zero : (q : ℕ) (x : Object) (t : Tree) → rank t ≡ 0 → holds q x t ≡ 0
holds-zero q x t e = rw (==-true _ _ e)

pub is_nil-rank : (t : Tree) → 0 < rank t → is_nil t ≡ false
is_nil-rank nil h = absurd (omega arith)
is_nil-rank (node n k o l r) h = refl

pub rank_pos : (t : Tree) → IsLeftist t → is_nil t ≡ false → 0 < rank t
rank_pos nil s e = cc
rank_pos (node n k o l r) s e = omega arith

pub count-is_nil : (q : ℕ) (x : Object) (t : Tree) → is_nil t ≡ true → count q x t ≡ 0
count-is_nil q x nil e = refl
count-is_nil q x (node n k o l r) e = cc
