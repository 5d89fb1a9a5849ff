-- ===== src/Books/HeightBalanced/Bounds.antt =====
use c_lang_project.Books.HeightBalanced.Rebuild.{length-le-height, plug-Fits}
use c_lang_project.Books.HeightBalanced.{height}
use c_lang_project.Books.SearchTree.Paths.{here, Reached, descend-Reached}
use c_lang_project.Books.SearchTree.{
  IsSearch, Tree, leaf, leaves, leaves-le, max_key, node, Found, descend, plug,
}
use c_lang_project.Books.HeightBalanced.Balance.{IsBalanced}
use c_lang_project.Common.{◌*◌, ◌<◌, ◌^◌, arith, suc, zero, ℕ, ◌≤◌, [], ap, length, subst, sym}
use native.Mathlib.Decide.{dec_lt}

-- The height of the trees of h_bl_tree.c, and the room for a way down.

-- A tree in balance has at least 2 ^ k leaves at height 2 * k.
pow2-le-leaves : (k : ℕ) (t : Tree ℕ) → IsBalanced t → 2 * k ≤ height t → 2 ^ k ≤ leaves t
pow2-le-leaves zero (leaf _ _ _) b h = omega arith
pow2-le-leaves zero (node _ _ l r) (level, bl, br) h =
    omega (arith, pow2-le-leaves zero l bl (omega arith))
pow2-le-leaves (suc k) (leaf _ _ _) b h = absurd (omega arith)
pow2-le-leaves (suc k) (node _ _ l r) (level, bl, br) h =
    let pl = pow2-le-leaves k l bl (omega arith) in
    let pr = pow2-le-leaves k r br (omega arith) in omega arith

-- Distinct int keys: the height is far below the room of `path_stack`.
pub height-lt : (t : Tree ℕ) → IsSearch 0 max_key t → IsBalanced t → height t < 66
height-lt t s b = elim (dec_lt (height t) 66) [
  | yes h ↦ h
  | no h ↦ absurd (omega (arith, pow2-le-leaves 33 t b (omega arith), leaves-le 0 max_key t s))
]

-- In a search tree in balance, whose keys are distinct ints, the way down to a leaf has fewer than
-- 66 nodes, so that path_stack of h_bl_tree.c, with its 100 places, never overflows.
pub path-lt :
    (t : Tree ℕ) (k : ℕ)
    → IsSearch 0 max_key t
    → IsBalanced t
    → k < max_key
    → length (descend k t []).path < 66
path-lt t k s b h =
    bounded (descend k t []) (descend-Reached 0 max_key k t [] here s (omega arith) h)
  where
    bounded : (f : Found ℕ) → Reached 0 max_key k t f → length f.path < 66
    bounded f r =
        let bal : IsBalanced (plug f.path (leaf f.key f.info f.object)) =
          subst IsBalanced (sym r.whole) b in
        omega (
          arith,
          length-le-height f.path (leaf f.key f.info f.object) (plug-Fits f.path _ bal).1,
          height-lt t s b,
          ap height r.whole,
        )
