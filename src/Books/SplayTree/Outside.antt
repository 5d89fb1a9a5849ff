-- ===== src/Books/SplayTree/Outside.antt =====
-- Trees of spla_tree.c and the keys outside their bounds.
use c_lang_project.Lang.Memory.{null}
use c_lang_project.Books.SplayTree.{Tree, nil, node}
use c_lang_project.Books.SplayTree.Keys.{IsSearch, lookup}
use c_lang_project.Common.{◌+◌, ◌<◌, arith, le→ltb, lt→ltb, refl, ℕ, ◌≡◌, ◌≤◌}

pub lookup-below : (a b : ℕ) (t : Tree) (q : ℕ) → IsSearch a b t → q < a → lookup t q ≡ null
unfolding lookup
lookup-below a b nil q s less = refl
lookup-below a b (node k o l r) q s less =
    rw (lt→ltb q k (omega arith)) (lookup-below a k l q s.3 less)

pub lookup-above : (a b : ℕ) (t : Tree) (q : ℕ) → IsSearch a b t → b ≤ q → lookup t q ≡ null
unfolding lookup
lookup-above a b nil q s more = refl
lookup-above a b (node k o l r) q s more =
    rw (le→ltb q k (omega arith), lt→ltb k q (omega arith)) (lookup-above (k + 1) b r q s.4 more)

pub IsSearch-widen :
    (a b a' b' : ℕ) (t : Tree) → a' ≤ a → b ≤ b' → IsSearch a b t → IsSearch a' b' t
IsSearch-widen a b a' b' nil low high s = tt
IsSearch-widen a b a' b' (node k o l r) low high (low', high', ob, sl, sr) = (
  omega arith,
  omega arith,
  ob,
  IsSearch-widen a k a' k l low (omega arith) sl,
  IsSearch-widen (k + 1) b (k + 1) b' r (omega arith) high sr,
)
