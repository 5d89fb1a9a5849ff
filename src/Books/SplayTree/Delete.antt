-- ===== src/Books/SplayTree/Delete.antt =====
-- `delete` of spla_tree.c.
use mathlib.Core.Option
use c_lang_project.Books.SplayTree.Find.{IsSplay, get}
use c_lang_project.Lang.Memory.{null}
use c_lang_project.Books.SplayTree.{Tree}
use c_lang_project.DataStructs.ListRep.{Object}
use c_lang_project.Books.SplayTree.Keys.{IsSearch, lookup}
use c_lang_project.Common.{◌+◌, ◌<◌, ◌==◌, if◌then◌else◌, ℕ, ◌≡◌, ◌≢◌, ◌≤◌, Option, none, some}

-- The least key of a tree, and the rest.
pub record Taken (a b : ℕ) (t : Tree) (s : (ℕ × Object) × Tree) : Type 0 where
  pub low : a ≤ s.0.0
  pub high : s.0.0 < b
  pub object : s.0.1 ≢ null
  pub search : IsSearch (s.0.0 + 1) b s.1
  pub same : (q : ℕ) → lookup t q ≡ (if s.0.0 == q then s.0.1 else lookup s.1 q)

-- The tree `u` is `t` without the key `k`.
pub record Without (a b k : ℕ) (t u : Tree) : Type 0 where
  pub search : IsSearch a b u
  pub same : (q : ℕ) → lookup u q ≡ (if k == q then null else lookup t q)

pub data Dropped (a b q : ℕ) (t : Tree) : Option (Object × Tree) → Type 0 where
  absent : lookup t q ≡ null → Dropped a b q t none
  dropped : (u : Tree) → Without a b q t u → Dropped a b q t (some (lookup t q, u))

-- What `delete` answers and leaves.
abbrev pub Deleted : Tree → ℕ → Object × Tree → Type 0
Deleted t q (out, t') =
    (out ≡ get t q) × IsSplay t' × ((p : ℕ) → get t' p ≡ (if q == p then null else get t p))
