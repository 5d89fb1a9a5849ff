-- ===== src/Books/NodePool.antt =====
-- The nodes that src/bin/books/advanced_data_structures/ch2/triv_tree.c hands out and takes back,
-- and, with the same functions, ch3/spla_tree.c.
-- An address counts in nodes, `block + 1` is the node behind `block`, and 0 is NULL.
pub mod Counts
use c_lang_project.Common.Int.{int_bound}
use c_lang_project.Lang.Memory.{null}
use c_lang_project.Lang.Result.{◌>>=◌, Result, done, undefined}
use c_lang_project.Common.{◌+◌, ◌-◌, ◌==◌, List, [], if◌then◌else◌, ◌||◌, ℕ, ◌∷◌, ◌^◌, ltb}

pub record Pool : Type 0 where
  pub free : List ℕ
  pub block : ℕ
  pub size_left : ℕ
  pub nodes_taken : ℕ
  pub nodes_returned : ℕ

abbrev pub block_size : ℕ
block_size = 256

-- The next node of the block; `fresh` is the answer of malloc, if it is asked.
abbrev pub next_node : ℕ → Pool → ℕ × Pool
next_node fresh p =
    if p.block == null || p.size_left == 0
    then (fresh, record p { block = fresh + 1; size_left = block_size - 1 })
    else (p.block, record p { block = p.block + 1; size_left = p.size_left - 1 })

abbrev pub from_free : ℕ → List ℕ → Pool → ℕ × Pool
from_free fresh [] p = next_node fresh (record p { free = [] })
from_free fresh (n ∷ free) p = (n, record p { free = free })

-- What `get_node` does where `nodes_taken` does not overflow.
unfoldable pub hand_out : ℕ → Pool → ℕ × Pool
hand_out fresh p = from_free fresh p.free (record p { nodes_taken = p.nodes_taken + 1 })

-- `nodes_taken` and `nodes_returned` are ints, and to go beyond INT_MAX is undefined.
unfoldable pub get_node : ℕ → Pool → Result (ℕ × Pool)
unfolding hand_out
get_node fresh p = if ltb (p.nodes_taken + 1) int_bound then done (hand_out fresh p) else undefined

abbrev pub take_back : ℕ → Pool → Pool
take_back n p = record p { free = n ∷ p.free; nodes_returned = p.nodes_returned + 1 }

unfoldable pub return_node : ℕ → Pool → Result Pool
return_node n p = if ltb (p.nodes_returned + 1) int_bound then done (take_back n p) else undefined

-- A node that is written to, which is undefined where the answer is NULL. `m k` is the answer of
-- malloc in the call before which `nodes_taken` is `k`, if it is asked there.
abbrev pub take_node : (ℕ → ℕ) → Pool → Result (ℕ × Pool)
take_node m p =
    get_node (m p.nodes_taken) p >>= λ (n, p'). if n == null then undefined else done (n, p')
