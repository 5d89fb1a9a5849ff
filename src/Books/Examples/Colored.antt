-- ===== src/Books/Examples/Colored.antt =====
-- rb_tree.c at small inputs.
use c_lang_project.Books.RedBlack.{Color, black, red, is_black}
use c_lang_project.Books.SearchTree.{Tree, descend, leaf, node, went_left}
use c_lang_project.Common.{
  ◌+◌, ◌==◌, Bool, arith, false, if◌then◌else◌, inr, refl, suc, true, zero, ℕ, ◌≡◌, sym,
}
use c_lang_project.Lang.Result.{◌>>=◌, Ends, Result, done}
use c_lang_project.Books.RedBlack
use mathlib.Core.Bool.{false≢true}
use c_lang_project.Books.RedBlack.Colors.{blacks}
use c_lang_project.Books.RedBlack.Remove
use c_lang_project.Books.RedBlack.Insert.{IsRedBlack, Inserted, insert-IsRedBlack}
use c_lang_project.Books.RedBlack.Delete.{Deleted, delete-IsKeyed}
use c_lang_project.Books.RedBlack.Shrink.{Settled, delete_round-Settled}

-- The keys 10, 20 and 30.
abbrev three : Tree Color
three = node 20 black (leaf 10 black 101) (node 30 red (leaf 20 black 201) (leaf 30 black 301))

abbrev three-IsRedBlack : IsRedBlack three
three-IsRedBlack = inr (omega arith, (refl, tt, (refl, refl, refl, tt, tt)), refl)

insert-IsRedBlack_example : Ends (Inserted three 5 51) (RedBlack.insert true three 5 51)
insert-IsRedBlack_example =
    insert-IsRedBlack three 5 51 three-IsRedBlack (omega arith) (omega arith)

delete-IsKeyed_example : Ends (Deleted three 10) (Remove.delete three 10)
delete-IsKeyed_example = delete-IsKeyed three 10 three-IsRedBlack (omega arith)

-- A black leaf lacks a black node beside the red node over the leaves 20 and 30.
delete_round-Settled_example : Ends (Settled true 1) (
    Remove.delete_round
      (went_left 15 black (
        node 40 red
          (node 20 black (leaf 15 black 151) (leaf 20 black 201))
          (node 60 black (leaf 40 black 401) (leaf 60 black 601))))
      (leaf 10 black 101))
delete_round-Settled_example =
    delete_round-Settled
      (went_left 15 black (
        node 40 red (node 20 black (leaf 15 black 151) (leaf 20 black 201))
          (node 60 black (leaf 40 black 401) (leaf 60 black 601))))
      (leaf 10 black 101) tt refl (refl, refl, refl, (refl, tt, tt), (refl, tt, tt)) refl
      (λ e. absurd (false≢true (sym e)))

abbrev insert_from : ℕ → ℕ → Tree Color → Result (Tree Color)
insert_from zero n t = done t
insert_from (suc f) n t = RedBlack.insert true t n (n + 100) >>= λ p. insert_from f (n + 1) p.0

abbrev down_right : Tree Color → ℕ
down_right (leaf k c o) = if is_black (leaf k c o) then 1 else 0
down_right (node k c l r) = (if is_black (node k c l r) then 1 else 0) + down_right r

-- Whether the first and the last way down meet equally many black nodes.
abbrev even : Result (Tree Color) → Bool
even (done t) = blacks t == down_right t
even r = false

-- From the tree of the keys 1 to 12, inserted in this order, `delete` of 1 leaves a tree in which
-- the ways down meet different numbers of black nodes.
even_before : even (insert_from 12 1 (leaf 0 black 0)) ≡ true
unfolding RedBlack.insert RedBlack.insert_found RedBlack.insert_at RedBlack.insert_loop
    RedBlack.insert_round descend
even_before = refl

delete_uneven :
    even (insert_from 12 1 (leaf 0 black 0) >>= λ t. Remove.delete t 1 >>= λ p. done p.1) ≡ false
unfolding RedBlack.insert RedBlack.insert_found RedBlack.insert_at RedBlack.insert_loop
    RedBlack.insert_round descend Remove.delete Remove.delete_found Remove.cut_out
    Remove.delete_loop Remove.delete_round
delete_uneven = refl
