-- ===== src/Books/SplayTree/Insert.antt =====
-- `insert` of spla_tree.c.
use c_lang_project.Lang.Memory.{null}
use c_lang_project.Common.Int.{negsuc, ℤ, pos}
use c_lang_project.Books.SplayTree.{Tree, insert, insert_path, is_nil, nil, node}
use c_lang_project.DataStructs.ListRep.{Object}
use c_lang_project.Books.SplayTree.Find.{IsSplay, get, get-lookup, max_key, get-empty}
use c_lang_project.Books.SplayTree.Keys.{IsSearch, lookup}
use c_lang_project.Common.{
  ◌+◌, ◌<◌, ◌==◌, ==-false, ==-true, Option, ap, arith, false, if◌then◌else◌, inl, inr, le→ltb,
  lt→ltb, none, refl, some, sym, true, ℕ, ◌∙◌, ◌≡◌, ◌≢◌, ◌≤◌,
}
use native.Mathlib.Decide.{dec_lt}
use mathlib.Core.Option
use c_lang_project.Lang.Result.{Ends, done, ends}

-- The tree with the new leaf.
pub record Grown (a b k : ℕ) (o : Object) (t u : Tree) : Type 0 where
  pub absent : lookup t k ≡ null
  pub search : IsSearch a b u
  pub some_node : is_nil u ≡ false
  pub same : (q : ℕ) → lookup u q ≡ (if k == q then o else lookup t q)

pub data Put (a b k : ℕ) (o : Object) (t : Tree) : Option Tree → Type 0 where
  present : lookup t k ≢ null → Put a b k o t none
  grown : (u : Tree) → Grown a b k o t u → Put a b k o t (some u)

module _ (k : ℕ) (o : Object) (some_new : o ≢ null) where
  below_left :
      (a b k' : ℕ) (o' : Object) (l r : Tree) (p : Option Tree)
      → k < k'
      → IsSearch a b (node k' o' l r)
      → Put a k' k o l p
      → Put a b k o (node k' o' l r) (Option.map (λ l'. node k' o' l' r) p)
  unfolding lookup
  below_left a b k' o' l r _ less s (present there) = present (rw (lt→ltb k k' less) there)
  below_left a b k' o' l r _ less (low, high, ob, sl, sr) (grown u g) =
      grown (node k' o' u r) (record {
        absent = rw (lt→ltb k k' less) g.absent;
        search = (low, high, ob, g.search, sr);
        some_node = refl;
        same = λ q. ground (arith, g.same q);
      })

  below_right :
      (a b k' : ℕ) (o' : Object) (l r : Tree) (p : Option Tree)
      → k' < k
      → IsSearch a b (node k' o' l r)
      → Put (k' + 1) b k o r p
      → Put a b k o (node k' o' l r) (Option.map (λ r'. node k' o' l r') p)
  unfolding lookup
  below_right a b k' o' l r _ greater s (present there) =
      present (rw (le→ltb k k' (omega arith), lt→ltb k' k greater) there)
  below_right a b k' o' l r _ greater (low, high, ob, sl, sr) (grown u g) =
      grown (node k' o' l u) (record {
        absent = rw (le→ltb k k' (omega arith), lt→ltb k' k greater) g.absent;
        search = (low, high, ob, sl, g.search);
        some_node = refl;
        same = λ q. ground (arith, g.same q);
      })

  insert_path-Put :
      (a b : ℕ) (t : Tree) → IsSearch a b t → a ≤ k → k < b → Put a b k o t (insert_path k o t)
  unfolding insert_path lookup
  insert_path-Put a b nil s low high = grown (node k o nil nil) (record {
    absent = refl;
    search = (low, high, some_new, tt, tt);
    some_node = refl;
    same = λ q. ground arith;
  })
  insert_path-Put a b (node k' o' l r) s low high = elim (dec_lt k k') [
    | yes less ↦
        rw (lt→ltb k k' less)
          (below_left a b k' o' l r _ less s (insert_path-Put a k' l s.3 low less))
    | no not_less ↦ elim (dec_lt k' k) [
      | yes greater ↦
          rw (le→ltb k k' (omega arith), lt→ltb k' k greater)
            (below_right a b k' o' l r _ greater s
              (insert_path-Put (k' + 1) b r s.4 (omega arith) high))
      | no not_greater ↦
          rw (le→ltb k k' (omega arith), le→ltb k' k (omega arith))
            (present (rw (le→ltb k k' (omega arith), le→ltb k' k (omega arith)) s.2))
    ]
  ]

-- What `insert` answers and leaves.
abbrev pub Inserted : Tree → ℕ → Object → ℤ × Tree → Type 0
Inserted t k o (answer, t') =
    IsSplay t'
    × ((get t k ≡ null) → (answer ≡ pos 0) × ((q : ℕ) → get t' q ≡ (if k == q then o else get t q)))
    × ((get t k ≢ null) → (answer ≡ negsuc 0) × (t' ≡ t))

search-IsSplay : (t : Tree) → is_nil t ≡ false → IsSearch 0 max_key t → IsSplay t
search-IsSplay nil e s = cc
search-IsSplay (node k o l r) e s = inr s

path-Inserted :
    (k : ℕ) (o : Object) (t : Tree) (p : Option Tree)
    → IsSplay t
    → IsSearch 0 max_key t
    → Put 0 max_key k o t p
    → Ends (Inserted t k o) (elim p [ none ↦ done (negsuc 0, t) | some u ↦ done (pos 0, u) ])
path-Inserted k o t _ v s (present there) =
    ends (v, (λ z. absurd (there (sym (get-lookup 0 max_key t k s) ∙ z))), λ _. (refl, refl))
path-Inserted k o t _ v s (grown u g) = ends (
  search-IsSplay u g.some_node g.search,
  (λ _. (
    refl,
    λ q.
        get-lookup 0 max_key u q g.search
        ∙ g.same q
        ∙ ap (λ z. if k == q then o else z) (sym (get-lookup 0 max_key t q s)),
  )),
  λ there. absurd (there (get-lookup 0 max_key t k s ∙ g.absent)),
)

first_Inserted :
    (k' : ℕ) (o' : Object) (l r : Tree) (k : ℕ) (o : Object)
    → o' ≡ null
    → k < max_key
    → o ≢ null
    → Inserted (node k' o' l r) k o (pos 0, node k o nil nil)
unfolding lookup
first_Inserted k' o' l r k o e small some_new = (
  inr (omega arith, small, some_new, tt, tt),
  (λ _. (
    refl,
    λ q.
        let before = get-empty k' o' l r q e in
        let after = ==-false o null some_new in rw (after, before) (ground arith),
  )),
  λ there. absurd (there (get-empty k' o' l r k e)),
)

-- insert of spla_tree.c, with a key that is an int, an object that is not NULL and a node for the
-- leaf, in a tree that is empty or in order with distinct keys, ends without undefined behaviour
-- in a tree in order. Where the key has no object it answers 0 and the key has the new object,
-- every other key the one it had; where the key has one it answers -1 and leaves the tree.
pub insert-Inserted_splay :
    (t : Tree) (k : ℕ) (o : Object)
    → IsSplay t
    → k < max_key
    → o ≢ null
    → Ends (Inserted t k o) (insert true k o t)
unfolding insert lookup
insert-Inserted_splay nil k o v small some_new = absurd v
insert-Inserted_splay (node k' o' l r) k o (inl e) small some_new =
    rw (==-true o' null e) (ends (first_Inserted k' o' l r k o e small some_new))
insert-Inserted_splay (node k' o' l r) k o (inr s) small some_new =
    let none_empty = ==-false o' null s.2 in
    let t : Tree = node k' o' l r in
    let step =
      path-Inserted k o t (insert_path k o t) (inr s) s
        (insert_path-Put k o some_new 0 max_key t s (omega arith) small) in
    rw none_empty step
