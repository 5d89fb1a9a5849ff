-- ===== src/DataStructs/ListStack/Lifo.antt =====
-- The stack of src/libs/data_structs/list_stack.c is last in, first out.

use c_lang_project.DataStructs.List.{free_data}
use c_lang_project.DataStructs.List.Insert.{insert-cons}
use c_lang_project.DataStructs.ListStack.{new, is_empty, destroy}
use c_lang_project.DataStructs.List.Delete.{delete_head-cons}
use c_lang_project.DataStructs.List.Walk.{Without, fold, destroy-Without}
use c_lang_project.Lang.Returns.{Returns, Returns-bind, Returns-mono, returns}
use c_lang_project.DataStructs.ListRep.{Node, Object}
use c_lang_project.DataStructs.ListStack.{LStack, peel, pop, push}
use c_lang_project.Lang.Memory.{Heap, Ptr, and_then, null, ok}
use c_lang_project.DataStructs.ListRep.Chain.{Cells, IsList, SameOutside, objects, not-has_of_none}
use c_lang_project.Common.{
  ◌<◌, ◌==◌, Option, [], arith, false, length, none, refl, some, suc, true, ℕ, ◌∷◌, ◌≡◌, ◌≢◌, ◌⊎◌,
  inl, inr, ◌∙◌,
}
use c_lang_project.DataStructs.List

-- The nodes `xs` from the top down, and their number.
pub record IsLStack (h : Heap Node) (st : LStack) (xs : Cells) : Type 0 where
  pub items : IsList h st.storage xs
  pub counted : st.count ≡ length xs

-- `LStack_new` is an empty stack.
pub new-IsLStack :
    (h : Heap Node) (fresh : Ptr)
    → fresh ≢ null
    → Returns (λ st g. IsLStack g st [] × (g ≡ h) × (is_empty st ≡ true)) (new fresh h)
unfolding new is_empty List.new
new-IsLStack h fresh ne =
    let there : (fresh == null) ≡ false = ground arith in
    rw there
      (returns (record { items = record { start = refl; chain = tt }; counted = refl }, refl, refl))

-- `LStack_push` adds a node on top.
pub push-cons :
    (h : Heap Node) (fresh : Ptr) (st : LStack) (d : Object) (xs : Cells)
    → IsLStack h st xs
    → fresh ≢ null
    → h fresh ≡ none
    → Returns
        (λ st' g. IsLStack g st' ((fresh, d) ∷ xs) × SameOutside ((fresh, d) ∷ []) h g)
        (push fresh st d h)
unfolding push
push-cons h fresh st d xs v ne unused =
    Returns-bind (insert-cons h fresh st.storage d xs v.items ne unused)
      λ p g (l, same). returns (record { items = l; counted = omega (arith, v.counted) }, same)

abbrev pub Popped : Heap Node → Ptr × Object → Cells → Option Object × LStack → Heap Node → Type 0
Popped h (p, d) xs (out, st) g =
    (out ≡ some d) × IsLStack g st xs × SameOutside ((p, d) ∷ xs) h g × (g p ≡ none)

-- `LStack_pop` hands out the data on top and frees its node.
pub pop-cons :
    (k : ℕ) (h : Heap Node) (st : LStack) (p : Ptr) (d : Object) (xs : Cells)
    → IsLStack h st ((p, d) ∷ xs)
    → suc (length xs) < k
    → Returns (Popped h (p, d) xs) (pop k st h)
unfolding pop
pop-cons k h st p d xs v f =
    let some_left : (st.count == 0) ≡ false = ground (arith, v.counted) in
    rw some_left (
      Returns-bind (delete_head-cons k h st.storage p d xs v.items f) λ r g (out, l, same, freed).
        returns (out, record { items = l; counted = omega (arith, v.counted) }, same, freed))

-- On an empty stack `LStack_pop` says so and changes nothing.
pub pop-nil :
    (k : ℕ) (h : Heap Node) (st : LStack) → IsLStack h st [] → pop k st h ≡ ok (none, st) h
unfolding pop
pop-nil k h st v = rw v.counted

-- With malloc succeeding and fuel above the number of nodes, LStack_pop after LStack_push hands
-- out the datum pushed, leaves the stack with its nodes as before, and frees the node that the
-- push allocated.
pub pop-push :
    (k : ℕ) (h : Heap Node) (fresh : Ptr) (st : LStack) (d : Object) (xs : Cells)
    → IsLStack h st xs
    → fresh ≢ null
    → h fresh ≡ none
    → suc (length xs) < k
    → Returns
        (λ (out, st') g. (out ≡ some d) × IsLStack g st' xs × (g fresh ≡ none))
        (and_then (push fresh st d h) (pop k))
pop-push k h fresh st d xs v ne unused f =
    Returns-bind (push-cons h fresh st d xs v ne unused) λ st' g (v', same).
      Returns-mono (pop-cons k g st' fresh d xs v' f)
        λ r g' (out, v'', same', freed). (out, v'', freed)

-- With malloc succeeding, at the address just freed or another, and fuel above the number of
-- nodes, LStack_peel on a stack that is not empty hands out the datum on top and leaves the same
-- data, with a new node on top, which may be the one just freed.
pub peel-cons :
    (k : ℕ) (h : Heap Node) (fresh : Ptr) (st : LStack) (p : Ptr) (d : Object) (xs : Cells)
    → IsLStack h st ((p, d) ∷ xs)
    → fresh ≢ null
    → (fresh ≡ p) ⊎ (h fresh ≡ none)
    → suc (length xs) < k
    → Returns
        (λ (out, st') g. (out ≡ some d) × IsLStack g st' ((fresh, d) ∷ xs))
        (peel k fresh st h)
unfolding peel
peel-cons k h fresh st p d xs v ne unused f =
    Returns-bind (pop-cons k h st p d xs v f) λ (out, st') g (got, v', same, freed).
      let free_now : g fresh ≡ none = spared g same freed unused in
      rw got (
        Returns-bind (push-cons g fresh st' d xs v' ne free_now)
          λ st'' g' (v'', same'). returns (refl, v''))
  where
    spared :
        (g : Heap Node)
        → SameOutside ((p, d) ∷ xs) h g
        → g p ≡ none
        → (fresh ≡ p) ⊎ (h fresh ≡ none)
        → g fresh ≡ none
    spared g same freed (inl e) = rw e freed
    spared g same freed (inr u) =
        same fresh (not-has_of_none h null ((p, d) ∷ xs) fresh v.items.chain u) ∙ u

-- With fuel above the number of nodes, LStack_destroy frees every node of the stack, touches no
-- other, and hands the data to the free function from the top down.
pub destroy-Without_stack :
    {S : Type 0} (k : ℕ) (h : Heap Node) (st : LStack) (xs : Cells) (free : Option (Object → S → S))
    (s : S)
    → IsLStack h st xs
    → length xs < k
    → Returns
        (λ s' g. (s' ≡ fold (objects xs) (free_data free) s) × Without xs h g)
        (destroy k st free s h)
unfolding destroy is_empty
destroy-Without_stack k h st [] free s v f = rw v.counted (returns (refl, λ a. refl))
destroy-Without_stack k h st (x ∷ xs) free s v f =
    let some_left : (st.count == 0) ≡ false = ground (arith, v.counted) in
    rw some_left (List.Walk.destroy-Without k h st.storage (x ∷ xs) free s v.items f)
