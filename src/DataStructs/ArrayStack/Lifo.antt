-- ===== src/DataStructs/ArrayStack/Lifo.antt =====
-- The stack of src/libs/data_structs/array_stack.c is last in, first out, also where it grows.

use c_lang_project.TinyC.Code.{g}
use c_lang_project.Lang.Array.Access.{store_at-ok}
use c_lang_project.Lang.Array.{load_at, store_at}
use c_lang_project.Lang.Memory.{memory_failed}
use c_lang_project.DataStructs.ListRep.{Object}
use c_lang_project.Common.{
  ◌%◌, ◌+◌, ◌++◌, ◌-◌, ◌<◌, ◌==◌, Bool-cases, List, Option, [], ◌^◌, arith, false, get_elem?,
  get_elem?-append, get_elem?-lt, get_elem?-set_ne, get_elem?-set_self, inl, inr, length,
  length-append, length-set, lt→ltb, none, refl, set, some, suc, take-length, true, zero, ℕ, ◌∙◌,
  ◌∷◌, ◌≡◌, ◌≤◌,
}
use c_lang_project.Lang.Result.{◌>>=◌, Ends, Ends-bind, Ends-mono, done, ends, raise}
use c_lang_project.DataStructs.ArrayStack.{
  destroy_loop, destroy, free_data, is_empty, push, pop, peel, grow, Stack, new, resize_step,
}
use c_lang_project.DataStructs.List.Walk.{fold}

-- The cells of `a` hold `xs`, whose last datum lies in cell 0.
abbrev pub Holds : List Object → List Object → Type 0
Holds a [] = Unit
Holds a (d ∷ xs) = (get_elem? a (length xs) ≡ some d) × Holds a xs

-- The stack holds `xs`, from the top down, in a block of its size.
pub record IsStack (st : Stack) (xs : List Object) : Type 0 where
  pub whole : length st.storage ≡ st.size
  pub fits : st.top ≤ st.size
  pub counted : st.top ≡ length xs
  pub holds : Holds st.storage xs

-- What `realloc` adds behind the old cells, and no overflow of `size`.
pub record CanGrow (st : Stack) (more : List Object) : Type 0 where
  pub added : length more ≡ resize_step
  pub small : st.size + resize_step < 2 ^ 32

Holds-set :
    (a xs : List Object) (i : ℕ) (d : Object) → length xs ≤ i → Holds a xs → Holds (set a i d) xs
Holds-set a [] i d le h = tt
Holds-set a (x ∷ xs) i d le (e, h) =
    (get_elem?-set_ne a i (length xs) d (omega arith) ∙ e, Holds-set a xs i d (omega arith) h)

Holds-append : (a b xs : List Object) → Holds a xs → Holds (a ++ b) xs
Holds-append a b [] h = tt
Holds-append a b (x ∷ xs) (e, h) =
    (get_elem?-append a b (length xs) (get_elem?-lt a (length xs) x e) ∙ e, Holds-append a b xs h)

-- `Stack_new` with a positive size is an empty stack.
pub new-IsStack :
    (b : List Object) (n : ℕ)
    → 0 < n
    → length b ≡ n
    → Ends (λ st. IsStack st [] × (is_empty st ≡ true)) (new (some b) n)
unfolding new is_empty
new-IsStack b n some_room whole =
    rw (lt→ltb 0 n some_room)
      (ends (record { whole = whole; fits = omega arith; counted = refl; holds = tt }, refl))

-- A write into a free cell.
store-IsStack :
    (st : Stack) (d : Object) (xs : List Object)
    → IsStack st xs
    → st.top < st.size
    → Ends
        (λ st'. IsStack st' (d ∷ xs))
        (store_at st.storage st.top d >>= λ a. done (record st { storage = a; top = st.top + 1 }))
store-IsStack st d xs v room =
    let inside : st.top < length st.storage = omega (arith, v.whole) in
    rw (store_at-ok st.storage st.top d inside) (
      ends (record {
        whole = length-set st.storage st.top d ∙ v.whole;
        fits = omega arith;
        counted = omega (arith, v.counted);
        holds = (
          rw v.counted (get_elem?-set_self st.storage (length xs) d (omega (arith, v.counted))),
          Holds-set st.storage xs st.top d (omega (arith, v.counted)) v.holds,
        );
      }))

grow-IsStack :
    (st : Stack) (xs more : List Object)
    → IsStack st xs
    → CanGrow st more
    → st.top ≡ st.size
    → Ends (λ st'. IsStack st' xs × (st'.top < st'.size)) (grow (some more) st)
unfolding grow
grow-IsStack st xs more v g full =
    let n : (st.size + resize_step) % 2 ^ 32 ≡ st.size + resize_step = omega (arith, g.small) in
    let len : length (st.storage ++ more) ≡ st.size + resize_step =
      omega (arith, length-append st.storage more, v.whole, g.added) in
    rw (n, take-length (st.storage ++ more) (st.size + resize_step) len)
      (ends (
        record {
          whole = len;
          fits = omega arith;
          counted = omega (arith, v.counted);
          holds = Holds-append st.storage more xs v.holds;
        },
        omega arith,
      ))

-- `Stack_push` puts the data on top, with room for `resize_step` more where the block is full.
pub push-cons_array :
    (more : List Object) (st : Stack) (d : Object) (xs : List Object)
    → IsStack st xs
    → CanGrow st more
    → Ends (λ st'. IsStack st' (d ∷ xs)) (push (some more) st d)
unfolding push
push-cons_array more st d xs v g = elim (Bool-cases (st.top == st.size)) [
  | inl full ↦ rw full (
      Ends-bind (grow-IsStack st xs more v g (ground arith))
        λ st' (v', room). store-IsStack st' d xs v' room)
  | inr free ↦ rw free (store-IsStack st d xs v (ground (arith, v.fits)))
]

-- If there is room, `realloc` is not called; if there is none and it fails, the exception is
-- raised.
pub push-full : (st : Stack) (d : Object) → st.top ≡ st.size → push none st d ≡ raise memory_failed
unfolding push grow
push-full st d full = ground arith

-- `Stack_pop` hands out the data on top.
pub pop-cons_array :
    (st : Stack) (d : Object) (xs : List Object)
    → IsStack st (d ∷ xs)
    → Ends (λ (out, st'). (out ≡ some d) × IsStack st' xs × (st'.size ≡ st.size)) (pop st)
unfolding pop is_empty load_at
pop-cons_array st d xs v =
    let some_left : (st.top == 0) ≡ false = ground (arith, v.counted) in
    let last : st.top - 1 ≡ length xs = omega (arith, v.counted) in
    rw (some_left, last, v.holds.0)
      (ends (
        refl,
        record { whole = v.whole; fits = omega (arith, v.fits); counted = refl; holds = v.holds.1 },
        refl,
      ))

-- On an empty stack `Stack_pop` says so and changes nothing.
pub pop-nil_array : (st : Stack) → IsStack st [] → pop st ≡ done (none, st)
unfolding pop is_empty
pop-nil_array st v = rw v.counted

-- With realloc succeeding and no overflow of the size, Stack_pop after Stack_push, which may have
-- to grow the block, hands out the datum pushed and leaves the stack with the data as before.
pub pop-push_array :
    (more : List Object) (st : Stack) (d : Object) (xs : List Object)
    → IsStack st xs
    → CanGrow st more
    → Ends (λ (out, st'). (out ≡ some d) × IsStack st' xs) (push (some more) st d >>= pop)
pop-push_array more st d xs v g =
    Ends-bind (push-cons_array more st d xs v g)
      λ st' v'. Ends-mono (pop-cons_array st' d xs v') λ r (out, v'', same). (out, v'')

-- With realloc succeeding and no overflow of the size, Stack_peel on a stack that is not empty
-- hands out the datum on top and leaves the data as before.
pub peel-cons_array :
    (more : List Object) (st : Stack) (d : Object) (xs : List Object)
    → IsStack st (d ∷ xs)
    → CanGrow st more
    → Ends (λ (out, st'). (out ≡ some d) × IsStack st' (d ∷ xs)) (peel (some more) st)
unfolding peel
peel-cons_array more st d xs v g =
    Ends-bind (pop-cons_array st d xs v) λ (out, st') (got, v', same). rw got (
      Ends-bind
        (push-cons_array more st' d xs v'
          (record { added = g.added; small = omega (arith, g.small) }))
        λ st'' v''. ends (refl, v''))

module _ {S : Type 0} (release : Object → S → S) (free : Option (Object → S → S)) where
  destroy_loop-fold :
      (k : ℕ) (st : Stack) (xs : List Object) (s : S)
      → IsStack st xs
      → length xs < k
      → Ends (λ s'. s' ≡ fold xs (free_data release free) s) (destroy_loop k st release free s)
  unfolding destroy_loop
  destroy_loop-fold zero st xs s v f = absurd (omega arith)
  destroy_loop-fold (suc k) st [] s v f = rw (pop-nil_array st v) (ends refl)
  destroy_loop-fold (suc k) st (d ∷ xs) s v f =
      Ends-bind (pop-cons_array st d xs v) λ (out, st') (got, v', same).
        rw got (destroy_loop-fold k st' xs (free_data release free d s) v' (omega arith))

  -- Stack_destroy ends, and has handed every datum to the free function, from the top down.
  pub destroy-fold :
      (st : Stack) (xs : List Object) (s : S)
      → IsStack st xs
      → Ends (λ s'. s' ≡ fold xs (free_data release free) s) (destroy st release free s)
  unfolding destroy is_empty
  destroy-fold st [] s v = rw v.counted (ends refl)
  destroy-fold st (d ∷ xs) s v =
      let some_left : (st.top == 0) ≡ false = ground (arith, v.counted) in
      rw some_left (destroy_loop-fold (st.top + 1) st (d ∷ xs) s v (omega (arith, v.counted)))
