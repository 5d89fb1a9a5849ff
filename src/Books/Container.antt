-- ===== src/Books/Container.antt =====
-- src/bin/books/advanced_data_structures/ch1: stacks and queues. What they have in common: items
-- go in, come out in an order that the container keeps, and a caller sees the answers only.
pub mod Client
pub mod Items
pub mod Fixed
pub mod Circular
pub mod Blocks
pub mod Shadow
pub mod Runs
use c_lang_project.Common.Int.{negsuc, ℤ, pos}
use c_lang_project.Common.{◌++◌, Bool, List, [], false, if◌then◌else◌, length, true, ℕ, ◌∷◌, ◌≡◌}
use c_lang_project.Lang.Result.{◌>>=◌, Ends, Result, done, undefined}

-- A call, and what it returns.
pub data Call : Type 0 where
  add : ℕ → Call
  remove : Call
  first : Call
  is_empty : Call

pub data Answer : Type 0 where
  code : ℤ → Answer
  item : ℕ → Answer
  test : Bool → Answer

abbrev pub is_nil : List ℕ → Bool
is_nil [] = true
is_nil (x ∷ xs) = false

-- The operations of a container and their laws. `Holds s xs`: the container `s` holds the items
-- `xs`, the next one to come out first. `place` is where a new item goes, and `takes n` whether
-- there is room for one besides `n` items.
pub record Container : Type 1 where
  pub State : Type 0
  pub add : ℕ → State → Result (ℤ × State)
  pub remove : State → Result (ℕ × State)
  pub first : State → Result ℕ
  pub empty : State → Bool
  pub place : ℕ → List ℕ → List ℕ
  pub takes : ℕ → Bool
  pub Holds : State → List ℕ → Type 0
  pub add_law :
      (x : ℕ) (s : State) (xs : List ℕ)
      → Holds s xs
      → takes (length xs) ≡ true
      → Ends (λ p. (p.0 ≡ pos 0) × Holds p.1 (place x xs)) (add x s)
  pub full_law :
      (x : ℕ) (s : State) (xs : List ℕ)
      → Holds s xs
      → takes (length xs) ≡ false
      → Ends (λ p. (p.0 ≡ negsuc 0) × Holds p.1 xs) (add x s)
  pub remove_law :
      (s : State) (x : ℕ) (xs : List ℕ)
      → Holds s (x ∷ xs)
      → Ends (λ p. (p.0 ≡ x) × Holds p.1 xs) (remove s)
  pub first_law : (s : State) (x : ℕ) (xs : List ℕ) → Holds s (x ∷ xs) → first s ≡ done x
  pub empty_law : (s : State) (xs : List ℕ) → Holds s xs → empty s ≡ is_nil xs

-- A new item of a stack, and of a queue.
abbrev pub on_top : ℕ → List ℕ → List ℕ
on_top x xs = x ∷ xs

abbrev pub at_end : ℕ → List ℕ → List ℕ
at_end x xs = xs ++ x ∷ []

-- A list that answers like a container with `place` and `takes`. To remove the first item of none
-- is undefined.
abbrev pub list_call : (ℕ → List ℕ → List ℕ) → (ℕ → Bool) → Call → List ℕ → Result (Answer × List ℕ)
list_call place takes (add x) xs =
    if takes (length xs) then done (code (pos 0), place x xs) else done (code (negsuc 0), xs)
list_call place takes remove [] = undefined
list_call place takes remove (x ∷ xs) = done (item x, xs)
list_call place takes first [] = undefined
list_call place takes first (x ∷ xs) = done (item x, x ∷ xs)
list_call place takes is_empty xs = done (test (is_nil xs), xs)

-- The answers to calls, one after the other.
unfoldable pub list_run :
    (ℕ → List ℕ → List ℕ) → (ℕ → Bool) → List Call → List ℕ → Result (List Answer)
list_run place takes [] xs = done []
list_run place takes (c ∷ cs) xs = do
  (a, ys) ← list_call place takes c xs
  rest ← list_run place takes cs ys
  done (a ∷ rest)

module _ (c : Container) where
  abbrev pub call : Call → c.State → Result (Answer × c.State)
  call (add x) s = c.add x s >>= λ p. done (code p.0, p.1)
  call remove s = c.remove s >>= λ p. done (item p.0, p.1)
  call first s = c.first s >>= λ x. done (item x, s)
  call is_empty s = done (test (c.empty s), s)

  unfoldable pub run : List Call → c.State → Result (List Answer)
  run [] s = done []
  run (k ∷ ks) s = do (a, s') ← call k s; rest ← run ks s'; done (a ∷ rest)
