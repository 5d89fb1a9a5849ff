-- ===== src/Books/Examples/Containers.antt =====
-- The stacks and queues of ch1 at small inputs.
use c_lang_project.Books.Container.Shadow.{Stack, pop, push}
use c_lang_project.Common.Int.{negsuc, pos}
use c_lang_project.Books.Container.Circular.{circular, create_queue}
use c_lang_project.Books.Container.Runs.{circular-run-list_run}
use c_lang_project.Lang.Array.{at}
use c_lang_project.Common.{List, [], arith, false, none, refl, some, suc, zero, ℕ, ◌∷◌, ◌≡◌}
use c_lang_project.Lang.Result.{Ends, done, undefined}
use c_lang_project.Books.Container.{
  Answer, Call, add, code, first, is_empty, item, list_run, remove, run, test,
}
use c_lang_project.Books.Container.Circular
use c_lang_project.Books.Container.Shadow
use c_lang_project.Books.Container.Shadow.Copy.{IsStack, is_stack, idle}
use c_lang_project.Books.Container.Shadow.Laws.{shadow_push-IsStack, pop_last-undefined}

abbrev fresh : ℕ → List ℕ
fresh zero = []
fresh (suc n) = 0 ∷ fresh n

-- Three items, and what follows.
abbrev calls : List Call
calls = add 5 ∷ add 6 ∷ add 7 ∷ first ∷ remove ∷ is_empty ∷ []

-- Two of the four cells stay free.
abbrev circular_answers : List Answer
circular_answers = code (pos 0) ∷ code (pos 0) ∷ code (negsuc 0) ∷ item 5 ∷ item 5 ∷ test false ∷ []

circular-run-list_run_example :
    run (Circular.circular 4) calls (Circular.create_queue (1 ∷ 2 ∷ 3 ∷ 4 ∷ []) 4)
    ≡ done circular_answers
unfolding list_run
circular-run-list_run_example =
    circular-run-list_run calls circular_answers 4 (1 ∷ 2 ∷ 3 ∷ 4 ∷ []) refl (omega arith)
      (omega arith) refl

abbrev blocks_answers : List Answer
blocks_answers = code (pos 0) ∷ code (pos 0) ∷ code (pos 0) ∷ item 7 ∷ item 7 ∷ test false ∷ []

-- The copy of a stack of eight cells begins with the sixth item.
abbrev five : Shadow.Stack
five = record {
  base = some (1 ∷ 2 ∷ 3 ∷ 4 ∷ 5 ∷ 0 ∷ 0 ∷ 0 ∷ []);
  size = 5;
  max_size = 8;
  copy = none;
  copy_size = 0;
}

abbrev five-IsStack : IsStack five (5 ∷ 4 ∷ 3 ∷ 2 ∷ 1 ∷ [])
unfolding at
five-IsStack =
    is_stack (1 ∷ 2 ∷ 3 ∷ 4 ∷ 5 ∷ 0 ∷ 0 ∷ 0 ∷ []) refl refl refl
      (refl, (refl, (refl, (refl, (refl, tt))))) (idle refl refl (omega arith))

shadow_push-IsStack_example :
    Ends (λ s. IsStack s (6 ∷ 5 ∷ 4 ∷ 3 ∷ 2 ∷ 1 ∷ [])) (Shadow.push fresh 6 five)
shadow_push-IsStack_example =
    shadow_push-IsStack fresh 6 five (5 ∷ 4 ∷ 3 ∷ 2 ∷ 1 ∷ []) five-IsStack
      (record { given = refl; small = omega arith })

abbrev single : Shadow.Stack
single = record { base = some (7 ∷ 0 ∷ []); size = 1; max_size = 2; copy = none; copy_size = 0 }

pop_last-undefined_example :
    Ends (λ p. (p.0 ≡ 7) × (Shadow.push fresh 3 p.1 ≡ undefined)) (Shadow.pop single)
unfolding at
pop_last-undefined_example =
    pop_last-undefined fresh 3 single 7
      (is_stack (7 ∷ 0 ∷ []) refl refl refl (refl, tt) (idle refl refl (omega arith))) (omega arith)
