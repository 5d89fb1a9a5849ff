-- ===== src/TinyC/Correct/Program.antt =====
-- The code of every statement does what it means, and so does a program that is generated and run.

use c_lang_project.TinyC.Correct.{emit_expr-some}
use c_lang_project.TinyC.Emit.Program.{c_prog-emit}
use c_lang_project.Common.Int.{ℤ}
use c_lang_project.TinyC.Correct.Jumps.{
  jmp-returns, jnz-leaves, jnz-returns, jz-enters, jz-skips, ipop-Steps,
}
use c_lang_project.TinyC.Outcome.{done}
use c_lang_project.TinyC.Emit.{back, byte, emit, emit_expr, over}
use c_lang_project.Lang.Array.{at}
use c_lang_project.TinyC.Correct.Branches.{
  Performs, test-Steps, if1-skip, if1-then, if2-else, if2-then,
}
use c_lang_project.TinyC.Code.{Object, jmp, jnz, jz, halt, ipop, object_size}
use c_lang_project.TinyC.Meaning.{
  IsShort, eval, IsSmall, Runs, alone, nothing, if1_then, if1_skip, if2_then, if2_else, while_more,
  while_end, do_more, do_end, both,
}
use c_lang_project.TinyC.Vm.{Globals, is_zero, machine, stack_size, execute, compile_and_run, zeros}
use c_lang_project.TinyC.Syntax.{Expr, Stmt, do_while, while, expr, seq, empty}
use c_lang_project.TinyC.Vm.Steps.{
  At, At-left, At-right, Steps, Steps-trans, At-whole, run-Steps, step-execute, stay,
}
use c_lang_project.Common.{
  ◌+◌, ◌++◌, [], arith, false, length, length-append, refl, true, ℕ, ◌∷◌, ◌≡◌, ◌≤◌, suc,
}

-- The loops, where the rest of the loop does what it means.
module _ (e : Expr) (s : Stmt) (gl gl1 gl2 gl3 : Globals) (v : ℤ) where
  while-more :
      IsShort (while e s)
      → eval e gl ≡ done (v, gl1)
      → is_zero v ≡ false
      → Performs s gl1 gl2
      → Performs (while e s) gl2 gl3
      → Performs (while e s) gl gl3
  unfolding emit
  while-more (l, near, _) r z perform again o p q h end room =
      let xs : Object = emit_expr e in
      let ys : Object = emit s in
      let k : ℕ = length xs + length ys + 2 in
      let tail : Object = byte jmp ∷ back k ∷ [] in
      let rest : Object = byte jz ∷ over (length ys + 2) ∷ (ys ++ tail) in
      let m : ℕ = p + length xs in
      let n : ℕ = m + 1 + 1 + length ys in
      let (tested, at) = test-Steps e o rest p gl v gl1 l h room r in
      let behind = At-right o (m + 1 + 1) n ys tail at.1.1 refl in
      let len = length-append xs rest in
      let len' = length-append ys tail in
      Steps-trans tested (
        Steps-trans
          (jz-enters o m (m + 1 + 1) (length ys + 2) v [] gl1 (at.0, (at.1.0, tt)) z (omega arith))
          (Steps-trans
            (perform o (m + 1 + 1) n (At-left o (m + 1 + 1) ys tail at.1.1) refl
              (omega (arith, room, len, len')))
            (Steps-trans (jmp-returns o n p k [] gl2 behind near (omega arith))
              (again o p q h end room))))

  while-end :
      IsShort (while e s)
      → eval e gl ≡ done (v, gl1)
      → is_zero v ≡ true
      → Performs (while e s) gl gl1
  unfolding emit
  while-end (l, near, _) r z o p q h end room =
      let xs : Object = emit_expr e in
      let ys : Object = emit s in
      let tail : Object = byte jmp ∷ back (length xs + length ys + 2) ∷ [] in
      let rest : Object = byte jz ∷ over (length ys + 2) ∷ (ys ++ tail) in
      let m : ℕ = p + length xs in
      let (tested, at) = test-Steps e o rest p gl v gl1 l h room r in
      Steps-trans tested (
        jz-skips o m q (length ys + 2) v [] gl1 (at.0, (at.1.0, tt))
          (omega (arith, near, emit_expr-some e)) z
          (omega (arith, end, length-append xs rest, length-append ys tail)))

  -- One turn of the loop, up to the jump behind the test.
  do-Steps :
      (o : Object) (p : ℕ)
      → IsShort (do_while s e)
      → Performs s gl gl1
      → eval e gl1 ≡ done (v, gl2)
      → At o p (emit (do_while s e))
      → length (emit (do_while s e)) ≤ stack_size
      → let n : ℕ = p + length (emit s) + length (emit_expr e) in
        Steps o (machine p [] gl) (machine n (v ∷ []) gl2)
        × At o n (byte jnz ∷ back (length (emit s) + length (emit_expr e)) ∷ [])
  unfolding emit
  do-Steps o p (_, l, _) perform r h room =
      let xs : Object = emit_expr e in
      let ys : Object = emit s in
      let tail : Object = byte jnz ∷ back (length ys + length xs) ∷ [] in
      let m : ℕ = p + length ys in
      let len = length-append ys (xs ++ tail) in
      let (tested, at) =
        test-Steps e o tail m gl1 v gl2 l (At-right o p m ys (xs ++ tail) h refl)
          (omega (arith, room, len)) r in
      (
        Steps-trans (perform o p m (At-left o p ys (xs ++ tail) h) refl (omega (arith, room, len)))
            tested,
        at,
      )

  do-more :
      IsShort (do_while s e)
      → Performs s gl gl1
      → eval e gl1 ≡ done (v, gl2)
      → is_zero v ≡ false
      → Performs (do_while s e) gl2 gl3
      → Performs (do_while s e) gl gl3
  do-more l perform r z again o p q h end room =
      let (turn, at) = do-Steps o p l perform r h room in
      Steps-trans turn (
        Steps-trans
          (jnz-returns o _ p (length (emit s) + length (emit_expr e)) v [] gl2 at l.2 z
            (omega arith))
          (again o p q h end room))

  do-end :
      IsShort (do_while s e)
      → Performs s gl gl1
      → eval e gl1 ≡ done (v, gl2)
      → is_zero v ≡ true
      → Performs (do_while s e) gl gl2
  unfolding emit
  do-end l perform r z o p q h end room =
      let xs : Object = emit_expr e in
      let ys : Object = emit s in
      let tail : Object = byte jnz ∷ back (length ys + length xs) ∷ [] in
      let (turn, at) = do-Steps o p l perform r h room in
      Steps-trans turn (
        jnz-leaves o _ q (length ys + length xs) v [] gl2 at z
          (omega (arith, end, length-append ys (xs ++ tail), length-append xs tail)))

nothing-Performs : (gl : Globals) → Performs empty gl gl
unfolding emit
nothing-Performs gl o p q h end room = let same : p ≡ q = omega (arith, end) in rw same stay

both-Performs :
    (s t : Stmt) (gl gl1 gl2 : Globals)
    → Performs s gl gl1
    → Performs t gl1 gl2
    → Performs (seq s t) gl gl2
unfolding emit
both-Performs s t gl gl1 gl2 ps pt o p q h end room =
    let xs : Object = emit s in
    let ys : Object = emit t in
    let len = length-append xs ys in
    Steps-trans (ps o p (p + length xs) (At-left o p xs ys h) refl (omega (arith, room, len))) (
      pt o (p + length xs) q (At-right o p (p + length xs) xs ys h refl) (omega (arith, end, len))
        (omega (arith, room, len)))

alone-Performs :
    (e : Expr) (gl gl1 : Globals) (v : ℤ)
    → IsSmall e
    → eval e gl ≡ done (v, gl1)
    → Performs (expr e) gl gl1
unfolding emit
alone-Performs e gl gl1 v l r o p q h end room =
    let xs : Object = emit_expr e in
    let (tested, at) = test-Steps e o (byte ipop ∷ []) p gl v gl1 l h room r in
    Steps-trans tested (
      ipop-Steps o (p + length xs) q v [] gl1 at
        (omega (arith, end, length-append xs (byte ipop ∷ []))))

-- The code of a statement does what the statement means.
Runs-Performs : {s : Stmt} {gl gl' : Globals} → Runs s gl gl' → IsShort s → Performs s gl gl'
Runs-Performs (if1_then {e} {s} {gl} {gl1} {gl2} {v} r z t) l =
    if1-then e gl gl1 v r s gl2 l z (Runs-Performs t l.2)
Runs-Performs (if1_skip {e} {s} {gl} {gl1} {v} r z) l = if1-skip e gl gl1 v r s l z
Runs-Performs (if2_then {e} {s} {t} {gl} {gl1} {gl2} {v} r z d) l =
    if2-then e gl gl1 v r s t gl2 l z (Runs-Performs d l.2)
Runs-Performs (if2_else {e} {s} {t} {gl} {gl1} {gl2} {v} r z d) l =
    if2-else e gl gl1 v r s t gl2 l z (Runs-Performs d l.4)
Runs-Performs (while_more {e} {s} {gl} {gl1} {gl2} {gl3} {v} r z t again) l =
    while-more e s gl gl1 gl2 gl3 v l r z (Runs-Performs t l.2) (Runs-Performs again l)
Runs-Performs (while_end {e} {s} {gl} {gl1} {v} r z) l = while-end e s gl gl1 gl1 gl1 v l r z
Runs-Performs (do_more {e} {s} {gl} {gl1} {gl2} {gl3} {v} t r z again) l =
    do-more e s gl gl1 gl2 gl3 v l (Runs-Performs t l.0) r z (Runs-Performs again l)
Runs-Performs (do_end {e} {s} {gl} {gl1} {gl2} {v} t r z) l =
    do-end e s gl gl1 gl2 gl2 v l (Runs-Performs t l.0) r z
Runs-Performs (nothing {gl}) l = nothing-Performs gl
Runs-Performs (both {s} {t} {gl} {gl1} {gl2} d d') l =
    both-Performs s t gl gl1 gl2 (Runs-Performs d l.0) (Runs-Performs d' l.1)
Runs-Performs (alone {e} {gl} {gl1} {v} r) l = alone-Performs e gl gl1 v l r

-- If a statement, by the meaning of the language, ends and turns the variables, all 0 at first,
-- into others, its code and HALT fit the 1000 cells of object, its variables are letters, its
-- constants are below 128 and the distance of each jump fits a cell, then there is a fuel from
-- which on generating its code and running the machine on it ends with just those variables.
pub compile_and_run-Runs :
    (s : Stmt) (gl : Globals)
    → IsShort s
    → length (emit s) + 1 ≤ object_size
    → Runs s zeros gl
    → (k : ℕ) × ((j : ℕ) → compile_and_run (k + j) s ≡ done gl)
unfolding compile_and_run execute
compile_and_run-Runs s gl l room t =
    let xs : Object = emit s in
    let o : Object = xs ++ byte halt ∷ [] in
    let whole : At o 0 (xs ++ byte halt ∷ []) = At-whole o in
    let last = At-right o 0 (length xs) xs (byte halt ∷ []) whole (omega arith) in
    let steps =
      Runs-Performs t l o 0 (length xs) (At-left o 0 xs (byte halt ∷ []) whole) (omega arith)
        (omega arith) in
    let (k, found) = run-Steps gl steps (step-execute o (length xs) halt [] gl last.0) in
    rw (c_prog-emit s room) (suc k, λ j. found (suc k + j) (omega arith))
