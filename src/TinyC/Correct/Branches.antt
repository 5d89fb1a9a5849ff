-- ===== src/TinyC/Correct/Branches.antt =====
-- The code of a statement with a test, provided that the code of its parts does what they mean.
use c_lang_project.Common.Int.{ℤ}
use c_lang_project.TinyC.Correct.Jumps.{jmp-skips, jz-enters, jz-skips}
use c_lang_project.TinyC.Correct.{emit_expr-Computes}
use c_lang_project.TinyC.Outcome.{done}
use c_lang_project.TinyC.Emit.{byte, emit, emit_expr, over}
use c_lang_project.Lang.Array.{at}
use c_lang_project.TinyC.Code.{Object, jmp, jz}
use c_lang_project.TinyC.Meaning.{IsShort, IsSmall, eval}
use c_lang_project.TinyC.Vm.{Globals, is_zero, machine, stack_size}
use c_lang_project.TinyC.Syntax.{Expr, Stmt, if1, if2}
use c_lang_project.TinyC.Vm.Steps.{At, At-left, At-right, Steps, Steps-trans}
use c_lang_project.Common.{
  ◌+◌, ◌++◌, [], arith, false, length, length-append, refl, true, ℕ, ◌∷◌, ◌≡◌, ◌≤◌,
}

-- From wherever its code stands, the machine ends behind it, with the variables changed.
abbrev pub Performs : Stmt → Globals → Globals → Type 0
Performs s gl gl' =
    (o : Object) (p q : ℕ)
    → At o p (emit s)
    → q ≡ p + length (emit s)
    → length (emit s) ≤ stack_size
    → Steps o (machine p [] gl) (machine q [] gl')

-- The machine evaluates the test, and goes on with the code behind it.
pub test-Steps :
    (e : Expr) (o rest : Object) (p : ℕ) (gl : Globals) (v : ℤ) (gl1 : Globals)
    → IsSmall e
    → At o p (emit_expr e ++ rest)
    → length (emit_expr e ++ rest) ≤ stack_size
    → eval e gl ≡ done (v, gl1)
    → Steps o (machine p [] gl) (machine (p + length (emit_expr e)) (v ∷ []) gl1)
      × At o (p + length (emit_expr e)) rest
test-Steps e o rest p gl v gl1 l h room r = (
  emit_expr-Computes e l o p (p + length (emit_expr e)) [] gl v gl1
      (At-left o p (emit_expr e) rest h) refl (omega (arith, length-append (emit_expr e) rest)) r,
  At-right o p (p + length (emit_expr e)) (emit_expr e) rest h refl,
)

module _ (e : Expr) (gl gl1 : Globals) (v : ℤ) (r : eval e gl ≡ done (v, gl1)) where
  pub if1-then :
      (s : Stmt) (gl2 : Globals)
      → IsShort (if1 e s)
      → is_zero v ≡ false
      → Performs s gl1 gl2
      → Performs (if1 e s) gl gl2
  unfolding emit
  if1-then s gl2 (l, _, _) z perform o p q h end room =
      let xs : Object = emit_expr e in
      let ys : Object = emit s in
      let rest : Object = byte jz ∷ over (length ys) ∷ ys in
      let m : ℕ = p + length xs in
      let (tested, at) = test-Steps e o rest p gl v gl1 l h room r in
      let len = length-append xs rest in
      Steps-trans tested (
        Steps-trans
          (jz-enters o m (m + 1 + 1) (length ys) v [] gl1 (at.0, (at.1.0, tt)) z (omega arith))
          (perform o (m + 1 + 1) q at.1.1 (omega (arith, end, len)) (omega (arith, room, len))))

  pub if1-skip : (s : Stmt) → IsShort (if1 e s) → is_zero v ≡ true → Performs (if1 e s) gl gl1
  unfolding emit
  if1-skip s (l, near, _) z o p q h end room =
      let xs : Object = emit_expr e in
      let ys : Object = emit s in
      let rest : Object = byte jz ∷ over (length ys) ∷ ys in
      let m : ℕ = p + length xs in
      let (tested, at) = test-Steps e o rest p gl v gl1 l h room r in
      Steps-trans tested (
        jz-skips o m q (length ys) v [] gl1 (at.0, (at.1.0, tt)) near z
          (omega (arith, end, length-append xs rest)))

  pub if2-then :
      (s t : Stmt) (gl2 : Globals)
      → IsShort (if2 e s t)
      → is_zero v ≡ false
      → Performs s gl1 gl2
      → Performs (if2 e s t) gl gl2
  unfolding emit
  if2-then s t gl2 (l, _, _, near, _) z perform o p q h end room =
      let xs : Object = emit_expr e in
      let ys : Object = emit s in
      let zs : Object = emit t in
      let tail : Object = byte jmp ∷ over (length zs) ∷ zs in
      let rest : Object = byte jz ∷ over (length ys + 2) ∷ (ys ++ tail) in
      let m : ℕ = p + length xs in
      let n : ℕ = m + 1 + 1 + length ys in
      let (tested, at) = test-Steps e o rest p gl v gl1 l h room r in
      let behind = At-right o (m + 1 + 1) n ys tail at.1.1 refl in
      let len = length-append xs rest in
      let len' = length-append ys tail in
      Steps-trans tested (
        Steps-trans
          (jz-enters o m (m + 1 + 1) (length ys + 2) v [] gl1 (at.0, (at.1.0, tt)) z (omega arith))
          (Steps-trans
            (perform o (m + 1 + 1) n (At-left o (m + 1 + 1) ys tail at.1.1) refl
              (omega (arith, room, len, len')))
            (jmp-skips o n q (length zs) [] gl2 (behind.0, (behind.1.0, tt)) near
              (omega (arith, end, len, len')))))

  pub if2-else :
      (s t : Stmt) (gl2 : Globals)
      → IsShort (if2 e s t)
      → is_zero v ≡ true
      → Performs t gl1 gl2
      → Performs (if2 e s t) gl gl2
  unfolding emit
  if2-else s t gl2 (l, near, _, _, _) z perform o p q h end room =
      let xs : Object = emit_expr e in
      let ys : Object = emit s in
      let zs : Object = emit t in
      let tail : Object = byte jmp ∷ over (length zs) ∷ zs in
      let rest : Object = byte jz ∷ over (length ys + 2) ∷ (ys ++ tail) in
      let m : ℕ = p + length xs in
      let n : ℕ = m + 1 + 1 + length ys in
      let (tested, at) = test-Steps e o rest p gl v gl1 l h room r in
      let behind = At-right o (m + 1 + 1) n ys tail at.1.1 refl in
      let len = length-append xs rest in
      let len' = length-append ys tail in
      Steps-trans tested (
        Steps-trans
          (jz-skips o m (n + 1 + 1) (length ys + 2) v [] gl1 (at.0, (at.1.0, tt)) (omega arith) z
            (omega arith))
          (perform o (n + 1 + 1) q behind.1.1 (omega (arith, end, len, len'))
            (omega (arith, room, len, len'))))
