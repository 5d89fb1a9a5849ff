-- ===== src/TinyC/Emit/Program.antt =====
-- `c` and `c(program())` of tinyc.c write the code that `emit` describes.
use c_lang_project.TinyC.Outcome.{done}
use c_lang_project.TinyC.Emit.Jumps.{
  arms, arms-Writes, body, body-Writes, fill_back, jump_over, jump_over-Writes,
}
use c_lang_project.TinyC.Emit.{
  Writes, Writes-then, back, byte, c_expr-emit, emit, emit_expr, g-Writes, hole-ok, over,
  append_assoc, append-nil,
}
use c_lang_project.TinyC.Syntax.{Stmt, do_while, empty, expr, if1, if2, seq, while}
use c_lang_project.TinyC.Code.{Object, c, c_prog, halt, ipop, jmp, jnz, jz, object_size, opcode}
use c_lang_project.Common.{◌+◌, ◌++◌, [], ap, arith, length, length-append, ℕ, ◌∙◌, ◌∷◌, ◌≡◌, ◌≤◌}

-- The generator, at a statement.
pub c-emit : (s : Stmt) → Writes (c s) (emit s)
unfolding c emit jump_over arms body
c-emit (if1 e s) o h =
    Writes-then _ _ _ (byte jz ∷ over (length (emit s)) ∷ emit s) (c_expr-emit e)
      (Writes-then _ (jump_over (c s)) (byte jz ∷ []) _ (g-Writes (opcode jz))
        (jump_over-Writes _ _ (c-emit s)))
      o h
c-emit (if2 e s t) o h =
    Writes-then _ _ _ _ (c_expr-emit e)
      (Writes-then _ (arms s t) (byte jz ∷ []) _ (g-Writes (opcode jz))
        (arms-Writes s t _ _ (c-emit s) (c-emit t)))
      o h
c-emit (while e s) o h =
    let xs : Object = emit_expr e in
    let ys : Object = emit s in
    let n : ℕ = length xs + length ys + 2 in
    let o1 : Object = o ++ xs in
    let o2 : Object = o1 ++ byte jz ∷ [] in
    let room = length-append xs (byte jz ∷ over (length ys + 2) ∷ (ys ++ byte jmp ∷ back n ∷ [])) in
    let room' = length-append ys (byte jmp ∷ back n ∷ []) in
    let size : length o1 ≡ length o + length xs = length-append o xs in
    let size' : length o2 ≡ length o + length xs + 1 =
      omega (arith, length-append o1 (byte jz ∷ []), size) in
    rw
      (
        c_expr-emit e o (omega (arith, room, room')),
        g-Writes (opcode jz) o1 (omega (arith, room, room', size)),
      )
      (body-Writes (length o) n s ys o2 (c-emit s) (omega (arith, size'))
          (omega (arith, size', room, room'))
        ∙ ap done (append_assoc o1 (byte jz ∷ []) _ ∙ append_assoc o xs _))
c-emit (do_while s e) o h =
    let xs : Object = emit_expr e in
    let ys : Object = emit s in
    let n : ℕ = length ys + length xs in
    let o1 : Object = o ++ ys in
    let o2 : Object = o1 ++ xs in
    let q : Object = o2 ++ byte jnz ∷ [] in
    let room = length-append ys (xs ++ byte jnz ∷ back n ∷ []) in
    let room' = length-append xs (byte jnz ∷ back n ∷ []) in
    let size1 : length o1 ≡ length o + length ys = length-append o ys in
    let size2 : length o2 ≡ length o + length ys + length xs =
      omega (arith, length-append o1 xs, size1) in
    let size3 : length q ≡ length o + n + 1 =
      omega (arith, length-append o2 (byte jnz ∷ []), size2) in
    rw
      (
        c-emit s o (omega (arith, room, room')),
        c_expr-emit e o1 (omega (arith, room, room', size1)),
        g-Writes (opcode jnz) o2 (omega (arith, room, room', size2)),
        hole-ok q (omega (arith, room, room', size3)),
        fill_back q (length o) n size3,
      )
      (ap done (
        append_assoc o2 (byte jnz ∷ []) (back n ∷ []) ∙ append_assoc o1 xs _ ∙ append_assoc o ys _))
c-emit empty o h = rw append-nil
c-emit (seq s t) o h = Writes-then _ _ _ _ (c-emit s) (c-emit t) o h
c-emit (expr e) o h = Writes-then _ _ _ _ (c_expr-emit e) (g-Writes (opcode ipop)) o h

-- If the code of a statement and HALT fit the 1000 cells of object, the generator of tinyc.c, with
-- its holes and fixes, writes exactly the position-independent code that a recursive description
-- without any patching gives, then HALT, and overruns nothing.
pub c_prog-emit :
    (s : Stmt) → length (emit s) + 1 ≤ object_size → c_prog s ≡ done (emit s ++ byte halt ∷ [])
unfolding c_prog
c_prog-emit s h = rw (c-emit s [] (omega arith), g-Writes (opcode halt) (emit s) (omega arith))
