-- ===== src/TinyC/Emit.antt =====
-- The code of a node by itself: jumps are relative, so it is the same wherever it stands. The code
-- generator of tinyc.c writes just this.
pub mod Jumps
pub mod Program
use c_lang_project.TinyC.Code.{
  Object, Op, c_expr, fix, g, hole, iadd, ifetch, ilt, ipop, ipush, istore, isub, jmp, jnz, jz,
  object_size, opcode, wrap8, c, c_prog, halt,
}
use c_lang_project.TinyC.Syntax.{
  Expr, Stmt, add, cst, do_while, empty, expr, if1, if2, lt, seq, set_var, sub, var, while,
}
use c_lang_project.Common.{
  ◌+◌, ◌++◌, ◌<◌, [], ap, arith, length, length-append, lt→ltb, refl, set, ℕ, ◌∷◌, ◌≡◌, ◌≤◌, sym,
  ◌∙◌,
}
use c_lang_project.Common.Int.{ℤ, sub_ℕ, negsuc, pos}
use c_lang_project.TinyC.Outcome.{done, ◌>>=◌, Outcome}
use mathlib.Core.List.{append_assoc, append-nil}

abbrev pub byte : Op → ℤ
byte op = wrap8 (opcode op)

unfoldable pub emit_expr : Expr → Object
emit_expr (var v) = byte ifetch ∷ wrap8 (pos v) ∷ []
emit_expr (cst n) = byte ipush ∷ wrap8 (pos n) ∷ []
emit_expr (add a b) = emit_expr a ++ (emit_expr b ++ byte iadd ∷ [])
emit_expr (sub a b) = emit_expr a ++ (emit_expr b ++ byte isub ∷ [])
emit_expr (lt a b) = emit_expr a ++ (emit_expr b ++ byte ilt ∷ [])
emit_expr (set_var v a) = emit_expr a ++ byte istore ∷ wrap8 (pos v) ∷ []

-- A jump over `n` cells forward, or back to `n` cells before the operation's own cell.
abbrev pub over : ℕ → ℤ
over n = wrap8 (pos (n + 1))

abbrev pub back : ℕ → ℤ
back n = wrap8 (negsuc n)

unfoldable pub emit : Stmt → Object
emit (if1 e s) = emit_expr e ++ byte jz ∷ over (length (emit s)) ∷ emit s
emit (if2 e s t) =
    emit_expr e
    ++ byte jz ∷ over (length (emit s) + 2) ∷ (emit s ++ byte jmp ∷ over (length (emit t)) ∷ emit t)
emit (while e s) =
    emit_expr e
    ++ byte jz
      ∷ over (length (emit s) + 2)
      ∷ (emit s ++ byte jmp ∷ back (length (emit_expr e) + length (emit s) + 2) ∷ [])
emit (do_while s e) =
    emit s ++ (emit_expr e ++ byte jnz ∷ back (length (emit s) + length (emit_expr e)) ∷ [])
emit empty = []
emit (seq s t) = emit s ++ emit t
emit (expr e) = emit_expr e ++ byte ipop ∷ []

-- `f` appends `xs`, as long as `object` has room for them.
abbrev pub Writes : (Object → Outcome Object) → Object → Type 0
Writes f xs = (o : Object) → length o + length xs ≤ object_size → f o ≡ done (o ++ xs)

pub g-Writes : (v : ℤ) → Writes (g v) (wrap8 v ∷ [])
unfolding g
g-Writes v o h = rw (lt→ltb (length o) object_size (omega arith))

pub hole-ok : (o : Object) → length o < object_size → hole o ≡ done (length o, o ++ pos 0 ∷ [])
unfolding hole
hole-ok o h = rw (lt→ltb (length o) object_size h)

pub Writes-then :
    (f k : Object → Outcome Object) (xs ys : Object)
    → Writes f xs
    → Writes k ys
    → Writes (λ o. f o >>= k) (xs ++ ys)
Writes-then f k xs ys hf hk o h = rw (
  hf o (omega (arith, length-append xs ys)),
  hk (o ++ xs) (omega (arith, length-append xs ys, length-append o xs)),
  append_assoc,
)

set-append : (xs ys : Object) (v w : ℤ) → set (xs ++ v ∷ ys) (length xs) w ≡ xs ++ w ∷ ys
set-append [] ys v w = refl
set-append (x ∷ xs) ys v w = ap (◌∷◌ x) (set-append xs ys v w)

-- Filling the hole behind `o`, with `ys` written since.
pub fix-append :
    (o ys : Object) (v : ℤ) (dst : ℕ)
    → fix (length o) dst (o ++ v ∷ ys) ≡ o ++ wrap8 (sub_ℕ dst (length o)) ∷ ys
unfolding fix
fix-append o ys v dst = set-append o ys v (wrap8 (sub_ℕ dst (length o)))

pub sub_ℕ-over : (a b n : ℕ) → a ≡ b + n + 1 → sub_ℕ a b ≡ pos (n + 1)
sub_ℕ-over a b n h = ground arith

pub sub_ℕ-back : (a b n : ℕ) → b ≡ a + n + 1 → sub_ℕ a b ≡ negsuc n
sub_ℕ-back a b n h = ground arith

-- The generator, at an expression.
pub c_expr-emit : (e : Expr) → Writes (c_expr e) (emit_expr e)
unfolding c_expr emit_expr
c_expr-emit (var v) =
    Writes-then _ _ (byte ifetch ∷ []) _ (g-Writes (opcode ifetch)) (g-Writes (pos v))
c_expr-emit (cst n) =
    Writes-then _ _ (byte ipush ∷ []) _ (g-Writes (opcode ipush)) (g-Writes (pos n))
c_expr-emit (add a b) =
    Writes-then _ _ _ _ (c_expr-emit a)
      (Writes-then _ _ _ _ (c_expr-emit b) (g-Writes (opcode iadd)))
c_expr-emit (sub a b) =
    Writes-then _ _ _ _ (c_expr-emit a)
      (Writes-then _ _ _ _ (c_expr-emit b) (g-Writes (opcode isub)))
c_expr-emit (lt a b) =
    Writes-then _ _ _ _ (c_expr-emit a)
      (Writes-then _ _ _ _ (c_expr-emit b) (g-Writes (opcode ilt)))
c_expr-emit (set_var v a) =
    Writes-then _ _ _ (byte istore ∷ wrap8 (pos v) ∷ []) (c_expr-emit a)
      (Writes-then _ _ (byte istore ∷ []) _ (g-Writes (opcode istore)) (g-Writes (pos v)))
