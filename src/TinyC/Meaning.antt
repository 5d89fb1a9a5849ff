-- ===== src/TinyC/Meaning.antt =====
-- What a program of the tiny C language means, without any code: an expression has a value and may
-- set variables, a statement turns the variables into others.
use c_lang_project.TinyC.Emit.{emit, emit_expr}
use c_lang_project.TinyC.Outcome.{◌>>=◌, Outcome, done}
use c_lang_project.TinyC.Syntax.{
  Expr, Stmt, add, cst, do_while, empty, expr, if1, if2, lt, seq, set_var, sub, var, while,
}
use c_lang_project.Common.Int.{◌+ℤ◌, ◌-ℤ◌, ℤ, pos}
use c_lang_project.Common.{◌+◌, ◌<◌, false, length, true, ◌≡◌}
use c_lang_project.TinyC.Vm.{Globals, update, check_int, less, is_zero}

unfoldable pub eval : Expr → Globals → Outcome (ℤ × Globals)
eval (var v) gl = done (gl v, gl)
eval (cst n) gl = done (pos n, gl)
eval (add a b) gl = do
  (x, gl1) ← eval a gl
  (y, gl2) ← eval b gl1
  n ← check_int (x +ℤ y)
  done (n, gl2)
eval (sub a b) gl = do
  (x, gl1) ← eval a gl
  (y, gl2) ← eval b gl1
  n ← check_int (x -ℤ y)
  done (n, gl2)
eval (lt a b) gl = do (x, gl1) ← eval a gl; (y, gl2) ← eval b gl1; done (less x y, gl2)
eval (set_var v a) gl = do (n, gl1) ← eval a gl; done (n, update gl1 v n)

-- The statement ends, and turns the first variables into the second.
pub data Runs : Stmt → Globals → Globals → Type 0 where
  if1_then :
      {e : Expr} {s : Stmt} {gl gl1 gl2 : Globals} {v : ℤ}
      → eval e gl ≡ done (v, gl1)
      → is_zero v ≡ false
      → Runs s gl1 gl2
      → Runs (if1 e s) gl gl2
  if1_skip :
      {e : Expr} {s : Stmt} {gl gl1 : Globals} {v : ℤ}
      → eval e gl ≡ done (v, gl1)
      → is_zero v ≡ true
      → Runs (if1 e s) gl gl1
  if2_then :
      {e : Expr} {s t : Stmt} {gl gl1 gl2 : Globals} {v : ℤ}
      → eval e gl ≡ done (v, gl1)
      → is_zero v ≡ false
      → Runs s gl1 gl2
      → Runs (if2 e s t) gl gl2
  if2_else :
      {e : Expr} {s t : Stmt} {gl gl1 gl2 : Globals} {v : ℤ}
      → eval e gl ≡ done (v, gl1)
      → is_zero v ≡ true
      → Runs t gl1 gl2
      → Runs (if2 e s t) gl gl2
  while_more :
      {e : Expr} {s : Stmt} {gl gl1 gl2 gl3 : Globals} {v : ℤ}
      → eval e gl ≡ done (v, gl1)
      → is_zero v ≡ false
      → Runs s gl1 gl2
      → Runs (while e s) gl2 gl3
      → Runs (while e s) gl gl3
  while_end :
      {e : Expr} {s : Stmt} {gl gl1 : Globals} {v : ℤ}
      → eval e gl ≡ done (v, gl1)
      → is_zero v ≡ true
      → Runs (while e s) gl gl1
  do_more :
      {e : Expr} {s : Stmt} {gl gl1 gl2 gl3 : Globals} {v : ℤ}
      → Runs s gl gl1
      → eval e gl1 ≡ done (v, gl2)
      → is_zero v ≡ false
      → Runs (do_while s e) gl2 gl3
      → Runs (do_while s e) gl gl3
  do_end :
      {e : Expr} {s : Stmt} {gl gl1 gl2 : Globals} {v : ℤ}
      → Runs s gl gl1
      → eval e gl1 ≡ done (v, gl2)
      → is_zero v ≡ true
      → Runs (do_while s e) gl gl2
  nothing : {gl : Globals} → Runs empty gl gl
  both :
      {s t : Stmt} {gl gl1 gl2 : Globals} → Runs s gl gl1 → Runs t gl1 gl2 → Runs (seq s t) gl gl2
  alone : {e : Expr} {gl gl1 : Globals} {v : ℤ} → eval e gl ≡ done (v, gl1) → Runs (expr e) gl gl1

-- A variable is a letter, and a constant fits a cell.
abbrev pub IsSmall : Expr → Type 0
IsSmall (var v) = v < 26
IsSmall (cst n) = n < 128
IsSmall (add a b) = IsSmall a × IsSmall b
IsSmall (sub a b) = IsSmall a × IsSmall b
IsSmall (lt a b) = IsSmall a × IsSmall b
IsSmall (set_var v a) = (v < 26) × IsSmall a

-- All expressions are small, and the distance of every jump fits a cell.
abbrev pub IsShort : Stmt → Type 0
IsShort (if1 e s) = IsSmall e × (length (emit s) + 1 < 128) × IsShort s
IsShort (if2 e s t) =
    IsSmall e × (length (emit s) + 3 < 128) × IsShort s × (length (emit t) + 1 < 128) × IsShort t
IsShort (while e s) = IsSmall e × (length (emit_expr e) + length (emit s) + 2 < 128) × IsShort s
IsShort (do_while s e) = IsShort s × IsSmall e × (length (emit s) + length (emit_expr e) < 128)
IsShort empty = Unit
IsShort (seq s t) = IsShort s × IsShort t
IsShort (expr e) = IsSmall e
