-- ===== src/TinyC/Code.antt =====
-- The code generator of tinyc.c. `object` is the list of the cells written so far, and `here` is
-- its length. A cell is a `char`, taken as signed.
use c_lang_project.TinyC.Syntax.{
  Expr, Stmt, add, cst, do_while, empty, expr, if1, if2, lt, seq, set_var, sub, var, while,
}
use c_lang_project.Common.{◌%◌, ◌++◌, ◌-◌, List, [], if◌then◌else◌, length, ltb, set, ℕ, ◌∷◌}
use c_lang_project.Common.Int.{ℤ, sub_ℕ, negsuc, pos}
use c_lang_project.TinyC.Outcome.{Outcome, done, undefined, ◌>>=◌}

pub data Op : Type 0 where
  ifetch istore ipush ipop iadd isub ilt jz jnz jmp halt : Op

-- The numbers of the enumeration.
abbrev pub opcode : Op → ℤ
opcode ifetch = pos 0
opcode istore = pos 1
opcode ipush = pos 2
opcode ipop = pos 3
opcode iadd = pos 4
opcode isub = pos 5
opcode ilt = pos 6
opcode jz = pos 7
opcode jnz = pos 8
opcode jmp = pos 9
opcode halt = pos 10

-- What is left of an `int` in a signed `char`.
unfoldable pub wrap8 : ℤ → ℤ
wrap8 (pos n) = if ltb (n % 256) 128 then pos (n % 256) else negsuc (255 - n % 256)
wrap8 (negsuc n) = if ltb (n % 256) 128 then negsuc (n % 256) else pos (255 - n % 256)

abbrev pub Object : Type 0
Object = List ℤ

abbrev pub object_size : ℕ
object_size = 1000

unfoldable pub g : ℤ → Object → Outcome Object
g v o = if ltb (length o) object_size then done (o ++ wrap8 v ∷ []) else undefined

-- The index of the hole, and the cells with it.
unfoldable pub hole : Object → Outcome (ℕ × Object)
hole o = if ltb (length o) object_size then done (length o, o ++ pos 0 ∷ []) else undefined

unfoldable pub fix : ℕ → ℕ → Object → Object
fix src dst o = set o src (wrap8 (sub_ℕ dst src))

-- `c`, at an expression.
unfoldable pub c_expr : Expr → Object → Outcome Object
c_expr (var v) o = do o ← g (opcode ifetch) o; g (pos v) o
c_expr (cst n) o = do o ← g (opcode ipush) o; g (pos n) o
c_expr (add a b) o = do o ← c_expr a o; o ← c_expr b o; g (opcode iadd) o
c_expr (sub a b) o = do o ← c_expr a o; o ← c_expr b o; g (opcode isub) o
c_expr (lt a b) o = do o ← c_expr a o; o ← c_expr b o; g (opcode ilt) o
c_expr (set_var v a) o = do o ← c_expr a o; o ← g (opcode istore) o; g (pos v) o

-- `c`, at a statement.
unfoldable pub c : Stmt → Object → Outcome Object
c (if1 e s) o = do
  o ← c_expr e o
  o ← g (opcode jz) o
  (p1, o) ← hole o
  o ← c s o
  done (fix p1 (length o) o)
c (if2 e s t) o = do
  o ← c_expr e o
  o ← g (opcode jz) o
  (p1, o) ← hole o
  o ← c s o
  o ← g (opcode jmp) o
  (p2, o) ← hole o
  let o' = fix p1 (length o) o
  o ← c t o'
  done (fix p2 (length o) o)
c (while e s) o = do
  let p1 = length o
  o ← c_expr e o
  o ← g (opcode jz) o
  (p2, o) ← hole o
  o ← c s o
  o ← g (opcode jmp) o
  (p3, o) ← hole o
  let o' = fix p3 p1 o
  done (fix p2 (length o') o')
c (do_while s e) o = do
  let p1 = length o
  o ← c s o
  o ← c_expr e o
  o ← g (opcode jnz) o
  (p2, o) ← hole o
  done (fix p2 p1 o)
c empty o = done o
c (seq s t) o = do o ← c s o; c t o
c (expr e) o = do o ← c_expr e o; g (opcode ipop) o

-- `c(program())`: the node PROG over the statement.
unfoldable pub c_prog : Stmt → Outcome Object
c_prog s = do o ← c s []; g (opcode halt) o
