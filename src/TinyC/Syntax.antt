-- ===== src/TinyC/Syntax.antt =====
-- The nodes that the parser of tinyc.c builds: the kinds VAR to SET are expressions, IF1 to EXPR
-- statements. The children of a node are those that its kind uses; of SET, `o1` is the node of a
-- variable, and stands here by the variable's number.
use c_lang_project.Common.{ℕ}

pub data Expr : Type 0 where
  var : ℕ → Expr
  cst : ℕ → Expr
  add : Expr → Expr → Expr
  sub : Expr → Expr → Expr
  lt : Expr → Expr → Expr
  set_var : ℕ → Expr → Expr

pub data Stmt : Type 0 where
  if1 : Expr → Stmt → Stmt
  if2 : Expr → Stmt → Stmt → Stmt
  while : Expr → Stmt → Stmt
  do_while : Stmt → Expr → Stmt
  empty : Stmt
  seq : Stmt → Stmt → Stmt
  expr : Expr → Stmt
