-- ===== src/TinyC/Parser.antt =====
-- The recursive descent of tinyc.c. A function takes the lexer's state and returns it with the
-- node. The functions below `expr` take its recursive call as an argument, the loops run on fuel.
pub mod Total
pub mod Statements
use c_lang_project.TinyC.Outcome.{Outcome, done, no_fuel, syntax_error}
use c_lang_project.TinyC.Lexer.{
  Lexer, Sym, next_sym, lpar, id_sym, plus, less_sym, rpar, int_sym, minus, equal, sym_code, rbra,
  else_sym, while_sym, semi, if_sym, do_sym, lbra, eoi, is_sym,
}
use c_lang_project.TinyC.Syntax.{
  Expr, add, cst, lt, set_var, sub, var, Stmt, do_while, empty, if1, if2, seq, while, expr,
}
use c_lang_project.Common.{
  ◌-◌, Bool, List, Option, [], if◌then◌else◌, none, some, suc, zero, ℕ, ◌∷◌, ◌==◌, sym,
}
use c_lang_project.TinyC.Outcome.{◌>>=◌}

abbrev pub Parse : Type 0 → Type 0
Parse A = Lexer → Outcome (A × Lexer)

-- `if (sym == s) { next_sym(); } else { syntax_error(); }`
unfoldable pub expect : Sym → Lexer → Outcome Lexer
expect s l = if is_sym l.sym s then next_sym l else syntax_error

-- `id_name[0] - 'a'`
abbrev pub variable : List ℕ → ℕ
variable [] = 0
variable (ch ∷ _) = ch - 97

module _ (expr : Parse Expr) where
  unfoldable pub paren_expr : Parse Expr
  paren_expr l = do l ← expect lpar l; (x, l) ← expr l; l ← expect rpar l; done (x, l)

  unfoldable pub term : Parse Expr
  term l =
      if is_sym l.sym id_sym
      then (do l' ← next_sym l; done (var (variable l.id_name), l'))
      else if is_sym l.sym int_sym
      then (do l' ← next_sym l; done (cst l.int_val, l'))
      else paren_expr l

  unfoldable pub sum_loop : ℕ → Expr → Parse Expr
  sum_loop zero x l = no_fuel
  sum_loop (suc k) x l =
      let more : (Expr → Expr) → Outcome (Expr × Lexer) =
        λ join. (do l ← next_sym l; (y, l) ← term l; sum_loop k (join y) l) in
      if is_sym l.sym plus
      then more (add x)
      else if is_sym l.sym minus
      then more (sub x)
      else done (x, l)

  unfoldable pub sum : ℕ → Parse Expr
  sum k l = do (x, l) ← term l; sum_loop k x l

  unfoldable pub test : ℕ → Parse Expr
  test k l = do
    (x, l) ← sum k l
    if is_sym l.sym less_sym
        then (do l ← next_sym l; (y, l) ← sum k l; done (lt x y, l))
        else done (x, l)

-- The variable of a node VAR.
abbrev pub as_var : Expr → Option ℕ
as_var (var v) = some v
as_var _ = none

unfoldable pub parse_expr : ℕ → Parse Expr
parse_expr zero l = no_fuel
parse_expr (suc k) l =
    let rec : Parse Expr = parse_expr k in
    if is_sym l.sym id_sym
    then (do
      (x, l) ← test rec k l
      elim (as_var x) [
        | some v ↦
            if is_sym l.sym equal
            then (do l ← next_sym l; (y, l) ← rec l; done (set_var v y, l))
            else done (x, l)
        | none ↦ done (x, l)
      ])
    else test rec k l

-- `{ <statement> }`: the loop up to the closing brace.
unfoldable pub block_loop : Parse Stmt → ℕ → Stmt → Parse Stmt
block_loop statement zero x l = no_fuel
block_loop statement (suc k) x l =
    let more : Outcome (Stmt × Lexer) = (do
      (y, l) ← statement l
      block_loop statement k (seq x y) l) in
    if is_sym l.sym rbra then (do l ← next_sym l; done (x, l)) else more

module _ (statement : Parse Stmt) (k : ℕ) where
  unfoldable pub if_statement : Parse Stmt
  if_statement l = do
    l ← next_sym l
    (e, l) ← paren_expr (parse_expr k) l
    (s, l) ← statement l
    if is_sym l.sym else_sym
        then (do l ← next_sym l; (s2, l) ← statement l; done (if2 e s s2, l))
        else done (if1 e s, l)

  unfoldable pub while_statement : Parse Stmt
  while_statement l = do
    l ← next_sym l
    (e, l) ← paren_expr (parse_expr k) l
    (s, l) ← statement l
    done (while e s, l)

  unfoldable pub do_statement : Parse Stmt
  do_statement l = do
    l ← next_sym l
    (s, l) ← statement l
    l ← expect while_sym l
    (e, l) ← paren_expr (parse_expr k) l
    l ← expect semi l
    done (do_while s e, l)

  unfoldable pub block_statement : Parse Stmt
  block_statement l = do l ← next_sym l; block_loop statement k empty l

  unfoldable pub expr_statement : Parse Stmt
  expr_statement l = do (e, l) ← parse_expr k l; l ← expect semi l; done (expr e, l)

unfoldable pub statement : ℕ → Parse Stmt
statement zero l = no_fuel
statement (suc k) l =
    let rec : Parse Stmt = statement k in
    if is_sym l.sym if_sym
    then if_statement rec k l
    else if is_sym l.sym while_sym
    then while_statement rec k l
    else if is_sym l.sym do_sym
    then do_statement rec k l
    else if is_sym l.sym semi
    then (do l ← next_sym l; done (empty, l))
    else if is_sym l.sym lbra
    then block_statement rec k l
    else expr_statement rec k l

-- `program`, on a text from its beginning: `ch` is first a space.
unfoldable pub program : ℕ → List ℕ → Outcome Stmt
program k text = do
  l ← next_sym (record { text = 32 ∷ text; sym = do_sym; int_val = 0; id_name = [] })
  (x, l) ← statement k l
  if is_sym l.sym eoi then done x else syntax_error
