-- ===== src/TinyC/Parser/Statements.antt =====
-- `statement` and `program` of tinyc.c end on every text.
use c_lang_project.TinyC.Lexer.Progress.{left, next_sym-left}
use c_lang_project.TinyC.Outcome.{
  Within, Within-bind, Within-mono, within, Within-ends, erring, no_fuel,
}
use c_lang_project.TinyC.Syntax.{Stmt, empty, seq}
use c_lang_project.TinyC.Parser.{
  Parse, block_loop, block_statement, do_statement, expr_statement, if_statement, paren_expr,
  parse_expr, while_statement, program, statement,
}
use c_lang_project.TinyC.Lexer.{
  Lexer, is_sym, rbra, if_sym, while_sym, do_sym, lbra, semi, else_sym, eoi,
}
use c_lang_project.TinyC.Parser.Total.{
  Consumes, expect-left, met-left, paren_expr-Consumes, parse_expr-Consumes,
}
use c_lang_project.Common.{
  ◌<◌, Bool-cases, arith, inl, inr, refl, suc, true, zero, ℕ, ◌≡◌, ◌≤◌, ◌+◌, List, [], length, ◌∷◌,
  ◌≢◌,
}

-- A statement in a larger one: `rec` is the recursive call, with fuel for less than `n` to read.
module _ (rec : Parse Stmt) (n : ℕ)
    (total : (l : Lexer) → left l + 1 < n → Consumes l (rec l)) where
  paren-Consumes : (l : Lexer) → left l ≤ n → Consumes l (paren_expr (parse_expr n) l)
  paren-Consumes l f = paren_expr-Consumes (parse_expr n) n (parse_expr-Consumes n) l f

  block_loop-Within :
      (k : ℕ) (x : Stmt) (l : Lexer)
      → left l < k
      → left l + 1 < n
      → Within (λ r. left r.1 ≤ left l) (block_loop rec k x l)
  unfolding block_loop
  block_loop-Within zero x l f f' = absurd (omega arith)
  block_loop-Within (suc k) x l f f' = elim (Bool-cases (is_sym l.sym rbra)) [
    | inl e ↦ rw e (Within-bind (met-left rbra l refl e) λ l1 h1. within (omega arith))
    | inr ne ↦ rw ne (
        Within-bind (total l f') λ r h1.
          Within-mono (block_loop-Within k (seq x r.0) r.1 (omega arith) (omega arith))
            λ r' h2. omega arith)
  ]

  if_statement-Consumes :
      (l : Lexer) → is_sym l.sym if_sym ≡ true → left l < n → Consumes l (if_statement rec n l)
  unfolding if_statement
  if_statement-Consumes l e f = Within-bind (met-left if_sym l refl e) λ l1 h1.
      Within-bind (paren-Consumes l1 (omega arith)) λ r h2.
        Within-bind (total r.1 (omega arith)) λ r' h3.
          elim (Bool-cases (is_sym r'.1.sym else_sym)) [
            | inl e' ↦ rw e' (
                Within-bind (met-left else_sym r'.1 refl e')
                  λ l2 h4. Within-bind (total l2 (omega arith)) λ r'' h5. within (omega arith))
            | inr ne ↦ rw ne (within (omega arith))
          ]

  while_statement-Consumes :
      (l : Lexer)
      → is_sym l.sym while_sym ≡ true
      → left l < n
      → Consumes l (while_statement rec n l)
  unfolding while_statement
  while_statement-Consumes l e f = Within-bind (met-left while_sym l refl e) λ l1 h1.
      Within-bind (paren-Consumes l1 (omega arith))
        λ r h2. Within-bind (total r.1 (omega arith)) λ r' h3. within (omega arith)

  do_statement-Consumes :
      (l : Lexer) → is_sym l.sym do_sym ≡ true → left l < n → Consumes l (do_statement rec n l)
  unfolding do_statement
  do_statement-Consumes l e f = Within-bind (met-left do_sym l refl e) λ l1 h1.
      Within-bind (total l1 (omega arith)) λ r h2.
        Within-bind (expect-left while_sym r.1 refl) λ l2 h3.
          Within-bind (paren-Consumes l2 (omega arith))
            λ r' h4. Within-bind (expect-left semi r'.1 refl) λ l3 h5. within (omega arith)

  block_statement-Consumes :
      (l : Lexer) → is_sym l.sym lbra ≡ true → left l < n → Consumes l (block_statement rec n l)
  unfolding block_statement
  block_statement-Consumes l e f = Within-bind (met-left lbra l refl e) λ l1 h1.
      Within-mono (block_loop-Within n empty l1 (omega arith) (omega arith)) λ r h2. omega arith

  -- With one unit of fuel more.
  expr_statement-Consumes : (l : Lexer) → left l < n → Consumes l (expr_statement rec n l)
  unfolding expr_statement
  expr_statement-Consumes l f =
      Within-bind (parse_expr-Consumes n l f)
        λ r h1. Within-bind (expect-left semi r.1 refl) λ l2 h2. within (omega arith)

pub statement-Consumes : (k : ℕ) (l : Lexer) → left l + 1 < k → Consumes l (statement k l)
unfolding statement
statement-Consumes zero l f = absurd (omega arith)
statement-Consumes (suc k) l f =
    let total = statement-Consumes k in
    let less : left l < k = omega arith in
    elim (Bool-cases (is_sym l.sym if_sym)) [
      | inl e ↦ rw e (if_statement-Consumes (statement k) k total l e less)
      | inr n1 ↦ rw n1 (elim (Bool-cases (is_sym l.sym while_sym)) [
        | inl e ↦ rw e (while_statement-Consumes (statement k) k total l e less)
        | inr n2 ↦ rw n2 (elim (Bool-cases (is_sym l.sym do_sym)) [
          | inl e ↦ rw e (do_statement-Consumes (statement k) k total l e less)
          | inr n3 ↦ rw n3 (elim (Bool-cases (is_sym l.sym semi)) [
            | inl e ↦ rw e (Within-bind (met-left semi l refl e) λ l1 h1. within h1)
            | inr n4 ↦ rw n4 (elim (Bool-cases (is_sym l.sym lbra)) [
              | inl e ↦ rw e (block_statement-Consumes (statement k) k total l e less)
              | inr n5 ↦ rw n5 (expr_statement-Consumes (statement k) k total l less)
            ])
          ])
        ])
      ])
    ]

program-Within : (k : ℕ) (text : List ℕ) → length text + 2 < k → Within (λ _. Unit) (program k text)
unfolding program
program-Within k text f =
    Within-bind
      (next_sym-left (record { text = 32 ∷ text; sym = do_sym; int_val = 0; id_name = [] }) refl)
      λ l1 h1. Within-bind (statement-Consumes k l1 (omega arith)) λ r h2.
        elim (Bool-cases (is_sym r.1.sym eoi)) [ inl e ↦ rw e (within tt) | inr ne ↦ rw ne erring ]

-- The parser of tinyc.c, with fuel above the length of the text plus 2, ends on every text, with a
-- tree, a syntax error or undefined behaviour in the lexer.
pub program-ends : (k : ℕ) (text : List ℕ) → length text + 2 < k → program k text ≢ no_fuel
program-ends k text f = Within-ends (program-Within k text f)
