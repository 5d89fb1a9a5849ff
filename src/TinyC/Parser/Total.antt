-- ===== src/TinyC/Parser/Total.antt =====
-- The recursive descent of tinyc.c ends on every text: fuel above what is left to read is enough.
use c_lang_project.TinyC.Lexer.Progress.{left, next_sym-left}
use c_lang_project.TinyC.Code.{g}
use c_lang_project.TinyC.Parser.{
  Parse, as_var, expect, paren_expr, parse_expr, sum, sum_loop, term, test,
}
use c_lang_project.TinyC.Outcome.{Outcome, Within, Within-bind, Within-mono, erring, within}
use c_lang_project.TinyC.Lexer.{
  Lexer, Sym, is_sym, next_sym, eoi, lpar, id_sym, plus, less_sym, rpar, int_sym, minus, equal,
}
use c_lang_project.TinyC.Syntax.{Expr, add, sub}
use c_lang_project.Common.{
  ◌<◌, Bool-cases, Option-cases, arith, false, inl, inr, refl, suc, true, zero, ℕ, ◌≡◌, ◌≤◌,
}

-- What is read is left behind.
abbrev pub Consumes : {A : Type 0} → Lexer → Outcome (A × Lexer) → Type 0
Consumes l m = Within (λ r. left r.1 < left l) m

pub expect-left :
    (s : Sym) (l : Lexer) → is_sym s eoi ≡ false → Within (λ l'. left l' < left l) (expect s l)
unfolding expect
expect-left s l more = elim (Bool-cases (is_sym l.sym s)) [
  | inl met ↦ rw met (next_sym-left l (ground arith))
  | inr missed ↦ rw missed erring
]

-- `next_sym` after a test of the symbol.
pub met-left :
    (s : Sym) (l : Lexer)
    → is_sym s eoi ≡ false
    → is_sym l.sym s ≡ true
    → Within (λ l'. left l' < left l) (next_sym l)
met-left s l more met = next_sym-left l (ground arith)

module _ (rec : Parse Expr) (n : ℕ) (total : (l : Lexer) → left l < n → Consumes l (rec l)) where
  pub paren_expr-Consumes : (l : Lexer) → left l ≤ n → Consumes l (paren_expr rec l)
  unfolding paren_expr
  paren_expr-Consumes l f = Within-bind (expect-left lpar l refl) λ l1 h1.
      Within-bind (total l1 (omega arith))
        λ r h2. Within-bind (expect-left rpar r.1 refl) λ l3 h3. within (omega arith)

  term-Consumes : (l : Lexer) → left l ≤ n → Consumes l (term rec l)
  unfolding term
  term-Consumes l f = elim (Bool-cases (is_sym l.sym id_sym)) [
    | inl e ↦ rw e (Within-bind (met-left id_sym l refl e) λ l1 h1. within h1)
    | inr ne ↦ rw ne (elim (Bool-cases (is_sym l.sym int_sym)) [
      | inl e ↦ rw e (Within-bind (met-left int_sym l refl e) λ l1 h1. within h1)
      | inr other ↦ rw other (paren_expr-Consumes l f)
    ])
  ]

  sum_loop-Within :
      (k : ℕ) (x : Expr) (l : Lexer)
      → left l < k
      → left l ≤ n
      → Within (λ r. left r.1 ≤ left l) (sum_loop rec k x l)
  unfolding sum_loop
  sum_loop-Within zero x l g f = absurd (omega arith)
  sum_loop-Within (suc k) x l g f = elim (Bool-cases (is_sym l.sym plus)) [
    | inl e ↦ rw e (
        Within-bind (met-left plus l refl e) λ l1 h1.
          Within-bind (term-Consumes l1 (omega arith)) λ r h2.
            Within-mono (sum_loop-Within k (add x r.0) r.1 (omega arith) (omega arith))
              λ r' h3. omega arith)
    | inr ne ↦ rw ne (elim (Bool-cases (is_sym l.sym minus)) [
      | inl e ↦ rw e (
          Within-bind (met-left minus l refl e) λ l1 h1.
            Within-bind (term-Consumes l1 (omega arith)) λ r h2.
              Within-mono (sum_loop-Within k (sub x r.0) r.1 (omega arith) (omega arith))
                λ r' h3. omega arith)
      | inr other ↦ rw other (within (omega arith))
    ])
  ]

  sum-Consumes : (k : ℕ) (l : Lexer) → left l ≤ k → left l ≤ n → Consumes l (sum rec k l)
  unfolding sum
  sum-Consumes k l g f = Within-bind (term-Consumes l f) λ r h.
      Within-mono (sum_loop-Within k r.0 r.1 (omega arith) (omega arith)) λ r' h'. omega arith

  test-Consumes : (k : ℕ) (l : Lexer) → left l ≤ k → left l ≤ n → Consumes l (test rec k l)
  unfolding test
  test-Consumes k l g f = Within-bind (sum-Consumes k l g f) λ r h.
      elim (Bool-cases (is_sym r.1.sym less_sym)) [
        | inl e ↦ rw e (
            Within-bind (met-left less_sym r.1 refl e) λ l1 h1.
              Within-bind (sum-Consumes k l1 (omega arith) (omega arith))
                λ r' h2. within (omega arith))
        | inr ne ↦ rw ne (within h)
      ]

pub parse_expr-Consumes : (k : ℕ) (l : Lexer) → left l < k → Consumes l (parse_expr k l)
unfolding parse_expr
parse_expr-Consumes zero l f = absurd (omega arith)
parse_expr-Consumes (suc k) l f =
    let tested : Consumes l (test (parse_expr k) k l) =
      test-Consumes (parse_expr k) k (parse_expr-Consumes k) k l (omega arith) (omega arith) in
    elim (Bool-cases (is_sym l.sym id_sym)) [
      | inl e ↦ rw e (
          Within-bind tested λ r h. elim (Option-cases (as_var r.0)) [
            | inl no_var ↦ rw no_var (within h)
            | inr (v, is_var) ↦ rw is_var (elim (Bool-cases (is_sym r.1.sym equal)) [
              | inl e' ↦ rw e' (
                  Within-bind (met-left equal r.1 refl e') λ l1 h1.
                    Within-bind (parse_expr-Consumes k l1 (omega arith))
                      λ r' h2. within (omega arith))
              | inr ne ↦ rw ne (within h)
            ])
          ])
      | inr ne ↦ rw ne tested
    ]
