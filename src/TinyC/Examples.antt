-- ===== src/TinyC/Examples.antt =====
-- Runs of the tiny C compiler's generator and machine on a small program.

use c_lang_project.TinyC.Parser.Statements.{program-ends}
use c_lang_project.TinyC.Lexer.{
  keyword, long_sym, name, next_from, next_sym, number, punctuation, same, word_sym, Lexer, do_sym,
}
use c_lang_project.TinyC.Parser.{
  block_loop, block_statement, do_statement, expect, expr_statement, if_statement, paren_expr,
  parse_expr, program, statement, sum, sum_loop, term, test, while_statement,
}
use c_lang_project.Common.Int.{pos, ◌+ℤ◌}
use c_lang_project.TinyC.Correct.Program.{compile_and_run-Runs}
use c_lang_project.TinyC.Meaning.{IsShort, Runs, alone, eval, while_more, while_end}
use c_lang_project.TinyC.Vm.{Globals, check_int, compile_and_run, update, zeros}
use c_lang_project.TinyC.Outcome.{done, no_fuel}
use c_lang_project.TinyC.Emit.Program.{c_prog-emit}
use c_lang_project.TinyC.Code.{c_prog, halt, object_size}
use c_lang_project.TinyC.Emit.{byte, emit, emit_expr}
use c_lang_project.TinyC.Syntax.{Stmt, add, cst, expr, lt, set_var, var, while}
use c_lang_project.Common.{
  ◌+◌, ◌++◌, [], arith, length, ◌∷◌, ◌≡◌, ◌≤◌, refl, suc, zero, ℕ, List, ◌≢◌,
}

-- `while (a < 3) a = a + 1;`
abbrev count_to_3 : Stmt
count_to_3 = while (lt (var 0) (cst 3)) (expr (set_var 0 (add (var 0) (cst 1))))

count_to_3-fits : length (emit count_to_3) + 1 ≤ object_size
unfolding emit emit_expr
count_to_3-fits = omega arith

c_prog-emit_example : c_prog count_to_3 ≡ done (emit count_to_3 ++ byte halt ∷ [])
c_prog-emit_example = c_prog-emit count_to_3 count_to_3-fits

count_to_3-IsShort : IsShort count_to_3
unfolding emit emit_expr
count_to_3-IsShort =
    ((omega arith, omega arith), omega arith, (omega arith, (omega arith, omega arith)))

abbrev at_0 : ℕ → Globals
at_0 zero = zeros
at_0 (suc n) = update (at_0 n) 0 (pos (n + 1))

count_to_3-Runs : Runs count_to_3 zeros (at_0 3)
unfolding eval update check_int ◌+ℤ◌
count_to_3-Runs = while_more {v = pos 1} refl refl (alone {v = pos 1} refl) (
    while_more {v = pos 1} refl refl (alone {v = pos 2} refl)
      (while_more {v = pos 1} refl refl (alone {v = pos 3} refl) (while_end {v = pos 0} refl refl)))

compile_and_run-Runs_example :
    (k : ℕ) × ((j : ℕ) → compile_and_run (k + j) count_to_3 ≡ done (at_0 3))
compile_and_run-Runs_example =
    compile_and_run-Runs count_to_3 (at_0 3) count_to_3-IsShort count_to_3-fits count_to_3-Runs

-- "while(a<3)a=a+1;"
abbrev count_text : List ℕ
count_text = 119 ∷ 104 ∷ 105 ∷ 108 ∷ 101 ∷ 40 ∷ 97 ∷ 60 ∷ 51 ∷ 41 ∷ 97 ∷ 61 ∷ 97 ∷ 43 ∷ 49 ∷ 59 ∷ []

program_test : program 8 count_text ≡ done count_to_3
unfolding expect paren_expr term sum_loop sum test parse_expr block_loop if_statement
    while_statement do_statement block_statement expr_statement statement program number name same
    keyword punctuation word_sym long_sym next_from next_sym
program_test = refl

program-ends_example : program 19 count_text ≢ no_fuel
program-ends_example = program-ends 19 count_text (omega arith)

abbrev at_start : Lexer
at_start = record { text = count_text; sym = do_sym; int_val = 0; id_name = [] }
