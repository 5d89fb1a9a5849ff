-- ===== src/TinyC/Vm.antt =====
-- The virtual machine of tinyc.c. `pc` is an index into `object`, `stack` is written from the top
-- down, and `globals` are 26 variables. Signed overflow, a stack that is over- or underrun and an
-- index outside an array are undefined. `object` is the list of the cells that were written: a
-- read behind them, of the zeros that C puts there, is undefined here too.
pub mod Steps
use c_lang_project.TinyC.Syntax.{Stmt}
use c_lang_project.TinyC.Code.{
  Object, Op, halt, iadd, ifetch, ilt, ipop, ipush, istore, isub, jmp, jnz, jz, c_prog,
}
use c_lang_project.Common.{
  ◌+◌, ◌==◌, Bool, List, Option, [], ◌^◌, get_elem?, if◌then◌else◌, length, ltb, none, some, suc,
  zero, ℕ, ◌∷◌,
}
use c_lang_project.Common.Int.{ℤ, ltb_ℤ, eqb_ℤ, ◌+ℤ◌, ◌-ℤ◌, negsuc, pos}
use c_lang_project.TinyC.Outcome.{Outcome, done, undefined, no_fuel, ◌>>=◌}

abbrev pub Globals : Type 0
Globals = ℕ → ℤ

pub record Machine : Type 0 where
  pub pc : ℕ
  pub stack : List ℤ
  pub globals : Globals

abbrev pub machine : ℕ → List ℤ → Globals → Machine
machine p s gl = record { pc = p; stack = s; globals = gl }

abbrev pub stack_size : ℕ
stack_size = 1000

unfoldable pub update : Globals → ℕ → ℤ → Globals
update gl v n w = if v == w then n else gl w

-- The `int` that an addition or a subtraction yields.
unfoldable pub check_int : ℤ → Outcome ℤ
check_int (pos n) = if ltb n (2 ^ 31) then done (pos n) else undefined
check_int (negsuc n) = if ltb n (2 ^ 31) then done (negsuc n) else undefined

-- The variable that an operand names.
unfoldable pub var_index : ℤ → Outcome ℕ
var_index (pos v) = if ltb v 26 then done v else undefined
var_index (negsuc n) = undefined

abbrev pub from_cell : Option ℤ → Outcome ℤ
from_cell none = undefined
from_cell (some v) = done v

abbrev pub fetch : Object → ℕ → Outcome ℤ
fetch o i = from_cell (get_elem? o i)

unfoldable pub push : ℤ → List ℤ → Outcome (List ℤ)
push v s = if ltb (length s) stack_size then done (v ∷ s) else undefined

abbrev pub pop : List ℤ → Outcome (ℤ × List ℤ)
pop [] = undefined
pop (v ∷ s) = done (v, s)

-- `pc += *pc`
unfoldable pub jump : Object → ℕ → Outcome ℕ
jump o p = do d ← fetch o p; elim (pos p +ℤ d) [ pos q ↦ done q | negsuc q ↦ undefined ]

-- What one round of `run` does: it goes on, or it leaves the `switch` and returns.
pub data Next : Type 0 where
  go : Machine → Next
  stop : Globals → Next

-- A number that is no case of the `switch`, as HALT is none, ends the run.
abbrev pub decode : ℤ → Op
decode (pos zero) = ifetch
decode (pos (suc zero)) = istore
decode (pos (suc (suc zero))) = ipush
decode (pos (suc (suc (suc zero)))) = ipop
decode (pos (suc (suc (suc (suc zero))))) = iadd
decode (pos (suc (suc (suc (suc (suc zero)))))) = isub
decode (pos (suc (suc (suc (suc (suc (suc zero))))))) = ilt
decode (pos (suc (suc (suc (suc (suc (suc (suc zero)))))))) = jz
decode (pos (suc (suc (suc (suc (suc (suc (suc (suc zero))))))))) = jnz
decode (pos (suc (suc (suc (suc (suc (suc (suc (suc (suc zero)))))))))) = jmp
decode _ = halt

abbrev pub less : ℤ → ℤ → ℤ
less a b = if ltb_ℤ a b then pos 1 else pos 0

abbrev pub is_zero : ℤ → Bool
is_zero v = eqb_ℤ v (pos 0)

-- The cases of the `switch`; `p` is the index behind the operation.
unfoldable pub execute : Object → Op → ℕ → List ℤ → Globals → Outcome Next
execute o ifetch p s gl = do
  v ← fetch o p
  i ← var_index v
  s ← push (gl i) s
  done (go (machine (p + 1) s gl))
execute o istore p s gl = do
  v ← fetch o p
  i ← var_index v
  (n, _) ← pop s
  done (go (machine (p + 1) s (update gl i n)))
execute o ipush p s gl = do v ← fetch o p; s ← push v s; done (go (machine (p + 1) s gl))
execute o ipop p s gl = do (_, s) ← pop s; done (go (machine p s gl))
execute o iadd p s gl = do
  (b, s) ← pop s
  (a, s) ← pop s
  n ← check_int (a +ℤ b)
  done (go (machine p (n ∷ s) gl))
execute o isub p s gl = do
  (b, s) ← pop s
  (a, s) ← pop s
  n ← check_int (a -ℤ b)
  done (go (machine p (n ∷ s) gl))
execute o ilt p s gl = do (b, s) ← pop s; (a, s) ← pop s; done (go (machine p (less a b ∷ s) gl))
execute o jmp p s gl = do q ← jump o p; done (go (machine q s gl))
execute o jz p s gl = do
  (a, s) ← pop s
  q ← (if is_zero a then jump o p else done (p + 1))
  done (go (machine q s gl))
execute o jnz p s gl = do
  (a, s) ← pop s
  q ← (if is_zero a then done (p + 1) else jump o p)
  done (go (machine q s gl))
execute o halt p s gl = done (stop gl)

unfoldable pub step : Object → Machine → Outcome Next
step o m = do v ← fetch o m.pc; execute o (decode v) (m.pc + 1) m.stack m.globals

unfoldable pub run : ℕ → Object → Machine → Outcome Globals
run zero o m = no_fuel
run (suc k) o m = do next ← step o m; elim next [ go m' ↦ run k o m' | stop gl ↦ done gl ]

-- `main` starts with all variables 0.
abbrev pub zeros : Globals
zeros _ = pos 0

-- What `main` does with the tree: `c(program())`, the variables set to 0, `run()`.
unfoldable pub compile_and_run : ℕ → Stmt → Outcome Globals
compile_and_run k s = do o ← c_prog s; run k o (machine 0 [] zeros)
