-- ===== src/TinyC/Vm/Steps.antt =====
-- Runs of the machine of tinyc.c, round by round, and code that stands somewhere in `object`.
use mathlib.Core.List.{append_assoc}
use c_lang_project.TinyC.Outcome.{done}
use c_lang_project.TinyC.Emit.{back, byte, over}
use c_lang_project.TinyC.Code.{
  Object, Op, halt, iadd, ifetch, ilt, ipop, ipush, istore, isub, jmp, jnz, jz, wrap8,
}
use c_lang_project.Common.{
  ◌+◌, ◌++◌, ◌<◌, List, [], arith, get_elem?, length, length-append, refl, some, subst, suc, zero,
  ℕ, ◌∷◌, ◌≡◌,
}
use c_lang_project.Common.Int.{pos, negsuc, ℤ, ◌+ℤ◌}
use c_lang_project.TinyC.Vm.{machine, Machine, step, run, execute, jump, Globals, decode, go, stop}

pub data Steps (o : Object) : Machine → Machine → Type 0 where
  stay : {m : Machine} → Steps o m m
  after : {m m' m'' : Machine} → step o m ≡ done (go m') → Steps o m' m'' → Steps o m m''

pub Steps-trans : {o : Object} {m m' m'' : Machine} → Steps o m m' → Steps o m' m'' → Steps o m m''
Steps-trans stay later = later
Steps-trans (after e r) later = after e (Steps-trans r later)

run-stop :
    (o : Object) (m : Machine) (gl : Globals) (j : ℕ)
    → step o m ≡ done (stop gl)
    → 0 < j
    → run j o m ≡ done gl
unfolding run
run-stop o m gl zero h l = absurd (omega arith)
run-stop o m gl (suc j) h l = rw h

run-go :
    (o : Object) (m m' : Machine) (gl : Globals) (k j : ℕ)
    → step o m ≡ done (go m')
    → ((i : ℕ) → k < i → run i o m' ≡ done gl)
    → suc k < j
    → run j o m ≡ done gl
unfolding run
run-go o m m' gl k zero e found l = absurd (omega arith)
run-go o m m' gl k (suc j) e found l = rw e (found j (omega arith))

-- The rounds end, so `run` does, with any fuel above their number.
pub run-Steps :
    {o : Object} {m m' : Machine} (gl : Globals)
    → Steps o m m'
    → step o m' ≡ done (stop gl)
    → (k : ℕ) × ((j : ℕ) → k < j → run j o m ≡ done gl)
run-Steps gl stay h = (0, λ j l. run-stop _ _ gl j h l)
run-Steps gl (after e r) h =
    let (k, found) = run-Steps gl r h in (suc k, λ j l. run-go _ _ _ gl k j e found l)

-- `xs` stands in `object` from `p` on.
abbrev pub At : Object → ℕ → Object → Type 0
At o p [] = Unit
At o p (x ∷ xs) = (get_elem? o p ≡ some x) × At o (p + 1) xs

pub At-left : (o : Object) (p : ℕ) (xs ys : Object) → At o p (xs ++ ys) → At o p xs
At-left o p [] ys h = tt
At-left o p (x ∷ xs) ys (e, h) = (e, At-left o (p + 1) xs ys h)

pub At-right :
    (o : Object) (p q : ℕ) (xs ys : Object) → At o p (xs ++ ys) → q ≡ p + length xs → At o q ys
At-right o p q [] ys h e = let same : p ≡ q = omega arith in subst (λ r. At o r ys) same h
At-right o p q (x ∷ xs) ys (_, h) e = At-right o (p + 1) q xs ys h (omega arith)

At-behind : (pre o : Object) (p : ℕ) → p ≡ length pre → At (pre ++ o) p o
At-behind pre [] p e = tt
At-behind pre (x ∷ o) p e = (
  rw e (get_elem?-behind pre),
  subst (λ r. At r (p + 1) o) (append_assoc pre (x ∷ []) o)
      (At-behind (pre ++ x ∷ []) o (p + 1) (omega (arith, length-append pre (x ∷ [])))),
)
  where
    get_elem?-behind : (ys : Object) → get_elem? (ys ++ x ∷ o) (length ys) ≡ some x
    get_elem?-behind [] = refl
    get_elem?-behind (y ∷ ys) = get_elem?-behind ys

pub At-whole : (o : Object) → At o 0 o
At-whole o = At-behind [] o 0 refl

decode-byte : (op : Op) → decode (byte op) ≡ op
unfolding wrap8
decode-byte ifetch = refl
decode-byte istore = refl
decode-byte ipush = refl
decode-byte ipop = refl
decode-byte iadd = refl
decode-byte isub = refl
decode-byte ilt = refl
decode-byte jz = refl
decode-byte jnz = refl
decode-byte jmp = refl
decode-byte halt = refl

-- One round is what the operation at `p` does.
pub step-execute :
    (o : Object) (p : ℕ) (op : Op) (st : List ℤ) (gl : Globals)
    → get_elem? o p ≡ some (byte op)
    → step o (machine p st gl) ≡ execute o op (p + 1) st gl
unfolding step
step-execute o p op st gl h = rw (h, decode-byte op)

pub wrap8-pos : (n : ℕ) → n < 128 → wrap8 (pos n) ≡ pos n
unfolding wrap8
wrap8-pos n h = ground arith

pub wrap8-negsuc : (n : ℕ) → n < 128 → wrap8 (negsuc n) ≡ negsuc n
unfolding wrap8
wrap8-negsuc n h = ground arith

pub jump-over :
    (o : Object) (p q n : ℕ)
    → get_elem? o p ≡ some (over n)
    → n + 1 < 128
    → q ≡ p + n + 1
    → jump o p ≡ done q
unfolding jump ◌+ℤ◌
jump-over o p q n h l e = rw (h, wrap8-pos (n + 1) l) (ground arith)

pub jump-back :
    (o : Object) (p q n : ℕ)
    → get_elem? o p ≡ some (back n)
    → n < 128
    → p ≡ q + n + 1
    → jump o p ≡ done q
unfolding jump ◌+ℤ◌
jump-back o p q n h l e = rw (h, wrap8-negsuc n l) (ground arith)
