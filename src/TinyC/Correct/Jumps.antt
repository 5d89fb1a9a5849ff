-- ===== src/TinyC/Correct/Jumps.antt =====
-- The operations of the machine of tinyc.c that statements are made of, one round each.
use c_lang_project.Common.Int.{ℤ}
use c_lang_project.TinyC.Outcome.{done}
use c_lang_project.TinyC.Emit.{back, byte, over}
use c_lang_project.TinyC.Correct.{after-execute}
use c_lang_project.TinyC.Code.{Object, ipop, jmp, jnz, jz}
use c_lang_project.TinyC.Vm.{Globals, execute, go, is_zero, machine}
use c_lang_project.TinyC.Vm.Steps.{At, Steps, jump-back, jump-over}
use c_lang_project.Common.{◌+◌, ◌<◌, List, [], ap, arith, false, true, ℕ, ◌∷◌, ◌≡◌}

pub jz-skips :
    (o : Object) (p q n : ℕ) (v : ℤ) (st : List ℤ) (gl : Globals)
    → At o p (byte jz ∷ over n ∷ [])
    → n + 1 < 128
    → is_zero v ≡ true
    → q ≡ p + n + 2
    → Steps o (machine p (v ∷ st) gl) (machine q st gl)
unfolding execute
jz-skips o p q n v st gl (h, (h', _)) l z e =
    after-execute o p q jz (v ∷ st) st gl gl h (rw (z, jump-over o (p + 1) q n h' l (omega arith)))

pub jz-enters :
    (o : Object) (p q n : ℕ) (v : ℤ) (st : List ℤ) (gl : Globals)
    → At o p (byte jz ∷ over n ∷ [])
    → is_zero v ≡ false
    → q ≡ p + 2
    → Steps o (machine p (v ∷ st) gl) (machine q st gl)
unfolding execute
jz-enters o p q n v st gl (h, _) z e =
    after-execute o p q jz (v ∷ st) st gl gl h
      (rw z (ap (λ r. done (go (machine r st gl))) (omega arith)))

pub jnz-returns :
    (o : Object) (p q n : ℕ) (v : ℤ) (st : List ℤ) (gl : Globals)
    → At o p (byte jnz ∷ back n ∷ [])
    → n < 128
    → is_zero v ≡ false
    → p ≡ q + n
    → Steps o (machine p (v ∷ st) gl) (machine q st gl)
unfolding execute
jnz-returns o p q n v st gl (h, (h', _)) l z e =
    after-execute o p q jnz (v ∷ st) st gl gl h (rw (z, jump-back o (p + 1) q n h' l (omega arith)))

pub jnz-leaves :
    (o : Object) (p q n : ℕ) (v : ℤ) (st : List ℤ) (gl : Globals)
    → At o p (byte jnz ∷ back n ∷ [])
    → is_zero v ≡ true
    → q ≡ p + 2
    → Steps o (machine p (v ∷ st) gl) (machine q st gl)
unfolding execute
jnz-leaves o p q n v st gl (h, _) z e =
    after-execute o p q jnz (v ∷ st) st gl gl h
      (rw z (ap (λ r. done (go (machine r st gl))) (omega arith)))

pub jmp-skips :
    (o : Object) (p q n : ℕ) (st : List ℤ) (gl : Globals)
    → At o p (byte jmp ∷ over n ∷ [])
    → n + 1 < 128
    → q ≡ p + n + 2
    → Steps o (machine p st gl) (machine q st gl)
unfolding execute
jmp-skips o p q n st gl (h, (h', _)) l e =
    after-execute o p q jmp st st gl gl h (rw (jump-over o (p + 1) q n h' l (omega arith)))

pub jmp-returns :
    (o : Object) (p q n : ℕ) (st : List ℤ) (gl : Globals)
    → At o p (byte jmp ∷ back n ∷ [])
    → n < 128
    → p ≡ q + n
    → Steps o (machine p st gl) (machine q st gl)
unfolding execute
jmp-returns o p q n st gl (h, (h', _)) l e =
    after-execute o p q jmp st st gl gl h (rw (jump-back o (p + 1) q n h' l (omega arith)))

pub ipop-Steps :
    (o : Object) (p q : ℕ) (v : ℤ) (st : List ℤ) (gl : Globals)
    → At o p (byte ipop ∷ [])
    → q ≡ p + 1
    → Steps o (machine p (v ∷ st) gl) (machine q st gl)
unfolding execute
ipop-Steps o p q v st gl (h, _) e = after-execute o p q ipop (v ∷ st) st gl gl h (rw e)
