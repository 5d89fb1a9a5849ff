-- ===== src/TinyC/Correct.antt =====
-- The code of an expression or a statement of the tiny C language does what it means.
pub mod Jumps
pub mod Branches
pub mod Program
use c_lang_project.TinyC.Meaning.{IsSmall, eval}
use c_lang_project.Common.Int.{ℤ, pos, ◌+ℤ◌, ◌-ℤ◌}
use c_lang_project.TinyC.Emit.{byte, emit_expr}
use c_lang_project.TinyC.Code.{Object, Op, iadd, ifetch, ilt, ipush, istore, isub, wrap8}
use c_lang_project.TinyC.Vm.{
  Globals, execute, go, machine, push, stack_size, update, var_index, check_int, less,
}
use c_lang_project.TinyC.Syntax.{Expr, add, cst, lt, set_var, sub, var}
use c_lang_project.TinyC.Vm.Steps.{
  At, Steps, after, stay, step-execute, wrap8-pos, At-left, At-right, Steps-trans,
}
use c_lang_project.Common.{
  ◌+◌, ◌++◌, ◌<◌, List, [], ap, arith, get_elem?, length, length-append, lt→ltb, some, ℕ, ◌∙◌, ◌∷◌,
  ◌≡◌, ◌≤◌, refl,
}
use c_lang_project.TinyC.Outcome.{◌>>=◌, done, Outcome, >>=-eq-done}

-- Between the operations, the machine goes on behind the operands.
pub after-execute :
    (o : Object) (p q : ℕ) (op : Op) (st st' : List ℤ) (gl gl' : Globals)
    → get_elem? o p ≡ some (byte op)
    → execute o op (p + 1) st gl ≡ done (go (machine q st' gl'))
    → Steps o (machine p st gl) (machine q st' gl')
after-execute o p q op st st' gl gl' h e = after (step-execute o p op st gl h ∙ e) stay

pub emit_expr-some : (e : Expr) → 1 ≤ length (emit_expr e)
unfolding emit_expr
emit_expr-some (var v) = omega arith
emit_expr-some (cst n) = omega arith
emit_expr-some (add a b) =
    omega (arith, emit_expr-some a, length-append (emit_expr a) (emit_expr b ++ byte iadd ∷ []))
emit_expr-some (sub a b) =
    omega (arith, emit_expr-some a, length-append (emit_expr a) (emit_expr b ++ byte isub ∷ []))
emit_expr-some (lt a b) =
    omega (arith, emit_expr-some a, length-append (emit_expr a) (emit_expr b ++ byte ilt ∷ []))
emit_expr-some (set_var v a) =
    omega (arith, emit_expr-some a, length-append (emit_expr a) (byte istore ∷ wrap8 (pos v) ∷ []))

fetch-Steps :
    (o : Object) (p v : ℕ) (st : List ℤ) (gl : Globals)
    → At o p (byte ifetch ∷ wrap8 (pos v) ∷ [])
    → v < 26
    → length st < stack_size
    → Steps o (machine p st gl) (machine (p + 2) (gl v ∷ st) gl)
unfolding execute push var_index
fetch-Steps o p v st gl (h, (h', _)) l room =
    after-execute o p (p + 2) ifetch st (gl v ∷ st) gl gl h (
      rw (h', wrap8-pos v (omega arith), lt→ltb v 26 l, lt→ltb (length st) 1000 room)
        (ap (λ q. done (go (machine q (gl v ∷ st) gl))) (omega arith)))

push-Steps :
    (o : Object) (p n : ℕ) (st : List ℤ) (gl : Globals)
    → At o p (byte ipush ∷ wrap8 (pos n) ∷ [])
    → n < 128
    → length st < stack_size
    → Steps o (machine p st gl) (machine (p + 2) (pos n ∷ st) gl)
unfolding execute push
push-Steps o p n st gl (h, (h', _)) l room =
    after-execute o p (p + 2) ipush st (pos n ∷ st) gl gl h (
      rw (h', wrap8-pos n l, lt→ltb (length st) 1000 room)
        (ap (λ q. done (go (machine q (pos n ∷ st) gl))) (omega arith)))

store-Steps :
    (o : Object) (p v : ℕ) (n : ℤ) (st : List ℤ) (gl : Globals)
    → At o p (byte istore ∷ wrap8 (pos v) ∷ [])
    → v < 26
    → Steps o (machine p (n ∷ st) gl) (machine (p + 2) (n ∷ st) (update gl v n))
unfolding execute var_index
store-Steps o p v n st gl (h, (h', _)) l =
    after-execute o p (p + 2) istore (n ∷ st) (n ∷ st) gl (update gl v n) h (
      rw (h', wrap8-pos v (omega arith), lt→ltb v 26 l)
        (ap (λ q. done (go (machine q (n ∷ st) (update gl v n)))) (omega arith)))

-- From wherever its code stands, the machine ends behind it, with the value on the stack.
abbrev pub Computes : Expr → Type 0
Computes e =
    (o : Object) (p q : ℕ) (st : List ℤ) (gl : Globals) (v : ℤ) (gl' : Globals)
    → At o p (emit_expr e)
    → q ≡ p + length (emit_expr e)
    → length st + length (emit_expr e) ≤ stack_size
    → eval e gl ≡ done (v, gl')
    → Steps o (machine p st gl) (machine q (v ∷ st) gl')

-- The operation takes two values from the stack, and puts back one.
abbrev Combines : Op → (ℤ → ℤ → Outcome ℤ) → Type 0
Combines op f =
    (o : Object) (p : ℕ) (x y v : ℤ) (st : List ℤ) (gl : Globals)
    → f x y ≡ done v
    → execute o op p (y ∷ x ∷ st) gl ≡ done (go (machine p (v ∷ st) gl))

abbrev binary : (ℤ → ℤ → Outcome ℤ) → Expr → Expr → Globals → Outcome (ℤ × Globals)
binary f a b gl = do (x, gl1) ← eval a gl; (y, gl2) ← eval b gl1; n ← f x y; done (n, gl2)

module _ (op : Op) (f : ℤ → ℤ → Outcome ℤ) (combined : Combines op f) where
  combine-Steps :
      (o : Object) (p q : ℕ) (x y v : ℤ) (st : List ℤ) (gl : Globals)
      → At o p (byte op ∷ [])
      → q ≡ p + 1
      → f x y ≡ done v
      → Steps o (machine p (y ∷ x ∷ st) gl) (machine q (v ∷ st) gl)
  combine-Steps o p q x y v st gl (h, _) e r =
      after-execute o p q op (y ∷ x ∷ st) (v ∷ st) gl gl h (rw e (combined o (p + 1) x y v st gl r))

  binary-Steps :
      (a b : Expr)
      → Computes a
      → Computes b
      → (o : Object) (p q : ℕ) (st : List ℤ) (gl : Globals) (v : ℤ) (gl' : Globals)
      → At o p (emit_expr a ++ (emit_expr b ++ byte op ∷ []))
      → q ≡ p + length (emit_expr a ++ (emit_expr b ++ byte op ∷ []))
      → length st + length (emit_expr a ++ (emit_expr b ++ byte op ∷ [])) ≤ stack_size
      → binary f a b gl ≡ done (v, gl')
      → Steps o (machine p st gl) (machine q (v ∷ st) gl')
  binary-Steps a b ca cb o p q st gl v gl' h e room r =
      let xs : Object = emit_expr a in
      let ys : Object = emit_expr b in
      let len : length (xs ++ (ys ++ byte op ∷ [])) ≡ length xs + length ys + 1 =
        omega (arith, length-append xs (ys ++ byte op ∷ []), length-append ys (byte op ∷ [])) in
      let ((x, gl1), r1, r') = >>=-eq-done (eval a gl) _ r in
      let ((y, gl2), r2, r'') = >>=-eq-done (eval b gl1) _ r' in
      let (n, r3, r4) = >>=-eq-done (f x y) _ r'' in
      let same : (n ≡ v) × (gl2 ≡ gl') = (cc, cc) in
      let m : ℕ = p + length xs in
      let h' = At-right o p m xs (ys ++ byte op ∷ []) h refl in
      let h'' = At-right o m (m + length ys) ys (byte op ∷ []) h' refl in
      Steps-trans (ca o p m st gl x gl1 (At-left o p xs _ h) refl (omega (arith, len)) r1) (
        Steps-trans
          (cb o m (m + length ys) (x ∷ st) gl1 y gl2 (At-left o m ys _ h') refl
            (omega (arith, len, emit_expr-some a)) r2)
          (rw (← same.0, ← same.1)
            (combine-Steps o (m + length ys) q x y n st gl2 h'' (omega (arith, e, len)) r3)))

var-Computes : (v : ℕ) → v < 26 → Computes (var v)
unfolding emit_expr eval
var-Computes v l o p q st gl w gl' h e room r =
    let same : (gl v ≡ w) × (gl ≡ gl') = (cc, cc) in
    rw (e, ← same.0, ← same.1) (fetch-Steps o p v st gl h l (omega arith))

cst-Computes : (n : ℕ) → n < 128 → Computes (cst n)
unfolding emit_expr eval
cst-Computes n l o p q st gl w gl' h e room r =
    let same : (pos n ≡ w) × (gl ≡ gl') = (cc, cc) in
    rw (e, ← same.0, ← same.1) (push-Steps o p n st gl h l (omega arith))

set_var-Computes : (v : ℕ) (a : Expr) → v < 26 → Computes a → Computes (set_var v a)
unfolding emit_expr eval
set_var-Computes v a l ca o p q st gl w gl' h e room r =
    let xs : Object = emit_expr a in
    let ys : Object = byte istore ∷ wrap8 (pos v) ∷ [] in
    let len = length-append xs ys in
    let ((n, gl1), r1, r2) = >>=-eq-done (eval a gl) _ r in
    let same : (n ≡ w) × (update gl1 v n ≡ gl') = (cc, cc) in
    let end : q ≡ p + length xs + 2 = omega (arith, e, len) in
    rw (end, ← same.0, ← same.1)
      (Steps-trans
        (ca o p (p + length xs) st gl n gl1 (At-left o p xs ys h) refl (omega (arith, len)) r1)
        (store-Steps o (p + length xs) v n st gl1 (At-right o p (p + length xs) xs ys h refl) l))

-- The code of an expression computes its value.
pub emit_expr-Computes : (e : Expr) → IsSmall e → Computes e
unfolding emit_expr eval execute
emit_expr-Computes (var v) l = var-Computes v l
emit_expr-Computes (cst n) l = cst-Computes n l
emit_expr-Computes (add a b) (la, lb) =
    binary-Steps iadd (λ x y. check_int (x +ℤ y)) (λ o p x y v st gl r. rw r) a b
      (emit_expr-Computes a la) (emit_expr-Computes b lb)
emit_expr-Computes (sub a b) (la, lb) =
    binary-Steps isub (λ x y. check_int (x -ℤ y)) (λ o p x y v st gl r. rw r) a b
      (emit_expr-Computes a la) (emit_expr-Computes b lb)
emit_expr-Computes (lt a b) (la, lb) =
    binary-Steps ilt (λ x y. done (less x y)) (λ o p x y v st gl r. rw (as_done (less x y) v r)) a b
      (emit_expr-Computes a la) (emit_expr-Computes b lb)
  where
    as_done : (x y : ℤ) → done x ≡ done y → x ≡ y
    as_done x y r = cc
emit_expr-Computes (set_var v a) (l, la) = set_var-Computes v a l (emit_expr-Computes a la)
