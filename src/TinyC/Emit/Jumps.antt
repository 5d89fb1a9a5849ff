-- ===== src/TinyC/Emit/Jumps.antt =====
-- The jumps that the code generator of tinyc.c fills in when it knows where they go.
use mathlib.Core.List.{append_assoc}
use c_lang_project.Common.Int.{sub_ℕ, ℤ, pos}
use c_lang_project.TinyC.Outcome.{◌>>=◌}
use c_lang_project.TinyC.Emit.{
  Writes, back, byte, fix-append, g-Writes, hole-ok, over, sub_ℕ-back, sub_ℕ-over,
}
use c_lang_project.TinyC.Syntax.{Stmt}
use c_lang_project.TinyC.Outcome.{Outcome, done}
use c_lang_project.TinyC.Code.{Object, c, fix, g, hole, jmp, object_size, opcode}
use c_lang_project.Common.{
  ◌+◌, ◌++◌, [], ap, arith, length, length-append, refl, sym, ℕ, ◌∙◌, ◌∷◌, ◌≡◌, ◌≤◌,
}

-- A hole, and behind it code at whose end the hole is filled: a jump over that code.
unfoldable pub jump_over : (Object → Outcome Object) → Object → Outcome Object
jump_over k o = do (p, o) ← hole o; o ← k o; done (fix p (length o) o)

-- Behind the hole at the end of `q`.
fill_over :
    (k : Object → Outcome Object) (q ys : Object) (p : ℕ)
    → Writes k ys
    → p ≡ length q
    → length q + 1 + length ys ≤ object_size
    → (k (q ++ pos 0 ∷ []) >>= λ o. done (fix p (length o) o)) ≡ done (q ++ over (length ys) ∷ ys)
fill_over k q ys p hk e h =
    let dist : sub_ℕ (length (q ++ pos 0 ∷ ys)) (length q) ≡ pos (length ys + 1) =
      sub_ℕ-over _ _ (length ys) (omega (arith, length-append q (pos 0 ∷ ys))) in
    rw (
      e,
      hk (q ++ pos 0 ∷ []) (omega (arith, length-append q (pos 0 ∷ []))),
      append_assoc,
      fix-append q ys (pos 0) (length (q ++ pos 0 ∷ ys)),
      dist,
    )

pub jump_over-Writes :
    (k : Object → Outcome Object) (ys : Object)
    → Writes k ys
    → Writes (jump_over k) (over (length ys) ∷ ys)
unfolding jump_over
jump_over-Writes k ys hk o h =
    rw (hole-ok o (omega arith)) (fill_over k o ys (length o) hk refl (omega arith))

-- What `c` writes of IF2 behind the test.
unfoldable pub arms : Stmt → Stmt → Object → Outcome Object
arms s t o = do
  (p1, o) ← hole o
  o ← c s o
  o ← g (opcode jmp) o
  (p2, o) ← hole o
  let o' = fix p1 (length o) o
  o ← c t o'
  done (fix p2 (length o) o)

-- The hole behind the test of IF2, filled once the jump behind the first arm has its own.
front_lem :
    (o ys : Object) (y : ℤ)
    → fix
        (length o)
        (length ((o ++ pos 0 ∷ (ys ++ byte jmp ∷ [])) ++ y ∷ []))
        ((o ++ pos 0 ∷ (ys ++ byte jmp ∷ [])) ++ y ∷ [])
      ≡ (o ++ over (length ys + 2) ∷ (ys ++ byte jmp ∷ [])) ++ y ∷ []
front_lem o ys y =
    let rest : Object = (ys ++ byte jmp ∷ []) ++ y ∷ [] in
    let size : length rest ≡ length ys + 2 =
      omega
        (arith, length-append (ys ++ byte jmp ∷ []) (y ∷ []), length-append ys (byte jmp ∷ [])) in
    let dist : sub_ℕ (length (o ++ pos 0 ∷ rest)) (length o) ≡ pos (length ys + 2 + 1) =
      sub_ℕ-over _ _ (length ys + 2) (omega (arith, size, length-append o (pos 0 ∷ rest))) in
    rw
      (
        append_assoc o (pos 0 ∷ (ys ++ byte jmp ∷ [])) (y ∷ []),
        fix-append o rest (pos 0) (length (o ++ pos 0 ∷ rest)),
        dist,
      )
      (sym (append_assoc o (over (length ys + 2) ∷ (ys ++ byte jmp ∷ [])) (y ∷ [])))

pub arms-Writes :
    (s t : Stmt) (ys zs : Object)
    → Writes (c s) ys
    → Writes (c t) zs
    → Writes (arms s t) (over (length ys + 2) ∷ (ys ++ byte jmp ∷ over (length zs) ∷ zs))
unfolding arms
arms-Writes s t ys zs hs ht o h =
    let jump : Object = byte jmp ∷ [] in
    let room = length-append ys (byte jmp ∷ over (length zs) ∷ zs) in
    let x : ℤ = over (length ys + 2) in
    let o2 : Object = o ++ pos 0 ∷ (ys ++ jump) in
    let q : Object = o ++ x ∷ (ys ++ jump) in
    let size : length o2 ≡ length o + length ys + 2 =
      omega (arith, length-append o (pos 0 ∷ (ys ++ jump)), length-append ys jump) in
    let size' : length q ≡ length o + length ys + 2 =
      omega (arith, length-append o (x ∷ (ys ++ jump)), length-append ys jump) in
    let front : fix (length o) (length (o2 ++ pos 0 ∷ [])) (o2 ++ pos 0 ∷ []) ≡ q ++ pos 0 ∷ [] =
      front_lem o ys (pos 0) in
    rw
      (
        hole-ok o (omega arith),
        hs (o ++ pos 0 ∷ []) (omega (arith, room, length-append o (pos 0 ∷ []))),
        append_assoc,
        g-Writes (opcode jmp) (o ++ pos 0 ∷ ys) (omega (arith, room, length-append o (pos 0 ∷ ys))),
        append_assoc,
        hole-ok o2 (omega (arith, room, size)),
        front,
      )
      (fill_over (c t) q zs (length o2) ht (size ∙ sym size') (omega (arith, room, size'))
        ∙ ap done (
            append_assoc o (x ∷ (ys ++ jump)) (over (length zs) ∷ zs)
            ∙ ap (λ r. o ++ x ∷ r) (append_assoc ys jump (over (length zs) ∷ zs))))

-- What `c` writes of WHILE behind the test, where the statement began at `p1`.
unfoldable pub body : ℕ → Stmt → Object → Outcome Object
body p1 s o = do
  (p2, o) ← hole o
  o ← c s o
  o ← g (opcode jmp) o
  (p3, o) ← hole o
  let o' = fix p3 p1 o
  done (fix p2 (length o') o')

-- A hole filled at once, by a jump back to `p`.
pub fill_back :
    (q : Object) (p n : ℕ)
    → length q ≡ p + n + 1
    → fix (length q) p (q ++ pos 0 ∷ []) ≡ q ++ back n ∷ []
fill_back q p n e = rw (fix-append q [] (pos 0) p, sub_ℕ-back p (length q) n e)

pub body-Writes :
    (p1 n : ℕ) (s : Stmt) (ys o : Object)
    → Writes (c s) ys
    → length o + length ys + 1 ≡ p1 + n
    → length o + length ys + 3 ≤ object_size
    → body p1 s o ≡ done (o ++ over (length ys + 2) ∷ (ys ++ byte jmp ∷ back n ∷ []))
unfolding body
body-Writes p1 n s ys o hs e h =
    let jump : Object = byte jmp ∷ [] in
    let o2 : Object = o ++ pos 0 ∷ (ys ++ jump) in
    let size : length o2 ≡ length o + length ys + 2 =
      omega (arith, length-append o (pos 0 ∷ (ys ++ jump)), length-append ys jump) in
    rw
      (
        hole-ok o (omega arith),
        hs (o ++ pos 0 ∷ []) (omega (arith, length-append o (pos 0 ∷ []))),
        append_assoc,
        g-Writes (opcode jmp) (o ++ pos 0 ∷ ys) (omega (arith, length-append o (pos 0 ∷ ys))),
        append_assoc,
        hole-ok o2 (omega (arith, size)),
        fill_back o2 p1 n (omega (arith, size)),
        front_lem o ys (back n),
      )
      (ap done (
        append_assoc o (over (length ys + 2) ∷ (ys ++ jump)) (back n ∷ [])
        ∙ ap (λ r. o ++ over (length ys + 2) ∷ r) (append_assoc ys jump (back n ∷ []))))
