-- ===== src/Books/Container/Client.antt =====
-- A caller of a container sees the answers that a list gives.
use c_lang_project.Common.{Bool-cases, List, [], ap, inl, inr, length, refl, ℕ, ◌∷◌, ◌≡◌}
use c_lang_project.Books.Container.{
  Answer, Call, Container, add, call, code, first, is_empty, item, list_call, list_run, remove, run,
  test,
}
use c_lang_project.Lang.Result.{
  ◌>>=◌, Ends, Ends-bind, Result, done, ends, Ends-inv, bind-inv, no_fuel, raise, undefined,
}

module _ (c : Container) where
  abbrev Refined : Result (Answer × c.State) → Result (Answer × List ℕ) → Type 0
  Refined r (done (a, ys)) = Ends (λ p. (p.0 ≡ a) × c.Holds p.1 ys) r
  Refined r m = Unit {0}

  call-Refined :
      (k : Call) (s : c.State) (xs : List ℕ)
      → c.Holds s xs
      → Refined (call c k s) (list_call c.place c.takes k xs)
  call-Refined (add x) s xs h = elim (Bool-cases (c.takes (length xs))) [
    | inl room ↦ rw room (Ends-bind (c.add_law x s xs h room) λ p (e, h'). ends (ap code e, h'))
    | inr full ↦ rw full (Ends-bind (c.full_law x s xs h full) λ p (e, h'). ends (ap code e, h'))
  ]
  call-Refined remove s [] h = tt
  call-Refined remove s (x ∷ xs) h =
      Ends-bind (c.remove_law s x xs h) λ p (e, h'). ends (ap item e, h')
  call-Refined first s [] h = tt
  call-Refined first s (x ∷ xs) h = rw (c.first_law s x xs h) (ends (refl, h))
  call-Refined is_empty s xs h = ends (ap test (c.empty_law s xs h), h)

  abbrev Carries : List Call → Type 0
  Carries ks =
      (s : c.State) (xs : List ℕ) (answers : List Answer)
      → c.Holds s xs
      → list_run c.place c.takes ks xs ≡ done answers
      → run c ks s ≡ done answers

  after_call :
      (ks : List Call) (m : Result (Answer × List ℕ)) (r : Result (Answer × c.State))
      (answers : List Answer)
      → Carries ks
      → Refined r m
      → (m >>= λ p. list_run c.place c.takes ks p.1 >>= λ rest. done (p.0 ∷ rest)) ≡ done answers
      → (r >>= λ p. run c ks p.1 >>= λ rest. done (p.0 ∷ rest)) ≡ done answers
  after_call ks (done (a, ys)) r answers carries h e =
      let ((a', s'), er, (ea, h')) = Ends-inv h in
      let (rest, el, ef) = bind-inv (list_run c.place c.takes ks ys) _ answers e in
      rw (er, carries s' ys rest h' el, ea) ef
  after_call ks (raise x) r answers carries h e = cc
  after_call ks undefined r answers carries h e = cc
  after_call ks no_fuel r answers carries h e = cc

  -- x
  pub run-list_run :
      (ks : List Call) (s : c.State) (xs : List ℕ) (answers : List Answer)
      → c.Holds s xs
      → list_run c.place c.takes ks xs ≡ done answers
      → run c ks s ≡ done answers
  unfolding run list_run
  run-list_run [] s xs answers h e = e
  run-list_run (k ∷ ks) s xs answers h e =
      after_call ks (list_call c.place c.takes k xs) (call c k s) answers
        (λ s xs answers h e. run-list_run ks s xs answers h e) (call-Refined k s xs h) e
