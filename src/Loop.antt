-- ===== src/Loop.antt =====
-- A `for` loop that ends from its body, run on fuel.
use neutron_query_relayer.Prelude.{ℕ, zero, suc, ◌<◌, ◌≡◌, ◌≢◌, Option, none, some, arith}
use neutron_query_relayer.Errors.{Error, Result, ok, err}
use neutron_query_relayer.Exec.{Exec, pure, bind_rule, ◌>>=◌}

-- what one run of the body ends with: the next iteration's variables, or the loop's value
pub data Step (S A : Type 0) : Type 0 where
  more : S → Step S A
  done : A → Step S A

module _ {W S A : Type 0} (body : S → Exec W (Step S A)) where
  abbrev next : (S → Exec W (Option A)) → Step S A → Exec W (Option A)
  next again (more s) = again s
  next again (done a) = pure (some a)

  -- `none` says that the fuel ran out
  unfoldable pub loop : ℕ → S → Exec W (Option A)
  loop zero s = pure none
  loop (suc n) s = body s >>= next (loop n)

  -- What holds after a loop: by an invariant of its variables and the state.
  module _ (Inv : S → W → Type 0) (Q : Result (Option A) → W → Type 0)
      (on_more : (s : S) (w : W) (s' : S)
        → Inv s w
        → (body s w).0 ≡ ok (more s')
        → Inv s' (body s w).1)
      (on_done : (s : S) (w : W) (a : A)
        → Inv s w
        → (body s w).0 ≡ ok (done a)
        → Q (ok (some a)) (body s w).1)
      (on_err : (s : S) (w : W) (e : Error)
        → Inv s w
        → (body s w).0 ≡ err e
        → Q (err e) (body s w).1)
      (on_fuel : (s : S) (w : W) → Inv s w → Q (ok none) w) where
    next_rule :
        (again : S → Exec W (Option A))
        → ((s : S) (w : W) → Inv s w → Q (again s w).0 (again s w).1)
        → (s : S) (w : W) (r : Step S A) → Inv s w
        → (body s w).0 ≡ ok r
        → Q (next again r (body s w).1).0 (next again r (body s w).1).1
    next_rule again k s w (more s') h e = k s' (body s w).1 (on_more s w s' h e)
    next_rule again k s w (done a) h e = on_done s w a h e

    pub loop_rule : (n : ℕ) (s : S) (w : W) → Inv s w → Q (loop n s w).0 (loop n s w).1
    unfolding loop
    loop_rule zero s w h = on_fuel s w h
    loop_rule (suc n) s w h =
        bind_rule Q (body s) (next (loop n)) w (λ r e. next_rule (loop n) (loop_rule n) s w r h e)
          (λ x e. on_err s w x h e)

  -- A loop whose body always lowers a measure ends on any fuel above the measure.
  module _ (measure : S → ℕ)
      (lowers : (s : S) (w : W) (s' : S)
        → (body s w).0 ≡ ok (more s')
        → measure s' < measure s) where
    next-returns :
        (n : ℕ) (again : S → Exec W (Option A))
        → ((s : S) (w : W) → measure s < n → (again s w).0 ≢ ok none)
        → (s : S) (w : W) (r : Step S A) → measure s < suc n
        → (body s w).0 ≡ ok r
        → (next again r (body s w).1).0 ≢ ok none
    next-returns n again k s w (more s') m e = k s' (body s w).1 (omega (arith, lowers s w s' e, m))
    next-returns n again k s w (done a) m e = λ h. cc

    pub loop-returns : (n : ℕ) (s : S) (w : W) → measure s < n → (loop n s w).0 ≢ ok none
    unfolding loop
    loop-returns zero s w m = λ h. absurd (omega (arith, m))
    loop-returns (suc n) s w m =
        bind_rule (λ r _. r ≢ ok none) (body s) (next (loop n)) w
          (λ r e. next-returns n (loop n) (loop-returns n) s w r m e) (λ x e h. cc)
