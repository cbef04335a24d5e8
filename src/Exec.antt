-- ===== src/Exec.antt =====
-- Methods that act on a state and may return an error: what was done before the error stays done.
use neutron_query_relayer.Prelude.{Bytes, ◌≡◌, refl}
use neutron_query_relayer.Errors.{Error, Result, ok, err, context}

abbrev pub Exec {ℓ} : Type ℓ → Type ℓ → Type ℓ
Exec S A = S → Result A × S

module _ {ℓ} {S A : Type ℓ} where
  abbrev pub pure : A → Exec S A
  pure a s = (ok a, s)

  abbrev pub raise : Error → Exec S A
  raise e s = (err e, s)

  abbrev pub lift : Result A → Exec S A
  lift r s = (r, s)

  -- `err` and the state go on with the text before the error
  abbrev pub wrapping : Bytes → Exec S A → Exec S A
  wrapping t m s = let (r, s') = m s in (context t r, s')

  -- the result, an error included, as a value
  abbrev pub attempt : Exec S A → Exec S (Result A)
  attempt m s = let (r, s') = m s in (ok r, s')

module _ {ℓ} {S A B : Type ℓ} where
  abbrev pub continue : Result A → (A → Exec S B) → Exec S B
  continue (ok a) f s = f a s
  continue (err e) f s = (err e, s)

  infixl 5 ◌>>=◌ ◌>>◌
  abbrev pub ◌>>=◌ : Exec S A → (A → Exec S B) → Exec S B
  ◌>>=◌ m f s = let (r, s') = m s in continue r f s'

  abbrev pub ◌>>◌ : Exec S A → Exec S B → Exec S B
  m >> k = m >>= λ _. k

-- What holds after `m >>= f`: by what `m` returned, in the state that it left.
module _ {ℓ κ} {S A B : Type ℓ} (Q : Result B → S → Type κ) (m : Exec S A) (f : A → Exec S B) where
  continue_rule :
      (r : Result A) (s : S)
      → ((a : A) → r ≡ ok a → Q (f a s).0 (f a s).1)
      → ((e : Error) → r ≡ err e → Q (err e) s)
      → Q (continue r f s).0 (continue r f s).1
  continue_rule (ok a) s h g = h a refl
  continue_rule (err e) s h g = g e refl

  pub bind_rule :
      (s : S)
      → ((a : A) → (m s).0 ≡ ok a → Q (f a (m s).1).0 (f a (m s).1).1)
      → ((e : Error) → (m s).0 ≡ err e → Q (err e) (m s).1)
      → Q ((m >>= f) s).0 ((m >>= f) s).1
  bind_rule s h g = continue_rule (m s).0 (m s).1 h g
