-- ===== src/Fails.antt =====
-- Which errors the actions of the relayer return: a rule for each way to build an action.
use mathlib.Core.Path.{subst}
use neutron_query_relayer.Prelude.{◌≡◌, refl, Bool, true, false, Bytes, if◌then◌else◌}
use neutron_query_relayer.Errors.{
  Error, plain, wrap, not_found, critical, Result, ok, err, context, ◌>>=◌ as ◌>>=r◌,
}
use neutron_query_relayer.Exec.{Exec, pure, raise, lift, wrapping, bind_rule, ◌>>=◌}

-- If the error is critical, what it is critical about has the property.
abbrev pub CriticalIs : (Error → Type 0) → Error → Type 0
CriticalIs P (plain s) = Unit
CriticalIs P (wrap s e) = CriticalIs P e
CriticalIs P not_found = Unit
CriticalIs P (critical e) = P e

abbrev pub FailsAs : {A : Type 0} → (Error → Type 0) → Result A → Type 0
FailsAs P (ok a) = Unit
FailsAs P (err e) = CriticalIs P e

FailsAs-context :
    {A : Type 0} (P : Error → Type 0) (s : Bytes) (r : Result A)
    → FailsAs P r
    → FailsAs P (context s r)
FailsAs-context P s (ok a) h = tt
FailsAs-context P s (err e) h = h

-- An action that fails as said, from every state.
pub record Fails {W A : Type 0} (P : Error → Type 0) (m : Exec W A) : Type 0 where
  pub at : (w : W) → FailsAs P (m w).0

module _ {W : Type 0} (P : Error → Type 0) where
  pub Fails-pure : {A : Type 0} (a : A) → Fails {W = W} P (pure a)
  Fails-pure a = record { at = λ w. tt }

  pub Fails-raise : {A : Type 0} (e : Error) → CriticalIs P e → Fails {W = W} {A = A} P (raise e)
  Fails-raise e h = record { at = λ w. h }

  pub Fails-lift : {A : Type 0} (r : Result A) → FailsAs P r → Fails {W = W} P (lift r)
  Fails-lift r h = record { at = λ w. h }

  pub Fails-if :
      {A : Type 0} (b : Bool) (m n : Exec W A)
      → (b ≡ true → Fails P m)
      → (b ≡ false → Fails P n)
      → Fails P (if b then m else n)
  Fails-if true m n km kn = km refl
  Fails-if false m n km kn = kn refl

  pub Fails-wrapping : {A : Type 0} (s : Bytes) (m : Exec W A) → Fails P m → Fails P (wrapping s m)
  Fails-wrapping s m h = record { at = λ w. FailsAs-context P s (m w).0 (h.at w) }

  pub Fails-bind_eq :
      {A B : Type 0} (m : Exec W A) (f : A → Exec W B)
      → Fails P m
      → ((w : W) (a : A) → (m w).0 ≡ ok a → Fails P (f a))
      → Fails P (m >>= f)
  Fails-bind_eq m f hm hf = record {
    at = λ w.
        bind_rule (λ res _. FailsAs P res) m f w (λ a e. (hf w a e).at (m w).1)
          (λ x e. subst (FailsAs P) e (hm.at w));
  }

  pub Fails-bind :
      {A B : Type 0} (m : Exec W A) (f : A → Exec W B)
      → Fails P m
      → ((a : A) → Fails P (f a))
      → Fails P (m >>= f)
  Fails-bind m f hm hf = Fails-bind_eq m f hm (λ w a e. hf a)

pub FailsAs-bind :
    {A B : Type 0} (P : Error → Type 0) (r : Result A) (f : A → Result B)
    → FailsAs P r
    → ((a : A) → FailsAs P (f a))
    → FailsAs P (r >>=r f)
FailsAs-bind P (ok a) f h g = g a
FailsAs-bind P (err e) f h g = h

CriticalIs-mono : (P : Error → Type 0) (e : Error) → CriticalIs (λ _. ⊥) e → CriticalIs P e
CriticalIs-mono P (plain s) h = tt
CriticalIs-mono P (wrap s e) h = CriticalIs-mono P e h
CriticalIs-mono P not_found h = tt
CriticalIs-mono P (critical e) h = absurd h

pub FailsAs-mono :
    {A : Type 0} (P : Error → Type 0) (r : Result A) → FailsAs (λ _. ⊥) r → FailsAs P r
FailsAs-mono P (ok a) h = tt
FailsAs-mono P (err e) h = CriticalIs-mono P e h

-- What is never critical fails as one likes.
pub Fails-mono : {W A : Type 0} (P : Error → Type 0) (m : Exec W A) → Fails (λ _. ⊥) m → Fails P m
Fails-mono P m h = record { at = λ w. FailsAs-mono P (m w).0 (h.at w) }
