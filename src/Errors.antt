-- ===== src/Errors.antt =====
-- Errors as values, after the way the sources build and inspect them: `errors.New` and
-- `fmt.Errorf` without a wrapped error, `fmt.Errorf("text: %w", err)`, the sentinel
-- `leveldb.ErrNotFound`, and the struct `ErrSubmitTxProofCritical` of internal/relay/txprocessor.go.
-- The text of a message leaves out the arguments that the sources interpolate into it.
use neutron_query_relayer.Prelude.{
  ◌⊎◌, inl, inr, ◌≡◌, refl, Bool, true, false, Option, none, some, ◌++◌, Bytes, codes,
}

pub data Error : Type 0 where
  plain : Bytes → Error
  wrap : Bytes → Error → Error
  not_found : Error
  critical : Error → Error

-- err.Error()
unfoldable pub message : Error → Bytes
message (plain s) = s
message (wrap s e) = s ++ (codes ": " ++ message e)
message not_found = codes "leveldb: not found"
message (critical e) = codes "failed to submit tx proof: " ++ message e

-- errors.Unwrap
abbrev pub unwrap : Error → Option Error
unwrap (wrap s e) = some e
unwrap _ = none

-- errors.As(err, &critErr): the struct has no `Unwrap`, so the chain ends at it
unfoldable pub as_critical : Error → Bool
as_critical (wrap s e) = as_critical e
as_critical (critical e) = true
as_critical (plain s) = false
as_critical not_found = false

-- errors.Is(err, leveldb.ErrNotFound)
unfoldable pub is_not_found : Error → Bool
is_not_found (wrap s e) = is_not_found e
is_not_found not_found = true
is_not_found (plain s) = false
is_not_found (critical e) = false

-- What a function that may fail returns: an error, or its value.
pub data Result {ℓ} (A : Type ℓ) : Type ℓ where
  err : Error → Result A
  ok : A → Result A

-- `if err != nil { return err }`
module _ {ℓ κ} {A : Type ℓ} {B : Type κ} where
  infixl 5 ◌>>=◌ ◌>>◌
  abbrev pub ◌>>=◌ : Result A → (A → Result B) → Result B
  ◌>>=◌ (err e) rest = err e
  ◌>>=◌ (ok a) rest = rest a

  abbrev pub ◌>>◌ : Result A → Result B → Result B
  first >> second = first >>= λ _. second

-- `if err != nil { return fmt.Errorf("text: %w", err) }`
abbrev pub context {ℓ} : {A : Type ℓ} → Bytes → Result A → Result A
context s (ok a) = ok a
context s (err e) = err (wrap s e)

pub context-ok {ℓ} : {A : Type ℓ} (s : Bytes) (r : Result A) {a : A} → context s r ≡ ok a → r ≡ ok a
context-ok s (ok a) h = h
context-ok s (err e) h = cc

-- A chain that gives a value had one from its first part.
pub >>=-ok {ℓ κ} :
    {A : Type ℓ} {B : Type κ} (first : Result A) (rest : A → Result B) {b : B}
    → (first >>= rest) ≡ ok b
    → (a : A) × (first ≡ ok a) × (rest a ≡ ok b)
>>=-ok (err e) rest h = cc
>>=-ok (ok a) rest h = (a, refl, h)

pub Result-cases {ℓ} :
    {A : Type ℓ} (r : Result A) → ((a : A) × (r ≡ ok a)) ⊎ ((e : Error) × (r ≡ err e))
Result-cases (ok a) = inl (a, refl)
Result-cases (err e) = inr (e, refl)

-- What holds of `m >>= f`, by what `m` is.
pub result_rule {ℓ κ μ} :
    {A : Type ℓ} {B : Type κ} (Q : Result B → Type μ) (m : Result A) (f : A → Result B)
    → ((a : A) → m ≡ ok a → Q (f a))
    → ((e : Error) → m ≡ err e → Q (err e))
    → Q (m >>= f)
result_rule Q (ok a) f h g = h a refl
result_rule Q (err e) f h g = g e refl
