-- ===== src/Retry.antt =====
-- `retry.Do` of avast/retry-go, as the sources use it: with an action whose value is that of the
-- last attempt. Attempts, delays and the context are those of the function.
use neutron_query_relayer.Prelude.{◌≡◌}
use neutron_query_relayer.Errors.{ok}
use neutron_query_relayer.Exec.{Exec}

-- What it promises: without an error, its last attempt was without an error.
pub record Retries {W A : Type 0} (retry : Exec W A → Exec W A) : Type 0 where
  pub last : (m : Exec W A) (w : W) (a : A) → (retry m w).0 ≡ ok a → (w' : W) × ((m w').0 ≡ ok a)
