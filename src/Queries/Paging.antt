-- ===== src/Queries/Paging.antt =====
-- The loop over the pages of getNeutronRegisteredQueries (internal/subscriber/utils.go).
use mathlib.Core.Path.{subst}
use neutron_query_relayer.Prelude.{
  ℕ, ◌<◌, ◌≡◌, ◌≢◌, inl, inr, refl, false, Option, none, some, List, [], Bytes, bytes_eq, codes,
  Bool-cases,
}
use neutron_query_relayer.Errors.{Result, ok, err, context-ok}
use neutron_query_relayer.Exec.{pure, lift, wrapping, bind_rule, ◌>>=◌}
use neutron_query_relayer.Loop.{Step, more, done, loop-returns}
use neutron_query_relayer.Registry.{get_addresses}
use neutron_query_relayer.QueryMap.{QueryMap}
use neutron_query_relayer.Queries.{
  Env, Page, add_queries, next_page, fetch_page, get_neutron_registered_queries,
}

-- What the API's pagination promises: a page that is not the last one names a key with fewer
-- queries behind it than the page's own key has.
pub record Advances {W : Type 0} (env : Env W) (remaining : Option Bytes → ℕ) : Type 0 where
  pub next :
      (addresses : List Bytes) (page_key : Option Bytes) (w : W) (page : Page) (key : Bytes)
      → (env.registered_queries addresses env.connection_id page_key w).0 ≡ ok page
      → page.next_key ≡ some key
      → bytes_eq key [] ≡ false
      → remaining (some key) < remaining page_key

module _ {W : Type 0} (env : Env W) (remaining : Option Bytes → ℕ)
    (adv : Advances env remaining) where
  abbrev Lower : Option Bytes → Result (Step (QueryMap × Option Bytes) QueryMap) → Type 0
  Lower page_key (ok (more s)) = remaining s.1 < remaining page_key
  Lower page_key (ok (done m)) = Unit
  Lower page_key (err e) = Unit

  next_page-Lower :
      (page_key : Option Bytes) (m : QueryMap) (o : Option Bytes)
      → ((key : Bytes)
          → o ≡ some key
          → bytes_eq key [] ≡ false
          → remaining (some key) < remaining page_key)
      → Lower page_key (ok (next_page env o m))
  unfolding next_page
  next_page-Lower page_key m none h = tt
  next_page-Lower page_key m (some key) h = elim (Bool-cases (bytes_eq key [])) [
    | inl e ↦ rw e tt
    | inr n ↦ rw n (h key refl n)
  ]

  fetch_page-Lower : (s : QueryMap × Option Bytes) (w : W) → Lower s.1 (fetch_page env s w).0
  unfolding fetch_page
  fetch_page-Lower (m, page_key) w =
      bind_rule (λ r _. Lower page_key r)
        (wrapping (codes "failed to get NeutronInterchainqueriesRegisteredQueries")
          (env.registered_queries (get_addresses env.registry) env.connection_id page_key))
        (λ payload. lift (add_queries env payload.registered_queries m) >>= λ m'.
          pure (next_page env payload.next_key m'))
        w
        (λ payload e.
          bind_rule (λ r _. Lower page_key r) (lift (add_queries env payload.registered_queries m))
            (λ m'. pure (next_page env payload.next_key m')) _
            (λ m' _.
              next_page-Lower page_key m' payload.next_key
                (λ key k n. adv.next _ page_key w payload key (context-ok _ _ e) k n))
            (λ x _. tt))
        (λ x _. tt)

  -- When each next key has fewer queries behind it than its page's own key, the loop over the
  -- pages ends on any fuel above the number for the first page.
  pub get_neutron_registered_queries-returns :
      (fuel : ℕ) (w : W)
      → remaining none < fuel
      → (get_neutron_registered_queries env fuel w).0 ≢ ok none
  unfolding get_neutron_registered_queries
  get_neutron_registered_queries-returns fuel w h =
      loop-returns (fetch_page env) (λ s. remaining s.1)
        (λ s w' s' e. subst (Lower s.1) e (fetch_page-Lower s w')) fuel ([], none) w h
