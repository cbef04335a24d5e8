-- ===== src/TrustedHeaders/Suitable.antt =====
-- Fetch (internal/trusted_headers/fetcher.go): trusted heights, and what a header carries.
use mathlib.Core.Path.{subst}
use neutron_query_relayer.Prelude.{ℕ, ◌+◌, ◌%◌, ◌≡◌, refl, Option, none, some, codes, u64}
use neutron_query_relayer.Errors.{Result, ok, err, context-ok}
use neutron_query_relayer.Exec.{pure, lift, wrapping, bind_rule, ◌>>=◌}
use neutron_query_relayer.RestQuery.{Height}
use neutron_query_relayer.TrustedHeaders.{
  TrustedHeaderFetcher, get_trusted_height, retry_get_light_signed_header_at_height,
  trusted_header_at_height, fetch_at, fetch, tm_header, query_header,
}
use neutron_query_relayer.Retry.{Retries}
use neutron_query_relayer.TrustedHeaders.Found.{TrustedNow, FoundNow, get_trusted_height-FoundNow}

module _ {W Header Validators : Type 0} (thf : TrustedHeaderFetcher W Header Validators) where
  -- The header of the given height, into which a height is injected that is trusted in the search
  -- from the given state on, with the validators of the header one above that height.
  abbrev pub Verifiable : W → ℕ → Result (Option Header) → Type 0
  Verifiable start height (ok none) = Unit
  Verifiable start height (err e) = Unit
  Verifiable start height (ok (some header)) =
      (own : Header) × (next : Header) × (trusted : Height) × (w : W) × (w' : W)
      × ((thf.query_ibc_header height w).0 ≡ ok (some (ok own)))
      × ((thf.query_ibc_header ((trusted.revision_height + 1) % u64) w').0 ≡ ok (some (ok next)))
      × (header ≡ thf.inject own trusted (thf.validator_set next))
      × TrustedNow thf start height trusted

  -- the header of the height with what the trusted height gives it
  abbrev Injected : ℕ → Height → Result Header → Type 0
  Injected height trusted (err e) = Unit
  Injected height trusted (ok header) =
      (own : Header) × (next : Header) × (w : W) × (w' : W) × ((thf.query_ibc_header height w).0
        ≡ ok (some (ok own)))
      × ((thf.query_ibc_header ((trusted.revision_height + 1) % u64) w').0 ≡ ok (some (ok next)))
      × (header ≡ thf.inject own trusted (thf.validator_set next))

  abbrev Queried : ℕ → Result Header → Type 0
  Queried height (err e) = Unit
  Queried height (ok header) = (w : W) × ((thf.query_ibc_header height w).0 ≡ ok (some (ok header)))

  tm_header-Queried :
      (height : ℕ) (o : Option (Result Header)) (w : W)
      → (thf.query_ibc_header height w).0 ≡ ok o
      → Queried height (tm_header thf o)
  unfolding tm_header
  tm_header-Queried height none w e = tt
  tm_header-Queried height (some (err x)) w e = tt
  tm_header-Queried height (some (ok header)) w e = (w, e)

  query_header-Queried : (height : ℕ) (w : W) → Queried height (query_header thf height w).0
  unfolding query_header
  query_header-Queried height w =
      bind_rule (λ r _. Queried height r) (thf.query_ibc_header height)
        (λ header. lift (tm_header thf header)) w (λ o e. tm_header-Queried height o w e)
        (λ x _. tt)

module _ {W Header Validators : Type 0} (thf : TrustedHeaderFetcher W Header Validators)
    (law : Retries thf.retry) where
  retried-Queried :
      (height : ℕ) (w : W) (header : Header)
      → (retry_get_light_signed_header_at_height thf height w).0 ≡ ok header
      → Queried thf height (ok header)
  unfolding retry_get_light_signed_header_at_height
  retried-Queried height w header e =
      let (w', h) = law.last (query_header thf height) w header (context-ok _ _ e) in
      subst (Queried thf height) h (query_header-Queried thf height w')

  trusted_header_at_height-Injected :
      (trusted : Height) (height : ℕ) (w : W)
      → Injected thf height trusted (trusted_header_at_height thf trusted height w).0
  unfolding trusted_header_at_height
  trusted_header_at_height-Injected trusted height w =
      bind_rule (λ r _. Injected thf height trusted r)
        (wrapping (codes "could not get light header")
          (retry_get_light_signed_header_at_height thf height))
        (λ header.
          wrapping (codes "could not get next light header")
            (retry_get_light_signed_header_at_height thf ((trusted.revision_height + 1) % u64))
          >>= λ next. pure (thf.inject header trusted (thf.validator_set next)))
        w
        (λ own e.
          bind_rule (λ r _. Injected thf height trusted r)
            (wrapping (codes "could not get next light header")
              (retry_get_light_signed_header_at_height thf ((trusted.revision_height + 1) % u64)))
            (λ next. pure (thf.inject own trusted (thf.validator_set next))) _
            (λ next e'.
              let (w1, p) = retried-Queried height w own (context-ok _ _ e) in
              let (w2, q) =
                retried-Queried ((trusted.revision_height + 1) % u64) _ next (context-ok _ _ e') in
              (own, next, w1, w2, p, q, refl))
            (λ x _. tt))
        (λ x _. tt)

  fetch_at-Verifiable :
      (start : W) (height : ℕ) (r : Option Height) (w : W)
      → FoundNow thf start height (ok r)
      → Verifiable thf start height (fetch_at thf height r w).0
  unfolding fetch_at
  fetch_at-Verifiable start height none w t = tt
  fetch_at-Verifiable start height (some h) w t =
      bind_rule (λ r _. Verifiable thf start height r)
        (wrapping (codes "failed to get header for src chain")
          (trusted_header_at_height thf h height))
        (λ header. pure (some header)) w
        (λ header e.
          let (own, next, w1, w2, p, q, k) =
            subst (Injected thf height h) (context-ok _ _ e)
              (trusted_header_at_height-Injected h height w) in
          (own, next, h, w1, w2, p, q, k, t))
        (λ x _. tt)

  -- If a retry that succeeds ends with an attempt that does: a header that `Fetch` returns is the
  -- one of the asked height, with a trusted height that is the height of a consensus state of a
  -- page that this search asked for and got, in the target chain's revision and strictly below the
  -- asked one, where that state's own timestamp plus Neutron's trusting period was more than the
  -- margin after the time at which the page was answered; and with the validators of the header
  -- one above the trusted height.
  pub fetch-Verifiable :
      (fuel height : ℕ) (w : W) → Verifiable thf w height (fetch thf fuel height w).0
  unfolding fetch
  fetch-Verifiable fuel height w =
      bind_rule (λ r _. Verifiable thf w height r)
        (wrapping (codes "no satisfying consensus state found")
          (get_trusted_height thf fuel height))
        (fetch_at thf height) w
        (λ r e. fetch_at-Verifiable w height r _ (
          subst (FoundNow thf w height) (context-ok _ _ e)
            (get_trusted_height-FoundNow thf fuel height w)))
        (λ x _. tt)
