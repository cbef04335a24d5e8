-- ===== src/TrustedHeaders.antt =====
-- internal/trusted_headers/fetcher.go: headers of the target chain that Neutron's light client
-- can check.
pub mod Found
pub mod Paging
pub mod Suitable
use neutron_query_relayer.Prelude.{
  ℕ, ◌+◌, ◌*◌, ◌%◌, Bool, true, false, ◌&&◌, Option, none, some, List, [], ◌∷◌, Bytes, codes,
  bytes_eq, ltb, ◌==◌, if◌then◌else◌, u64,
}
use neutron_query_relayer.Errors.{Error, Result, ok, err, plain, context}
use neutron_query_relayer.Exec.{Exec, pure, raise, lift, wrapping, ◌>>=◌, ◌>>◌}
use neutron_query_relayer.Loop.{Step, more, done, loop}
use neutron_query_relayer.RestQuery.{Height}

-- ConsensusStateWithHeight: the timestamp of the state in nanoseconds, unless the value is not a
-- consensus state
pub record ConsensusState : Type 0 where
  pub height : Height
  pub timestamp : Option ℕ

pub record Page : Type 0 where
  pub consensus_states : List ConsensusState
  pub next_key : Bytes

-- The struct, and what it calls of other code: the two chains' providers, `retry.Do`, and the
-- clock. A client state is its trusting period in nanoseconds, unless it is not one of tendermint;
-- an IBC header is what TMHeader gives for it, unless it is not one of tendermint.
pub record TrustedHeaderFetcher (W Header Validators : Type 0) : Type 0 where
  pub revision_number : ℕ
  pub is_cosmos_provider : Bool
  pub query_client_state : Exec W (Option ℕ)
  pub consensus_states : Bytes → Exec W Page
  pub query_ibc_header : ℕ → Exec W (Option (Result Header))
  pub retry : Exec W Header → Exec W Header
  pub validator_set : Header → Validators
  -- the header with its TrustedHeight and TrustedValidators
  pub inject : Header → Height → Validators → Header
  pub now : W → ℕ

-- five minutes, in nanoseconds
abbrev pub submission_margin_period : ℕ
submission_margin_period = 5 * 60 * 1000000000

module _ {W Header Validators : Type 0} (thf : TrustedHeaderFetcher W Header Validators) where
  check_trusting_period : Option ℕ → Result ℕ
  check_trusting_period none =
      err (plain (codes "expected client state of type *tmclient.ClientState"))
  check_trusting_period (some period) =
      if period == 0 then err (plain (codes "got empty TrustingPeriod")) else ok period

  pub fetch_trusting_period : Exec W ℕ
  unfolding check_trusting_period
  fetch_trusting_period = do
    client_state ← wrapping (codes "could not fetch client state") thf.query_client_state
    lift (check_trusting_period client_state)

  suitable : ConsensusState → ℕ → ℕ → ℕ → ℕ → Bool
  suitable cs timestamp trusting_period height now =
      (cs.height.revision_number == thf.revision_number && ltb cs.height.revision_height height)
      && ltb (now + submission_margin_period) (timestamp + trusting_period)

  suits : ConsensusState → Option ℕ → ℕ → ℕ → ℕ → Result Bool
  unfolding suitable
  suits cs none trusting_period height now =
      err (plain (codes "couldn't cast consensus state value"))
  suits cs (some timestamp) trusting_period height now =
      ok (suitable cs timestamp trusting_period height now)

  pub is_suitable_cs : ConsensusState → ℕ → ℕ → Exec W Bool
  unfolding suits
  is_suitable_cs cs trusting_period height w =
      (suits cs cs.timestamp trusting_period height (thf.now w), w)

  -- the loop over the states of a page: the height of the first suitable one
  find_in : List ConsensusState → ℕ → ℕ → Exec W (Option Height)
  unfolding is_suitable_cs
  find_in [] trusting_period height = pure none
  find_in (cs ∷ states) trusting_period height = do
    is_suitable ← is_suitable_cs cs trusting_period height
    let rest = find_in states trusting_period height in
        if is_suitable then pure (some cs.height) else rest

  next_page : Bytes → Option Height → Step Bytes (Option Height)
  next_page next_key (some h) = done (some h)
  next_page next_key none = if bytes_eq next_key [] then done none else more next_key

  search_page : ℕ → ℕ → Bytes → Exec W (Step Bytes (Option Height))
  unfolding find_in next_page
  search_page trusting_period height next_key = do
    page ←
        wrapping (codes "failed to get consensus states for client ID")
          (thf.consensus_states next_key)
    found ← find_in page.consensus_states trusting_period height
    pure (next_page page.next_key found)

  found_height : Option (Option Height) → Result (Option Height)
  found_height none = ok none
  found_height (some none) =
      err (plain (codes "could not find any trusted consensus state for height"))
  found_height (some (some h)) = ok (some h)

  check_provider : Result (Unit {0})
  check_provider =
      if thf.is_cosmos_provider
      then ok tt
      else err (plain (codes "failed to cast ChainProvider to concrete type"))

  -- `none` while the loop over the pages has not ended
  pub get_trusted_height : ℕ → ℕ → Exec W (Option Height)
  unfolding check_provider fetch_trusting_period search_page found_height loop
  get_trusted_height fuel height = do
    lift check_provider
    trusting_period ← wrapping (codes "failed to fetch trusting period") fetch_trusting_period
    found ← loop (search_page trusting_period height) fuel []
    lift (found_height found)

  tm_header : Option (Result Header) → Result Header
  tm_header none = err (plain (codes "expected header of type provider.TendermintIBCHeader"))
  tm_header (some header) =
      context (codes "failed to convert provider.TendermintIBCHeader to tmclient.Header") header

  -- one attempt of the query
  query_header : ℕ → Exec W Header
  unfolding tm_header
  query_header height = do header ← thf.query_ibc_header height; lift (tm_header header)

  pub retry_get_light_signed_header_at_height : ℕ → Exec W Header
  unfolding query_header
  retry_get_light_signed_header_at_height height =
      wrapping (codes "failed to get trusted header") (thf.retry (query_header height))

  pub trusted_header_at_height : Height → ℕ → Exec W Header
  unfolding retry_get_light_signed_header_at_height
  trusted_header_at_height trusted_height height = do
    header ←
        wrapping (codes "could not get light header")
          (retry_get_light_signed_header_at_height height)
    next_header ←
        wrapping (codes "could not get next light header")
          (retry_get_light_signed_header_at_height ((trusted_height.revision_height + 1) % u64))
    pure (thf.inject header trusted_height (thf.validator_set next_header))

  fetch_at : ℕ → Option Height → Exec W (Option Header)
  unfolding trusted_header_at_height
  fetch_at height none = pure none
  fetch_at height (some trusted_height) = do
    header ←
        wrapping (codes "failed to get header for src chain")
          (trusted_header_at_height trusted_height height)
    pure (some header)

  unfoldable pub fetch : ℕ → ℕ → Exec W (Option Header)
  unfolding get_trusted_height fetch_at
  fetch fuel height = do
    trusted_height ←
        wrapping (codes "no satisfying consensus state found") (get_trusted_height fuel height)
    fetch_at height trusted_height
