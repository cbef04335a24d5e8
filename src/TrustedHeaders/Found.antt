-- ===== src/TrustedHeaders/Found.antt =====
-- getTrustedHeight (internal/trusted_headers/fetcher.go): what the height that it finds is.
use mathlib.Core.Path.{subst}
use mathlib.Core.List.{Memᴰ}
use neutron_query_relayer.Prelude.{
  ℕ, ◌+◌, ◌<◌, ◌≡◌, refl, sym, inl, inr, Bool, true, false, Option, none, some, List, [], ◌∷◌,
  Bytes, codes, bytes_eq, if◌then◌else◌, arith, Bool-cases,
}
use neutron_query_relayer.Errors.{Result, ok, err, context-ok}
use neutron_query_relayer.Exec.{Exec, pure, lift, wrapping, bind_rule, ◌>>=◌}
use neutron_query_relayer.Loop.{Step, more, done, loop, loop_rule}
use neutron_query_relayer.RestQuery.{Height}
use neutron_query_relayer.TrustedHeaders.{
  ConsensusState, Page, TrustedHeaderFetcher, submission_margin_period, suitable, suits,
  is_suitable_cs, fetch_trusting_period, find_in, next_page, search_page, found_height,
  check_provider, get_trusted_height,
}

module _ {W Header Validators : Type 0} (thf : TrustedHeaderFetcher W Header Validators) where
  -- The pages that a search asks for from a state on: the first one, and after each page the one
  -- with the key that the page names, in the state that its answer left.
  pub data Asked (start : W) : Bytes → W → Type 0 where
    first : Asked start [] start
    next :
        {key : Bytes} {w : W} {page : Page}
        → Asked start key w
        → (thf.consensus_states key w).0 ≡ ok page
        → bytes_eq page.next_key [] ≡ false
        → Asked start page.next_key (thf.consensus_states key w).1

  module _ (start : W) where
    -- A consensus state of a page that the search asked for, in the state that the answer left.
    abbrev pub IsAnswered : ConsensusState → W → Type 0
    IsAnswered cs w' =
        (key : Bytes) × (w : W) × (page : Page) × Asked start key w
        × ((thf.consensus_states key w).0 ≡ ok page)
        × Memᴰ cs page.consensus_states
        × (w' ≡ (thf.consensus_states key w).1)

    -- The height of an answered consensus state, in the revision of the target chain and below the
    -- given height, whose own timestamp was, when its page was answered, more than the margin
    -- before the end of the trusting period.
    abbrev pub Trusted : ℕ → ℕ → Height → Type 0
    Trusted period height h =
        (cs : ConsensusState) × (timestamp : ℕ) × (w : W) × IsAnswered cs w
        × (h ≡ cs.height)
        × (cs.timestamp ≡ some timestamp)
        × (h.revision_number ≡ thf.revision_number)
        × (h.revision_height < height)
        × (thf.now w + submission_margin_period < timestamp + period)

    suitable-Trusted :
        (cs : ConsensusState) (timestamp period height : ℕ) (w : W)
        → IsAnswered cs w
        → cs.timestamp ≡ some timestamp
        → suitable thf cs timestamp period height (thf.now w) ≡ true
        → Trusted period height cs.height
    unfolding suitable
    suitable-Trusted cs timestamp period height w a t h =
        (cs, timestamp, w, a, refl, t, ground (arith, h), ground (arith, h), ground (arith, h))

    -- a test of a consensus state that holds says that it is trusted
    abbrev TrustedIf : ℕ → ℕ → Height → Result Bool → Type 0
    TrustedIf period height h (ok true) = Trusted period height h
    TrustedIf period height h (ok false) = Unit
    TrustedIf period height h (err e) = Unit

    suits-TrustedIf :
        (cs : ConsensusState) (o : Option ℕ) (period height : ℕ) (w : W)
        → IsAnswered cs w
        → cs.timestamp ≡ o
        → TrustedIf period height cs.height (suits thf cs o period height (thf.now w))
    unfolding suits
    suits-TrustedIf cs none period height w a t = tt
    suits-TrustedIf cs (some t) period height w a s =
        elim (Bool-cases (suitable thf cs t period height (thf.now w))) [
          | inl e ↦ rw e (suitable-Trusted cs t period height w a s e)
          | inr n ↦ rw n tt
        ]

    is_suitable_cs-TrustedIf :
        (cs : ConsensusState) (period height : ℕ) (w : W)
        → IsAnswered cs w
        → TrustedIf period height cs.height (is_suitable_cs thf cs period height w).0
    unfolding is_suitable_cs
    is_suitable_cs-TrustedIf cs period height w a =
        suits-TrustedIf cs cs.timestamp period height w a refl

    abbrev FoundIn : ℕ → ℕ → Result (Option Height) → Type 0
    FoundIn period height (ok (some h)) = Trusted period height h
    FoundIn period height (ok none) = Unit
    FoundIn period height (err e) = Unit

    found_if :
        (b : Bool) (h : Height) (period height : ℕ) (rest : Exec W (Option Height)) (w : W)
        → TrustedIf period height h (ok b)
        → FoundIn period height (rest w).0
        → FoundIn period height ((if b then pure (some h) else rest) w).0
    found_if true h period height rest w t k = t
    found_if false h period height rest w t k = k

    find_in-FoundIn :
        (states : List ConsensusState) (period height : ℕ) (w : W)
        → ((cs : ConsensusState) → Memᴰ cs states → IsAnswered cs w)
        → FoundIn period height (find_in thf states period height w).0
    unfolding find_in is_suitable_cs
    find_in-FoundIn [] period height w a = tt
    find_in-FoundIn (cs ∷ states) period height w a =
        bind_rule (λ r _. FoundIn period height r) (is_suitable_cs thf cs period height)
          (λ suits. if suits then pure (some cs.height) else find_in thf states period height) w
          (λ suits e.
            found_if suits cs.height period height (find_in thf states period height) _
              (subst (TrustedIf period height cs.height) e
                (is_suitable_cs-TrustedIf cs period height w (a cs (Memᴰ.head refl))))
              (find_in-FoundIn states period height _ (λ c m. a c (Memᴰ.tail m))))
          (λ x _. tt)

    if_same :
        (b : Bool) (h : Height) (rest : Exec W (Option Height)) (w : W)
        → (rest w).1 ≡ w
        → ((if b then pure (some h) else rest) w).1 ≡ w
    if_same true h rest w e = refl
    if_same false h rest w e = e

    -- the states of a page are tested without a call
    find_in_same :
        (states : List ConsensusState) (period height : ℕ) (w : W)
        → (find_in thf states period height w).1 ≡ w
    unfolding find_in is_suitable_cs
    find_in_same [] period height w = refl
    find_in_same (cs ∷ states) period height w =
        bind_rule (λ _ s. s ≡ w) (is_suitable_cs thf cs period height)
          (λ suits. if suits then pure (some cs.height) else find_in thf states period height) w
          (λ suits _.
            if_same suits cs.height (find_in thf states period height) w
              (find_in_same states period height w))
          (λ x _. refl)

    abbrev FoundAfter : ℕ → ℕ → Result (Step Bytes (Option Height)) → W → Type 0
    FoundAfter period height (ok (done r)) w = FoundIn period height (ok r)
    FoundAfter period height (ok (more k)) w = Asked start k w
    FoundAfter period height (err e) w = Unit

    next_page-FoundAfter :
        (key : Bytes) (r : Option Height) (period height : ℕ) (w : W)
        → FoundIn period height (ok r)
        → (bytes_eq key [] ≡ false → Asked start key w)
        → FoundAfter period height (ok (next_page thf key r)) w
    unfolding next_page
    next_page-FoundAfter key (some h) period height w t k = t
    next_page-FoundAfter key none period height w t k = elim (Bool-cases (bytes_eq key [])) [
      | inl e ↦ rw e tt
      | inr n ↦ rw n (k n)
    ]

    search_page-FoundAfter :
        (period height : ℕ) (key : Bytes) (w : W)
        → Asked start key w
        → FoundAfter period height
            (search_page thf period height key w).0
            (search_page thf period height key w).1
    unfolding search_page
    search_page-FoundAfter period height key w asked =
        bind_rule (FoundAfter period height)
          (wrapping (codes "failed to get consensus states for client ID")
            (thf.consensus_states key))
          (λ page. find_in thf page.consensus_states period height >>= λ found.
            pure (next_page thf page.next_key found))
          w
          (λ page ep.
            bind_rule (FoundAfter period height) (find_in thf page.consensus_states period height)
              (λ found. pure (next_page thf page.next_key found)) _
              (λ found e.
                next_page-FoundAfter page.next_key found period height _
                  (subst (FoundIn period height) e (
                    find_in-FoundIn page.consensus_states period height _
                      (λ cs m. (key, w, page, asked, context-ok _ _ ep, m, refl))))
                  (λ n.
                    subst (Asked start page.next_key)
                      (sym (find_in_same page.consensus_states period height _))
                      (next asked (context-ok _ _ ep) n)))
              (λ x _. tt))
          (λ x _. tt)

    abbrev FoundByLoop : ℕ → ℕ → Result (Option (Option Height)) → Type 0
    FoundByLoop period height (ok (some r)) = FoundIn period height (ok r)
    FoundByLoop period height (ok none) = Unit
    FoundByLoop period height (err e) = Unit

    loop-FoundByLoop :
        (period height fuel : ℕ)
        → FoundByLoop period height (loop (search_page thf period height) fuel [] start).0
    loop-FoundByLoop period height fuel =
        loop_rule (search_page thf period height) (Asked start) (λ r _. FoundByLoop period height r)
          (λ key w k a e.
            subst (λ r. FoundAfter period height r (search_page thf period height key w).1) e
              (search_page-FoundAfter period height key w a))
          (λ key w r a e.
            subst (λ r. FoundAfter period height r (search_page thf period height key w).1) e
              (search_page-FoundAfter period height key w a))
          (λ _ _ _ _ _. tt) (λ _ _ _. tt) fuel [] start first

    found_height-FoundIn :
        (r : Option (Option Height)) (period height : ℕ)
        → FoundByLoop period height (ok r)
        → FoundIn period height (found_height thf r)
    unfolding found_height
    found_height-FoundIn none period height h = tt
    found_height-FoundIn (some none) period height h = tt
    found_height-FoundIn (some (some t)) period height h = h

  -- The height is trusted in the search from a state on, by the trusting period that Neutron's
  -- client state has there.
  abbrev pub TrustedNow : W → ℕ → Height → Type 0
  TrustedNow w height h =
      (period : ℕ) × ((fetch_trusting_period thf w).0 ≡ ok period)
      × Trusted (fetch_trusting_period thf w).1 period height h

  abbrev pub FoundNow : W → ℕ → Result (Option Height) → Type 0
  FoundNow w height (ok (some h)) = TrustedNow w height h
  FoundNow w height (ok none) = Unit
  FoundNow w height (err e) = Unit

  found_now :
      (r : Result (Option Height)) (period height : ℕ) (w : W)
      → (fetch_trusting_period thf w).0 ≡ ok period
      → FoundIn (fetch_trusting_period thf w).1 period height r
      → FoundNow w height r
  found_now (ok (some h)) period height w e t = (period, e, t)
  found_now (ok none) period height w e t = tt
  found_now (err x) period height w e t = tt

  pub get_trusted_height-FoundNow :
      (fuel height : ℕ) (w : W) → FoundNow w height (get_trusted_height thf fuel height w).0
  unfolding get_trusted_height
  get_trusted_height-FoundNow fuel height w =
      let start = (fetch_trusting_period thf w).1 in
      bind_rule (λ r _. FoundNow w height r) (lift (check_provider thf)) _ w
        (λ _ _.
          bind_rule (λ r _. FoundNow w height r)
            (wrapping (codes "failed to fetch trusting period") (fetch_trusting_period thf))
            (λ period.
              loop (search_page thf period height) fuel [] >>= λ r. lift (found_height thf r))
            w
            (λ period e.
              bind_rule (λ r _. FoundNow w height r) (loop (search_page thf period height) fuel [])
                (λ r. lift (found_height thf r)) _
                (λ r e'. found_now (found_height thf r) period height w (context-ok _ _ e) (
                  found_height-FoundIn start r period height (
                    subst (FoundByLoop start period height) e'
                      (loop-FoundByLoop start period height fuel))))
                (λ x _. tt))
            (λ x _. tt))
        (λ x _. tt)
