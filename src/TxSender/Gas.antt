-- ===== src/TxSender/Gas.antt =====
-- The price and the amount of gas of Send (internal/submit/tx_sender.go).
use mathlib.Core.Path.{subst}
use neutron_query_relayer.Prelude.{
  ℕ, ◌≤◌, ◌≡◌, ◌⊎◌, inl, inr, refl, Bool, true, false, ◌&&◌, List, ◌++◌, Bytes, codes, ltb, ◌==◌,
  if◌then◌else◌, arith, Bool-cases,
}
use neutron_query_relayer.Errors.{Error, Result, ok, err, context-ok, Result-cases}
use neutron_query_relayer.Exec.{pure, raise, wrapping, bind_rule, ◌>>◌}
use neutron_query_relayer.TxSender.{
  Env, Factory, BroadcastResult, TxSender, out, refresh_account_info, query_dynamic_price, capped,
  multiply_gas, price_of, get_gas_price, calculate_gas, sign_and_build_tx_bz, gas_or_refresh,
  bump_sequence, after_broadcast, broadcast, submit, check_limit, make_factory, factory, send,
  incorrect_account_sequence_code,
}

module _ {W Msg Float LegacyDec : Type 0} (env : Env W Msg Float LegacyDec) where
  -- The default price, or a price in the denomination that is not above the maximum.
  abbrev pub Affordable : Result Bytes → Type 0
  Affordable (err e) = Unit
  Affordable (ok price) =
      (price ≡ env.default_gas_prices)
      ⊎ ((p : Float) × (price ≡ env.decimals.format p ++ env.denom)
          × (env.decimals.greater p env.max_gas_price ≡ false))

  capped-greater :
      (f : Float)
      → env.decimals.greater env.max_gas_price env.max_gas_price ≡ false
      → env.decimals.greater (capped env f) env.max_gas_price ≡ false
  unfolding capped
  capped-greater f h =
      elim (Bool-cases
        (env.decimals.greater (env.decimals.times env.gas_price_multiplier f) env.max_gas_price)) [
          | inl t ↦ rw t h
          | inr g ↦ rw (g, g) refl
        ]

  price_of-Affordable :
      (r : Result LegacyDec)
      → env.decimals.greater env.max_gas_price env.max_gas_price ≡ false
      → Affordable (price_of env r)
  unfolding price_of multiply_gas
  price_of-Affordable (err e) h = inl refl
  price_of-Affordable (ok gas) h = elim (Result-cases (env.decimals.to_float gas)) [
    | inl (f, q) ↦ rw (q, Affordable) (inr (capped env f, refl, capped-greater f h))
    | inr (e, q) ↦ rw (q, Affordable) tt
  ]

  -- If the maximal price is not greater than itself, a gas price is the default one or the print
  -- of a price that is not greater than the maximum, with the denomination.
  pub get_gas_price-Affordable :
      (w : W)
      → env.decimals.greater env.max_gas_price env.max_gas_price ≡ false
      → Affordable (get_gas_price env w).0
  unfolding get_gas_price
  get_gas_price-Affordable w h = price_of-Affordable (query_dynamic_price env w).0 h

  -- What stands behind the hash that a `Send` returns: the bytes were built and signed with the
  -- account's number and sequence and with an amount of gas within the limit, and the node took them.
  abbrev pub Accepted : List Msg → TxSender W → Result Bytes → Type 0
  Accepted msgs txs (err e) = Unit
  Accepted msgs txs (ok hash) =
      (price : Bytes) × (gas : ℕ) × (bz : Bytes) × (w : W) × (w' : W) × (res : BroadcastResult)
      × ((sign_and_build_tx_bz env (record (factory env price txs) { gas = gas }) msgs w).0 ≡ ok bz)
      × ((env.broadcast_tx_sync bz w').0 ≡ ok res)
      × (res.code ≡ 0)
      × (hash ≡ env.tx_hash bz)
      × ((env.gas_limit ≡ 0) ⊎ (gas ≤ env.gas_limit))
      × Affordable (ok price)

  -- after a refresh that is followed by an error, there is nothing to show
  refresh_raise_lem :
      {A : Type 0} (P : Result A → Type 0) (k : (e : Error) → P (err e)) (t : Bytes) (x : Error)
      (s : TxSender W)
      → P ((wrapping t (refresh_account_info env) >> raise {A = A} x) s).0
  refresh_raise_lem {A = A} P k t x s =
      bind_rule (λ r _. P r) (wrapping t (refresh_account_info env)) (λ _. raise {A = A} x) s
        (λ u e. k x) (λ y e. k y)

  within :
      (gas : ℕ)
      → (ltb 0 env.gas_limit && ltb env.gas_limit gas) ≡ false
      → (env.gas_limit ≡ 0) ⊎ (gas ≤ env.gas_limit)
  within gas h = ground (arith, ltb)

  test_of_ok :
      (b : Bool) (e : Error) (s : TxSender W) (u : Unit {0})
      → ((if b then raise e else pure tt) s).0 ≡ ok u
      → b ≡ false
  test_of_ok true e s u h = ground (arith, h)
  test_of_ok false e s u h = refl

  check_limit_lem :
      (gas : ℕ) (s : TxSender W) (u : Unit {0})
      → (check_limit env gas s).0 ≡ ok u
      → (env.gas_limit ≡ 0) ⊎ (gas ≤ env.gas_limit)
  unfolding check_limit
  check_limit_lem gas s u h =
      within gas (test_of_ok (ltb 0 env.gas_limit && ltb env.gas_limit gas) _ s u h)

  eq_of_test : (m n : ℕ) → (m == n) ≡ true → m ≡ n
  eq_of_test m n t = ground (arith)

  after_broadcast_lem :
      (P : Result Bytes → Type 0) (bz : Bytes) (res : BroadcastResult) (s : TxSender W)
      → ((e : Error) → P (err e))
      → (res.code ≡ 0 → P (ok (env.tx_hash bz)))
      → P (after_broadcast env bz res s).0
  unfolding after_broadcast bump_sequence
  after_broadcast_lem P bz res s k h = elim (Bool-cases (res.code == 0)) [
    | inl t ↦ rw t (h (eq_of_test res.code 0 t))
    | inr f ↦ rw f (elim (Bool-cases (res.code == incorrect_account_sequence_code)) [
      | inl t ↦ rw t (refresh_raise_lem P k _ _ s)
      | inr g ↦ rw g (k _)
    ])
  ]

  submit_lem :
      (P : Result Bytes → Type 0) (txf : Factory) (msgs : List Msg) (gas : ℕ) (s : TxSender W)
      → ((e : Error) → P (err e))
      → ((bz : Bytes) (w w' : W) (res : BroadcastResult)
          → (sign_and_build_tx_bz env (record txf { gas = gas }) msgs w).0 ≡ ok bz
          → (env.broadcast_tx_sync bz w').0 ≡ ok res
          → res.code ≡ 0
          → (env.gas_limit ≡ 0) ⊎ (gas ≤ env.gas_limit)
          → P (ok (env.tx_hash bz)))
      → P (submit env txf msgs gas s).0
  unfolding submit broadcast
  submit_lem P txf msgs gas s k h =
      bind_rule (λ r _. P r) (check_limit env gas) _ s
        (λ u e.
          bind_rule (λ r _. P r)
            (wrapping (codes "could not sign and build tx bz")
              (out env (sign_and_build_tx_bz env (record txf { gas = gas }) msgs)))
            (broadcast env) (check_limit env gas s).1
            (λ bz e1.
              bind_rule (λ r _. P r)
                (wrapping (codes "error broadcasting sync transaction")
                  (out env (env.broadcast_tx_sync bz)))
                (after_broadcast env bz) _
                (λ res e2. after_broadcast_lem P bz res _ k (λ z.
                  h bz _ _ res (context-ok _ _ e1) (context-ok _ _ e2) z
                    (check_limit_lem gas s u e)))
                (λ y _. k y))
            (λ y _. k y))
        (λ y _. k y)

  asked-Affordable :
      (t : Bytes) (txs : TxSender W) (price : Bytes)
      → env.decimals.greater env.max_gas_price env.max_gas_price ≡ false
      → (wrapping t (out env (get_gas_price env)) txs).0 ≡ ok price
      → Affordable (ok price)
  asked-Affordable t txs price h e =
      subst Affordable (context-ok _ _ e) (get_gas_price-Affordable txs.world h)

  -- If the maximal price is not greater than itself: behind a hash that `Send` returns stands a
  -- transaction that was signed with the account's number and sequence, with the default gas price
  -- or the four digits of a number that is not greater than the maximum (the digits themselves may
  -- be rounded above it), and with gas within the limit (if there is one), and that the node took
  -- with code 0.
  pub send-Accepted :
      (msgs : List Msg) (txs : TxSender W)
      → env.decimals.greater env.max_gas_price env.max_gas_price ≡ false
      → Accepted msgs txs (send env msgs txs).0
  unfolding send make_factory
  send-Accepted msgs txs most =
      bind_rule (λ r _. Accepted msgs txs r)
        (wrapping (codes "error requesting feemarket gas price") (out env (get_gas_price env))) _
        txs
        (λ price e.
          let txs1 = ((out env (get_gas_price env)) txs).1 in
          let txf = factory env price txs1 in
          let (calculated, txs2) = out env (calculate_gas env txf msgs) txs1 in
          bind_rule (λ r _. Accepted msgs txs r) (gas_or_refresh env calculated)
            (submit env txf msgs) txs2
            (λ gas e'.
              submit_lem (Accepted msgs txs) txf msgs gas _ (λ _. tt)
                (λ bz w w' res e1 e2 z l. (
                  price,
                  gas,
                  bz,
                  w,
                  w',
                  res,
                  e1,
                  e2,
                  z,
                  refl,
                  l,
                  asked-Affordable _ txs price most e,
                )))
            (λ y e'. tt))
        (λ y e. tt)
