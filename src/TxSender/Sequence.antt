-- ===== src/TxSender/Sequence.antt =====
-- The account's number and sequence in Send (internal/submit/tx_sender.go).
use mathlib.Core.Path.{subst}
use neutron_query_relayer.Prelude.{
  ℕ, ◌+◌, ◌%◌, ◌≡◌, ◌⊎◌, inl, inr, refl, ap, ◌∙◌, ◌&&◌, List, Bytes, codes, contains, ltb, ◌==◌,
  u64, Bool-cases,
}
use neutron_query_relayer.Errors.{Error, Result, ok, err, message, context, context-ok}
use neutron_query_relayer.Exec.{raise, lift, wrapping, bind_rule, ◌>>=◌, ◌>>◌}
use neutron_query_relayer.TxSender.{
  Env, BaseAccount, Factory, BroadcastResult, TxSender, out, sender_addr, query_account,
  store_account, refresh_account_info, get_gas_price, calculate_gas, sign_and_build_tx_bz,
  gas_or_refresh, bump_sequence, after_broadcast, check_limit, make_factory, factory, broadcast,
  submit, send, incorrect_account_sequence_code,
}

module _ {W Msg Float LegacyDec : Type 0} (env : Env W Msg Float LegacyDec) where
  -- The account of the sender is as it was.
  abbrev pub Same : TxSender W → TxSender W → Type 0
  Same txs txs' = (txs'.sequence ≡ txs.sequence) × (txs'.account_number ≡ txs.account_number)

  -- The account of the sender is the one that the chain answered with.
  abbrev pub Refreshed : TxSender W → Type 0
  Refreshed txs' =
      (address : Bytes) × (w : W) × (account : BaseAccount) × (sender_addr env ≡ ok address)
      × ((query_account env address w).0 ≡ ok account)
      × (txs'.sequence ≡ account.sequence)
      × (txs'.account_number ≡ account.account_number)

  -- What a `Send` leaves behind.
  abbrev pub Sent : TxSender W → Result Bytes → TxSender W → Type 0
  Sent txs (ok hash) txs' =
      (txs'.sequence ≡ (txs.sequence + 1) % u64) × (txs'.account_number ≡ txs.account_number)
  Sent txs (err e) txs' = Same txs txs' ⊎ Refreshed txs'

  abbrev RefreshedIfOk : TxSender W → Result (Unit {0}) → TxSender W → Type 0
  RefreshedIfOk txs (ok u) txs' = Refreshed txs'
  RefreshedIfOk txs (err e) txs' = Same txs txs'

  refresh_lem :
      (txs : TxSender W)
      → RefreshedIfOk txs (refresh_account_info env txs).0 (refresh_account_info env txs).1
  unfolding refresh_account_info store_account sender_addr
  refresh_lem txs =
      bind_rule (RefreshedIfOk txs)
        (wrapping (codes "could not fetch sender addr") (lift (sender_addr env)))
        (λ address.
          wrapping (codes "error fetching account") (out env (query_account env address))
          >>= λ account. store_account env account)
        txs
        (λ address e.
          bind_rule (RefreshedIfOk txs)
            (wrapping (codes "error fetching account") (out env (query_account env address)))
            (store_account env) txs
            (λ account e'.
              (address, txs.world, account, context-ok _ _ e, context-ok _ _ e', refl, refl))
            (λ x e'. (refl, refl)))
        (λ x e. (refl, refl))

  Same-trans : (txs s s' : TxSender W) → Same txs s → Same s s' → Same txs s'
  Same-trans txs s s' (p, q) (p', q') = (p' ∙ p, q' ∙ q)

  RefreshedIfOk-context :
      (s s' : TxSender W) (t : Bytes) (r : Result (Unit {0}))
      → RefreshedIfOk s r s'
      → RefreshedIfOk s (context t r) s'
  RefreshedIfOk-context s s' t (ok u) h = h
  RefreshedIfOk-context s s' t (err e) h = h

  -- a refresh, and then an error whatever it gave
  refresh_raise_lem :
      {A : Type 0} (P : Result A → TxSender W → Type 0) (txs s : TxSender W)
      → ((e : Error) (s' : TxSender W) → Same txs s' ⊎ Refreshed s' → P (err e) s')
      → (t : Bytes) (x : Error) → Same txs s
      → P
          ((wrapping t (refresh_account_info env) >> raise {A = A} x) s).0
          ((wrapping t (refresh_account_info env) >> raise {A = A} x) s).1
  refresh_raise_lem {A = A} P txs s k t x h =
      let s1 = (refresh_account_info env s).1 in
      let res = (refresh_account_info env s).0 in
      let left = RefreshedIfOk-context s s1 t res (refresh_lem s) in
      bind_rule P (wrapping t (refresh_account_info env)) (λ _. raise {A = A} x) s
        (λ u e. k x s1 (inr (subst (λ r. RefreshedIfOk s r s1) e left)))
        (λ y e. k y s1 (inl (Same-trans txs s s1 h (subst (λ r. RefreshedIfOk s r s1) e left))))

  -- an action that keeps the account, but for a refresh before an error
  abbrev Kept : {A : Type 0} → TxSender W → Result A → TxSender W → Type 0
  Kept txs (ok a) txs' = Same txs txs'
  Kept txs (err e) txs' = Same txs txs' ⊎ Refreshed txs'

  gas_or_refresh_lem :
      (txs s : TxSender W) (r : Result ℕ)
      → Same txs s
      → Kept txs (gas_or_refresh env r s).0 (gas_or_refresh env r s).1
  unfolding gas_or_refresh
  gas_or_refresh_lem txs s (ok gas) h = h
  gas_or_refresh_lem txs s (err e) h =
      elim (Bool-cases (contains (message e) (codes "incorrect account sequence"))) [
        | inl t ↦ rw t (refresh_raise_lem (Kept txs) txs s (λ _ _ k. k) _ _ h)
        | inr f ↦ rw f (inl h)
      ]

  after_broadcast_lem :
      (txs s : TxSender W) (bz : Bytes) (res : BroadcastResult)
      → Same txs s
      → Sent txs (after_broadcast env bz res s).0 (after_broadcast env bz res s).1
  unfolding after_broadcast bump_sequence
  after_broadcast_lem txs s bz res (p, q) = elim (Bool-cases (res.code == 0)) [
    | inl t ↦ rw t (ap (λ n. (n + 1) % u64) p, q)
    | inr f ↦ rw f (elim (Bool-cases (res.code == incorrect_account_sequence_code)) [
      | inl t ↦ rw t (refresh_raise_lem (Sent txs) txs s (λ _ _ k. k) _ _ (p, q))
      | inr g ↦ rw g (inl (p, q))
    ])
  ]

  check_limit_lem :
      (txs s : TxSender W) (gas : ℕ)
      → Same txs s
      → Kept txs (check_limit env gas s).0 (check_limit env gas s).1
  unfolding check_limit
  check_limit_lem txs s gas h = elim (Bool-cases (ltb 0 env.gas_limit && ltb env.gas_limit gas)) [
    | inl t ↦ rw t (inl h)
    | inr f ↦ rw f h
  ]

  -- from the broadcast on
  broadcast_lem :
      (txs s : TxSender W) (bz : Bytes)
      → Same txs s
      → Sent txs ((broadcast env bz) s).0 ((broadcast env bz) s).1
  unfolding broadcast
  broadcast_lem txs s bz h =
      bind_rule (Sent txs)
        (wrapping (codes "error broadcasting sync transaction")
          (out env (env.broadcast_tx_sync bz)))
        (after_broadcast env bz) s (λ res e. after_broadcast_lem txs _ bz res h) (λ y e. inl h)

  submit_lem :
      (txs s : TxSender W) (txf : Factory) (msgs : List Msg) (gas : ℕ)
      → Same txs s
      → Sent txs (submit env txf msgs gas s).0 (submit env txf msgs gas s).1
  unfolding submit
  submit_lem txs s txf msgs gas h =
      bind_rule (Sent txs) (check_limit env gas) _ s
        (λ u e.
          let h1 =
            subst (λ r. Kept txs r (check_limit env gas s).1) e (check_limit_lem txs s gas h) in
          bind_rule (Sent txs)
            (wrapping (codes "could not sign and build tx bz")
              (out env (sign_and_build_tx_bz env (record txf { gas = gas }) msgs)))
            (broadcast env) (check_limit env gas s).1 (λ bz e'. broadcast_lem txs _ bz h1)
            (λ y e'. inl h1))
        (λ y e. subst (λ r. Kept txs r (check_limit env gas s).1) e (check_limit_lem txs s gas h))

  -- A `Send` that returns a hash leaves the account's number and its sequence plus one, modulo
  -- 2^64; one that returns an error leaves the account as it was, or as an answer of the chain
  -- says.
  pub send-Sent :
      (msgs : List Msg) (txs : TxSender W) → Sent txs (send env msgs txs).0 (send env msgs txs).1
  unfolding send make_factory
  send-Sent msgs txs =
      bind_rule (Sent txs)
        (wrapping (codes "error requesting feemarket gas price") (out env (get_gas_price env))) _
        txs
        (λ gas_price e.
          let txs1 = ((out env (get_gas_price env)) txs).1 in
          let txf = factory env gas_price txs1 in
          let (calculated, txs2) = out env (calculate_gas env txf msgs) txs1 in
          let kept = gas_or_refresh_lem txs txs2 calculated (refl, refl) in
          bind_rule (Sent txs) (gas_or_refresh env calculated) (submit env txf msgs) txs2
            (λ gas e'.
              submit_lem txs _ txf msgs gas
                (subst (λ r. Kept txs r (gas_or_refresh env calculated txs2).1) e' kept))
            (λ y e'. subst (λ r. Kept txs r (gas_or_refresh env calculated txs2).1) e' kept))
        (λ y e. inl (refl, refl))
