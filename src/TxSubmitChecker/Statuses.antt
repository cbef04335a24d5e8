-- ===== src/TxSubmitChecker/Statuses.antt =====
-- The updates of the storage by internal/txsubmitchecker/txsubmitchecker.go.
use neutron_query_relayer.Prelude.{
  ◌<◌, ◌≡◌, ◌⊎◌, inl, inr, refl, none, List, [], ◌∷◌, ◌++◌, Bytes, codes, ◌==◌, Bool-cases, arith,
}
use neutron_query_relayer.Errors.{Error, Result, ok, err, context-ok}
use neutron_query_relayer.Exec.{lift, wrapping, bind_rule, ◌>>=◌}
use neutron_query_relayer.Hex.{decode_string}
use neutron_query_relayer.Strconv.{format_uint}
use neutron_query_relayer.Relay.{
  PendingSubmittedTxInfo, SubmittedTxInfo, committed, error_on_commit,
}
use neutron_query_relayer.TxSubmitChecker.{
  TxResult, TxSubmitChecker, outcome, update_tx_status, retry_get_tx_status, process_submitted_tx,
}

-- What a transaction's result on the chain is recorded as.
abbrev pub Outcome : TxResult → SubmittedTxInfo → Type 0
Outcome res info =
    ((res.code ≡ 0) × (info.status ≡ committed) × (info.message ≡ []))
    ⊎ ((0 < res.code)
        × (info.status ≡ error_on_commit)
        × (info.message ≡ codes "Code: " ++ (format_uint res.code ++ (codes ", Log: " ++ res.log))))

outcome-Outcome : (res : TxResult) → Outcome res (outcome res)
unfolding outcome
outcome-Outcome res = elim (Bool-cases (res.code == 0)) [
  | inl e ↦ rw e (inl (ground (arith, e), refl, refl))
  | inr n ↦ rw n (inr (ground (arith, n), refl, refl))
]

module _ {W : Type 0} (tc : TxSubmitChecker W) where
  -- How one transaction ends: with the update that the node's answer stands for, or else with the
  -- storage as the calls of the node leave it.
  abbrev pub Resolved : PendingSubmittedTxInfo → W → Result (Unit {0}) → W → Type 0
  Resolved tx w (ok u) w' =
      (hash : Bytes) × (res : TxResult) × (decode_string tx.neutron_hash ≡ ok hash)
      × ((tc.retry (tc.tx hash) w).0 ≡ ok res)
      × ((info : SubmittedTxInfo) × Outcome res info
          × (w'
              ≡ (tc.storage.set_tx_status tx.query_id tx.submitted_tx_hash tx.neutron_hash info none
                  (tc.retry (tc.tx hash) w).1).1))
  Resolved tx w (err e) w' =
      (w' ≡ w)
      ⊎ ((hash : Bytes) × (decode_string tx.neutron_hash ≡ ok hash)
          × (w' ≡ (tc.retry (tc.tx hash) w).1))

  -- A submitted transaction that is processed without an error has a hash that can be read, the
  -- node answered for it, and the storage was called to set its status, whatever came of the call:
  -- committed without a message for the code 0, and error_on_commit with the code and the log for
  -- any other; on an error the state is as it was or as the call of the node left it.
  pub process_submitted_tx-Resolved :
      (tx : PendingSubmittedTxInfo) (w : W)
      → Resolved tx w (process_submitted_tx tc tx w).0 (process_submitted_tx tc tx w).1
  unfolding process_submitted_tx update_tx_status retry_get_tx_status
  process_submitted_tx-Resolved tx w =
      bind_rule (Resolved tx w)
        (wrapping (codes "failed to DecodeString") (lift (decode_string tx.neutron_hash)))
        (λ hash.
          wrapping (codes "failed to retryGetTxStatus") (retry_get_tx_status tc hash) >>= λ res.
          update_tx_status tc tx (outcome res))
        w
        (λ hash d.
          bind_rule (Resolved tx w)
            (wrapping (codes "failed to retryGetTxStatus") (retry_get_tx_status tc hash))
            (λ res. update_tx_status tc tx (outcome res)) w
            (λ res r. (
              hash,
              res,
              context-ok _ _ d,
              context-ok _ _ r,
              (outcome res, outcome-Outcome res, refl),
            ))
            (λ e r. inr (hash, context-ok _ _ d, refl)))
        (λ e d. inl refl)

  -- Every transaction of the list is processed, in order, each in the state that the one before
  -- left, whatever came of that one.
  pub data ResolvedAll : List PendingSubmittedTxInfo → W → W → Type 0 where
    finished : {w : W} → ResolvedAll [] w w
    next :
        {tx : PendingSubmittedTxInfo} {txs : List PendingSubmittedTxInfo} {w w1 w2 : W}
        → (r : Result (Unit {0})) → Resolved tx w r w1
        → ResolvedAll txs w1 w2
        → ResolvedAll (tx ∷ txs) w w2

  -- How a run ends: with every transaction that the storage lists and then every task processed,
  -- or with the storage's error.
  abbrev pub Ran : List PendingSubmittedTxInfo → W → Result (Unit {0}) → W → Type 0
  Ran tasks w (ok u) w' =
      (pending : List PendingSubmittedTxInfo) × ((tc.storage.get_all_pending_txs w).0 ≡ ok pending)
      × ResolvedAll (pending ++ tasks) (tc.storage.get_all_pending_txs w).1 w'
  Ran tasks w (err e) w' =
      (x : Error) × ((tc.storage.get_all_pending_txs w).0 ≡ err x)
      × (w' ≡ (tc.storage.get_all_pending_txs w).1)
