-- ===== src/Webserver/Resubmission.antt =====
-- The answers of resubmitFailedTxs (internal/http/webserver.go).
use mathlib.Core.Path.{subst}
use neutron_query_relayer.Prelude.{
  ◌≡◌, ◌≢◌, inl, inr, refl, ap, sym, ◌∙◌, true, Option, none, some, List, [], ◌∷◌, ◌++◌, Bytes,
  arith, Bool-cases,
}
use neutron_query_relayer.Errors.{Error, Result, ok, err, is_not_found}
use neutron_query_relayer.Relay.{Transaction}
use neutron_query_relayer.Webserver.{
  ResubmitTx, ResubmitRequest, Response, Server, status_ok, status_bad_request, failure, processing,
  lookup_failure, after_submission, after_lookup, resubmit, unless_failed, resubmit_all,
  after_decode, resubmit_failed_txs,
}

module _ {W : Type 0} (srv : Server W) where
  -- The transaction was found in the storage, and its submission returned no error.
  abbrev pub Resubmitted : ResubmitTx → W → W → Type 0
  Resubmitted tx_info w w' =
      (tx : Transaction) × (w1 : W) × (srv.storage.get_cached_tx tx_info.query_id tx_info.hash w
        ≡ (ok tx, w1))
      × (srv.tx_processor.process_and_submit tx_info.query_id tx w1 ≡ (ok tt, w'))

  -- The resubmissions of the transactions, in their order, lead from one state to another.
  pub data AllResubmitted : List ResubmitTx → W → W → Type 0 where
    finished : {w : W} → AllResubmitted [] w w
    following :
        {tx_info : ResubmitTx} {txs : List ResubmitTx} {w w1 w2 : W}
        → Resubmitted tx_info w w1
        → AllResubmitted txs w1 w2
        → AllResubmitted (tx_info ∷ txs) w w2

  -- What the status of a response tells: 200 that all transactions were resubmitted, and 400
  -- that those before one were and the storage does not know that one.
  abbrev pub Told : List ResubmitTx → W → Response × W → Type 0
  Told txs w (response, w') =
      (response.status_code ≡ status_ok → AllResubmitted txs w w')
      × (response.status_code ≡ status_bad_request
          → (before : List ResubmitTx) × (tx_info : ResubmitTx) × (after : List ResubmitTx)
            × (w1 : W) × (e : Error) × (txs ≡ before ++ tx_info ∷ after)
            × AllResubmitted before w w1
            × (srv.storage.get_cached_tx tx_info.query_id tx_info.hash w1 ≡ (err e, w'))
            × (is_not_found e ≡ true))

  -- one transaction
  abbrev OneTold : ResubmitTx → W → Option Response × W → Type 0
  OneTold tx_info w (none, w') = Resubmitted tx_info w w'
  OneTold tx_info w (some response, w') =
      (response.status_code ≢ status_ok)
      × (response.status_code ≡ status_bad_request
          → (e : Error) × (srv.storage.get_cached_tx tx_info.query_id tx_info.hash w ≡ (err e, w'))
            × (is_not_found e ≡ true))

  lookup_failure-status :
      (e : Error)
      → ((lookup_failure e).status_code ≢ status_ok)
        × ((lookup_failure e).status_code ≡ status_bad_request → is_not_found e ≡ true)
  unfolding lookup_failure processing failure
  lookup_failure-status e = elim (Bool-cases (is_not_found e)) [
    | inl t ↦ rw t (λ h. absurd (omega (arith, h)), λ _. refl)
    | inr f ↦ rw f (λ h. absurd (omega (arith, h)), λ h. absurd (omega (arith, h)))
  ]

  after_submission-OneTold :
      (tx_info : ResubmitTx) (tx : Transaction) (w w1 : W) (res : Result (Unit {0}) × W)
      → srv.storage.get_cached_tx tx_info.query_id tx_info.hash w ≡ (ok tx, w1)
      → srv.tx_processor.process_and_submit tx_info.query_id tx w1 ≡ res
      → OneTold tx_info w (after_submission srv res)
  unfolding after_submission processing failure
  after_submission-OneTold tx_info tx w w1 (ok u, w2) g p = (tx, w1, g, p)
  after_submission-OneTold tx_info tx w w1 (err e, w2) g p =
      (λ h. absurd (omega (arith, h)), λ h. absurd (omega (arith, h)))

  after_lookup-OneTold :
      (tx_info : ResubmitTx) (w : W) (res : Result Transaction × W)
      → srv.storage.get_cached_tx tx_info.query_id tx_info.hash w ≡ res
      → OneTold tx_info w (after_lookup srv tx_info res)
  unfolding after_lookup
  after_lookup-OneTold tx_info w (err e, w1) g =
      ((lookup_failure-status e).0, λ h. (e, g, (lookup_failure-status e).1 h))
  after_lookup-OneTold tx_info w (ok tx, w1) g = after_submission-OneTold tx_info tx w w1 _ g refl

  unless_failed-Told :
      (tx_info : ResubmitTx) (txs : List ResubmitTx) (w : W) (one : Option Response × W)
      → OneTold tx_info w one
      → ((w1 : W) → Told txs w1 (resubmit_all srv txs w1))
      → Told (tx_info ∷ txs) w (unless_failed srv (resubmit_all srv txs) one)
  unless_failed-Told tx_info txs w (some response, w1) (n, b) ih = (
    λ h. absurd (n h),
    λ h. let (e, g, f) = b h in ([], tx_info, txs, w, e, refl, finished, g, f),
  )
  unless_failed-Told tx_info txs w (none, w1) one ih = (
    λ h. following one ((ih w1).0 h),
    λ h.
        let (before, this, after, w2, e, q, all, g, f) = (ih w1).1 h in
        (tx_info ∷ before, this, after, w2, e, ap (◌∷◌ tx_info) q, following one all, g, f),
  )

  pub resubmit_all-Told : (txs : List ResubmitTx) (w : W) → Told txs w (resubmit_all srv txs w)
  unfolding resubmit_all resubmit
  resubmit_all-Told [] w = (λ _. finished, λ h. absurd (omega (arith, h)))
  resubmit_all-Told (tx_info ∷ txs) w =
      unless_failed-Told tx_info txs w _ (after_lookup-OneTold tx_info w _ refl)
        (resubmit_all-Told txs)

  -- For a request that can be read: an answer with status 200 says that all its transactions were
  -- resubmitted, in their order, and one with status 400 that those before one were and that the
  -- storage does not find that one.
  pub resubmit_failed_txs-Told :
      (req_body : Bytes) (request : ResubmitRequest) (w : W)
      → srv.decode_request req_body ≡ ok request
      → Told request.txs w (resubmit_failed_txs srv req_body w)
  unfolding resubmit_failed_txs after_decode
  resubmit_failed_txs-Told req_body request w d =
      subst (λ r. Told request.txs w (after_decode srv r w)) (sym d)
        (resubmit_all-Told request.txs w)

  resubmit-Resubmitted :
      (tx_info : ResubmitTx) (w w' : W)
      → Resubmitted tx_info w w'
      → resubmit srv tx_info w ≡ (none, w')
  unfolding resubmit after_lookup after_submission
  resubmit-Resubmitted tx_info w w' (tx, w1, g, p) =
      ap (after_lookup srv tx_info) g ∙ ap (after_submission srv) p

  -- The converse: resubmissions that lead from one state to another are answered by 200.
  pub resubmit_all-AllResubmitted :
      (txs : List ResubmitTx) (w w' : W)
      → AllResubmitted txs w w'
      → resubmit_all srv txs w ≡ (record { status_code = status_ok; body = [] }, w')
  unfolding resubmit_all
  resubmit_all-AllResubmitted [] w w' finished = refl
  resubmit_all-AllResubmitted (tx_info ∷ txs) w w' (following {w1 = w1} one rest) =
      ap (unless_failed srv (resubmit_all srv txs)) (resubmit-Resubmitted tx_info w w1 one)
      ∙ resubmit_all-AllResubmitted txs w1 w' rest

  pub resubmit_failed_txs-decoded :
      (req_body : Bytes) (request : ResubmitRequest) (w : W)
      → srv.decode_request req_body ≡ ok request
      → resubmit_failed_txs srv req_body w ≡ resubmit_all srv request.txs w
  unfolding resubmit_failed_txs after_decode
  resubmit_failed_txs-decoded req_body request w d = rw d refl
