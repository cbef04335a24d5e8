-- ===== src/TxProcessor/Escalation.antt =====
-- Which errors of internal/txprocessor/txprocessor.go are critical.
use neutron_query_relayer.Prelude.{
  ℕ, ◌≡◌, refl, false, not, ◌+◌, ◌%◌, Option, [], Bytes, codes, arith, u64,
}
use neutron_query_relayer.Errors.{Error, wrap, critical, Result, ok, err, message, context-ok}
use neutron_query_relayer.Exec.{lift}
use neutron_query_relayer.Relay.{Transaction, SubmittedTxInfo}
use neutron_query_relayer.Fails.{
  Fails, Fails-pure, Fails-raise, Fails-if, Fails-wrapping, Fails-bind, Fails-bind_eq, Fails-mono,
}
use neutron_query_relayer.TxProcessor.{
  Block, TxProcessor, get_trusted_header, prepare_headers, tx_to_block, go,
  process_successful_tx_submission, process_failed_tx_submission, after_submission,
  submit_tx_with_proofs, process_and_submit,
}

module _ {W Header Any : Type 0} (r : TxProcessor W Header Any) where
  -- An error that came back from a submission of the transaction's block, and that the configured
  -- expression does not match.
  abbrev pub IsUnignored : ℕ → Transaction → Error → Type 0
  IsUnignored q tx e =
      (block : Block Any) × (w : W) × (w' : W) × ((tx_to_block r tx w).0 ≡ ok block)
      × ((r.submit_tx_proof q block w').0 ≡ err e)
      × (r.ignore_errors (message e) ≡ false)

  -- What is assumed of the other parts: none of their errors is an `ErrSubmitTxProofCritical`.
  pub record Uncritical : Type 0 where
    pub fetch_plain : (h : ℕ) → Fails (λ _. ⊥) (r.fetch h)
    pub pack_plain : (h : Header) → Fails {W = W} (λ _. ⊥) (lift (r.pack_client_message h))
    pub status_plain :
        (q : ℕ) (h n : Bytes) (i : SubmittedTxInfo) (t : Option Transaction)
        → Fails (λ _. ⊥) (r.storage.set_tx_status q h n i t)

  module _ (u : Uncritical) where
    get_trusted_header_fails : (P : Error → Type 0) (h : ℕ) → Fails P (get_trusted_header r h)
    unfolding get_trusted_header
    get_trusted_header_fails P h =
        Fails-bind P _ _ (Fails-wrapping P _ _ (Fails-mono P _ (u.fetch_plain h)))
          (λ header. Fails-wrapping P _ _ (Fails-mono P _ (u.pack_plain header)))

    tx_to_block_fails : (P : Error → Type 0) (tx : Transaction) → Fails P (tx_to_block r tx)
    unfolding tx_to_block prepare_headers
    tx_to_block_fails P tx =
        Fails-bind P _ _
          (Fails-wrapping P _ _ (
            Fails-bind P _ _ (Fails-wrapping P _ _ (get_trusted_header_fails P tx.height)) (λ h1.
              Fails-bind P _ _
                (Fails-wrapping P _ _ (get_trusted_header_fails P ((tx.height + 1) % u64)))
                (λ h2. Fails-pure P (h1, h2)))))
          (λ headers. Fails-pure P _)

    after_submission_fails :
        (P : Error → Type 0) (q : ℕ) (h : Bytes) (tx : Transaction) (res : Result Bytes)
        → ((e : Error) → res ≡ err e → r.ignore_errors (message e) ≡ false → P e)
        → Fails P (after_submission r q h tx res)
    unfolding after_submission process_successful_tx_submission process_failed_tx_submission go
    after_submission_fails P q h tx (ok n) k =
        Fails-bind P _ _ (Fails-wrapping P _ _ (Fails-mono P _ (u.status_plain q h n _ _)))
          (λ _. record { at = λ w. tt })
    after_submission_fails P q h tx (err e) k =
        Fails-if P (not (r.ignore_errors (message e))) _ _
          (λ unignored. Fails-raise P (critical e) (k e refl (ground (arith, unignored))))
          (λ _. Fails-wrapping P _ _ (Fails-mono P _ (u.status_plain q h [] _ _)))

    -- If fetching and packing headers and recording statuses never fail critically, a critical
    -- error of the TXProcessor is about an error that came back from submitting the transaction's
    -- block, which the configured expression does not match.
    pub process_and_submit_fails :
        (q : ℕ) (tx : Transaction) → Fails (IsUnignored q tx) (process_and_submit r q tx)
    unfolding process_and_submit submit_tx_with_proofs
    process_and_submit_fails q tx =
        let P = IsUnignored q tx in
        Fails-bind_eq P _ _ (Fails-wrapping P _ _ (tx_to_block_fails P tx)) (λ w block b.
          Fails-wrapping P _ _ (record {
            at = λ w'.
                (after_submission_fails P q _ _ (r.submit_tx_proof q block w').0
                    (λ e s i. (block, w, w', context-ok _ _ b, s, i))).at
                  _;
          }))

  -- A submission error that the expression does not match comes back critical, in the state that
  -- the submission left.
  pub process_and_submit-escalates :
      (q : ℕ) (tx : Transaction) (w w1 w2 : W) (block : Block Any) (e : Error)
      → tx_to_block r tx w ≡ (ok block, w1)
      → r.submit_tx_proof q block w1 ≡ (err e, w2)
      → r.ignore_errors (message e) ≡ false
      → process_and_submit r q tx w ≡ (err (wrap (codes "failed to submit block") (critical e)), w2)
  unfolding process_and_submit submit_tx_with_proofs process_failed_tx_submission
  process_and_submit-escalates q tx w w1 w2 block e b s i = rw (b, s, i) refl
