-- ===== src/Submitter/Messages.antt =====
-- The messages of internal/submit/submitter_impl.go.
use neutron_query_relayer.Prelude.{ℕ, ◌≡◌, ◌⊎◌, inl, inr, refl, List, [], ◌∷◌, Bytes, codes}
use neutron_query_relayer.Errors.{Error, ok, err, wrap, Result-cases}
use neutron_query_relayer.Exec.{pure, ◌>>◌}
use neutron_query_relayer.TxProcessor.{Block}
use neutron_query_relayer.KvProcessor.{StorageValue}
use neutron_query_relayer.TxSender.{TxSender, sender_addr, send}
use neutron_query_relayer.Submitter.{
  QueryResult, kv_results, tx_results, Msg, submit_query_result, SubmitterImpl, result_msg, build,
  build_proof_msg, build_tx_proof_msg, submit_kv_proof, submit_tx_proof,
}

module _ {W Other Any Float LegacyDec : Type 0}
    (si : SubmitterImpl W Other Any Float LegacyDec) where
  -- The sender's address is known and the message with the result is valid.
  abbrev pub Valid : ℕ → QueryResult Any → Bytes → Type 0
  Valid query_id query_result sender =
      (sender_addr si.env ≡ ok sender)
      × (si.validate (result_msg si query_id sender query_result) ≡ ok tt)

  -- the two ways in which the messages of a result are built
  build-cases :
      (no_sender invalid : Bytes) (query_id : ℕ) (query_result : QueryResult Any)
      → ((sender : Bytes) × Valid query_id query_result sender
          × (build si no_sender invalid query_id query_result
              ≡ ok (submit_query_result (result_msg si query_id sender query_result) ∷ [])))
        ⊎ ((e : Error) × (build si no_sender invalid query_id query_result ≡ err e))
  unfolding build
  build-cases no_sender invalid query_id query_result = elim (Result-cases (sender_addr si.env)) [
    | inr (e, k) ↦ inr (wrap no_sender e, rw k refl)
    | inl (sender, k) ↦
        elim (Result-cases (si.validate (result_msg si query_id sender query_result))) [
          | inr (e, v) ↦ inr (wrap invalid e, rw (k, v) refl)
          | inl (u, v) ↦ inl (sender, (k, v), rw (k, v) refl)
        ]
  ]

  -- A KV proof is sent as one transaction of two messages, the update of the client first, when
  -- the sender's address is known and the message is valid; or nothing is sent and there is an
  -- error.
  pub submit_kv_proof-sends :
      (height revision query_id : ℕ) (proof : List StorageValue) (update : Msg Other Any)
      (s : TxSender W)
      → ((sender : Bytes) × Valid query_id
            (kv_results height revision si.allow_kv_callbacks proof)
            sender
          × (submit_kv_proof si height revision query_id proof update s
              ≡ (send si.env (
                      update
                      ∷ submit_query_result (
                          result_msg si query_id sender
                            (kv_results height revision si.allow_kv_callbacks proof))
                      ∷ [])
                    >> pure tt)
                  s))
        ⊎ ((e : Error) × (submit_kv_proof si height revision query_id proof update s ≡ (err e, s)))
  unfolding submit_kv_proof build_proof_msg
  submit_kv_proof-sends height revision query_id proof update s =
      elim (build-cases (codes "could not fetch sender addr for building proof msg")
        (codes "invalid proof message") query_id
        (kv_results height revision si.allow_kv_callbacks proof)) [
          | inl (sender, v, b) ↦ inl (sender, v, rw b refl)
          | inr (e, b) ↦ inr (wrap (codes "could not build proof msg") e, rw b refl)
        ]

  -- A TX proof is sent as one transaction of one message, when the sender's address is known and
  -- the message is valid; or nothing is sent and there is an error.
  pub submit_tx_proof-sends :
      (query_id : ℕ) (proof : Block Any) (s : TxSender W)
      → ((sender : Bytes) × Valid query_id (tx_results proof) sender
          × (submit_tx_proof si query_id proof s
              ≡ send si.env
                  (submit_query_result (result_msg si query_id sender (tx_results proof)) ∷ [])
                  s))
        ⊎ ((e : Error) × (submit_tx_proof si query_id proof s ≡ (err e, s)))
  unfolding submit_tx_proof build_tx_proof_msg
  submit_tx_proof-sends query_id proof s =
      elim (build-cases (codes "could not fetch sender addr for building tx proof msg")
        (codes "invalid tx proof message") query_id (tx_results proof)) [
          | inl (sender, v, b) ↦ inl (sender, v, rw b refl)
          | inr (e, b) ↦ inr (wrap (codes "could not build tx proof msg") e, rw b refl)
        ]
