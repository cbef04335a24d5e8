-- ===== src/Submitter.antt =====
-- internal/submit/submitter_impl.go: packs proofs into messages and sends them.
pub mod Messages
use neutron_query_relayer.Prelude.{ℕ, Bool, false, List, [], ◌∷◌, ◌++◌, Bytes, codes}
use neutron_query_relayer.Errors.{Error, Result, ok, err, context, ◌>>=◌ as ◌>>=r◌}
use neutron_query_relayer.Exec.{Exec, pure, lift, wrapping, ◌>>=◌, ◌>>◌}
use neutron_query_relayer.TxProcessor.{Block}
use neutron_query_relayer.KvProcessor.{StorageValue}
use neutron_query_relayer.TxSender
use neutron_query_relayer.TxSender.{TxSender}

-- the content of neutrontypes.QueryResult: the values of a KV query, or a block of a TX query
pub data QueryResult (Any : Type 0) : Type 0 where
  -- height, revision and whether the callbacks are allowed
  kv_results : ℕ → ℕ → Bool → List StorageValue → QueryResult Any
  tx_results : Block Any → QueryResult Any

pub record MsgSubmitQueryResult (Any : Type 0) : Type 0 where
  pub query_id : ℕ
  pub sender : Bytes
  pub result : QueryResult Any
  pub client_id : Bytes

-- sdk.Msg: a message of another module, as MsgUpdateClient, or a result
pub data Msg (Other Any : Type 0) : Type 0 where
  other : Other → Msg Other Any
  submit_query_result : MsgSubmitQueryResult Any → Msg Other Any

-- The constants of the struct and of its sender, and the check of a message in Neutron's code.
pub record SubmitterImpl (W Other Any Float LegacyDec : Type 0) : Type 0 where
  pub env : TxSender.Env W (Msg Other Any) Float LegacyDec
  pub allow_kv_callbacks : Bool
  pub client_id : Bytes
  pub validate : MsgSubmitQueryResult Any → Result (Unit {0})

module _ {W Other Any Float LegacyDec : Type 0}
    (si : SubmitterImpl W Other Any Float LegacyDec) where
  abbrev pub result_msg : ℕ → Bytes → QueryResult Any → MsgSubmitQueryResult Any
  result_msg query_id sender_addr query_result = record {
    query_id = query_id;
    sender = sender_addr;
    result = query_result;
    client_id = si.client_id;
  }

  build : Bytes → Bytes → ℕ → QueryResult Any → Result (List (Msg Other Any))
  build no_sender invalid query_id query_result =
      context no_sender (TxSender.sender_addr si.env) >>=r λ sender_addr.
      context invalid (si.validate (result_msg query_id sender_addr query_result)) >>=r λ _.
      ok (submit_query_result (result_msg query_id sender_addr query_result) ∷ [])

  pub build_proof_msg : ℕ → ℕ → ℕ → Bool → List StorageValue → Result (List (Msg Other Any))
  unfolding build
  build_proof_msg height revision query_id allow_kv_callbacks proof =
      build (codes "could not fetch sender addr for building proof msg")
        (codes "invalid proof message") query_id
        (kv_results height revision allow_kv_callbacks proof)

  pub build_tx_proof_msg : ℕ → Block Any → Result (List (Msg Other Any))
  unfolding build
  build_tx_proof_msg query_id proof =
      build (codes "could not fetch sender addr for building tx proof msg")
        (codes "invalid tx proof message") query_id (tx_results proof)

  pub submit_kv_proof : ℕ → ℕ → ℕ → List StorageValue → Msg Other Any → Exec (TxSender W) (Unit {0})
  unfolding build_proof_msg
  submit_kv_proof height revision query_id proof update_client_msg = do
    msgs ←
        wrapping (codes "could not build proof msg")
          (lift (build_proof_msg height revision query_id si.allow_kv_callbacks proof))
    TxSender.send si.env ((update_client_msg ∷ []) ++ msgs)
    pure tt

  pub submit_tx_proof : ℕ → Block Any → Exec (TxSender W) Bytes
  unfolding build_tx_proof_msg
  submit_tx_proof query_id proof = do
    msgs ←
        wrapping (codes "could not build tx proof msg") (lift (build_tx_proof_msg query_id proof))
    TxSender.send si.env msgs
