-- ===== src/KvProcessor.antt =====
-- internal/kvprocessor/kvprocessor.go and internal/tmquerier/querier.go: proves values of the
-- target chain's stores to Neutron.
pub mod Period
pub mod Submission
use neutron_query_relayer.Prelude.{
  ℕ, ◌+◌, ◌-◌, ◌%◌, Bool, true, false, not, ◌&&◌, ◌||◌, Option, none, some, List, [], ◌∷◌, ◌++◌,
  Bytes, codes, leb, ◌==◌, if◌then◌else◌, u64,
}
use neutron_query_relayer.Errors.{Error, Result, ok, err, plain, wrap, context}
use neutron_query_relayer.Exec.{Exec, pure, raise, lift, wrapping, attempt, ◌>>=◌, ◌>>◌}
use neutron_query_relayer.Relay.{KvKey, MessageKv}
use neutron_query_relayer.Interfaces.{Storage}
use neutron_query_relayer.Interfaces

-- neutrontypes.StorageValue; the proof's operations are carried along unread
pub record StorageValue : Type 0 where
  pub storage_prefix : Bytes
  pub key : Bytes
  pub value : Bytes
  pub proof : Bytes

-- what is read of the response of an ABCI query
pub record ProofResponse : Type 0 where
  pub value : Bytes
  pub proof_ops : Bytes
  pub height : ℕ

-- The struct with the querier's client in it, and what it calls of other code: the provider's
-- message is none if it is not a cosmos.CosmosMessage, and `retry.Do` stands for each of its uses.
pub record KvProcessor (W Header Msg : Type 0) : Type 0 where
  pub fetch : ℕ → Exec W Header
  -- path, data and height of the query
  pub abci_query : Bytes → Bytes → ℕ → Exec W ProofResponse
  pub min_kv_update_period : ℕ
  pub submit_kv_proof : ℕ → ℕ → ℕ → List StorageValue → Msg → Exec W (Unit {0})
  pub storage : Storage W
  pub query_latest_height : Exec W ℕ
  pub msg_update_client : Header → Exec W (Option Msg)
  pub retry_header : Exec W Header → Exec W Header
  pub retry_message : Exec W (Option Msg) → Exec W (Option Msg)
  pub revision_number_of : Header → ℕ

module _ {W Header Msg : Type 0} (p : KvProcessor W Header Msg) where
  -- a height of 0 asks for the latest state; the other ones are asked for at the IAVL height
  pub queried_height : ℕ → ℕ
  queried_height height = if not (height == 0) then height - 1 else height

  -- the query's answer, with the height of the block whose root the proof leads to
  pub query_tendermint_proof : ℕ → Bytes → Bytes → Exec W (StorageValue × ℕ)
  unfolding queried_height
  query_tendermint_proof height store_key key =
      if not (height == 0) && leb height 2
      then raise (plain (codes "proof queries at height <= 2 are not supported"))
      else (do
        response ← wrapping (codes "error making abci query for tendermint proof") (
            p.abci_query (codes "store/" ++ (store_key ++ codes "/key")) key
              (queried_height height))
        pure (
          record {
            storage_prefix = store_key;
            key = key;
            value = response.value;
            proof = response.proof_ops;
          },
          (response.height + 1) % u64,
        ))

  -- the loop over the keys, with the values and the height so far
  values_from : ℕ → List KvKey → List StorageValue → ℕ → Exec W (List StorageValue × ℕ)
  unfolding query_tendermint_proof
  values_from input_height [] st_values height = pure (st_values, height)
  values_from input_height (key ∷ keys) st_values height = do
    (value, h) ←
        wrapping (codes "failed to query tendermint proof")
          (query_tendermint_proof input_height key.path key.key)
    values_from input_height keys (st_values ++ value ∷ []) h

  pub get_storage_values : ℕ → List KvKey → Exec W (List StorageValue × ℕ)
  unfolding values_from
  get_storage_values input_height keys = values_from input_height keys [] 0

  -- what isQueryOnTime does with the height of the previous update
  on_time_after : ℕ → ℕ → ℕ → Exec W Bool
  on_time_after query_id current_block previous =
      if leb ((previous + p.min_kv_update_period) % u64) current_block
      then (do p.storage.set_last_query_height query_id current_block; pure true)
      else raise (plain (codes "attempted to update query results too soon"))

  pub is_query_on_time : ℕ → ℕ → Exec W Bool
  unfolding on_time_after
  is_query_on_time query_id current_block = if p.min_kv_update_period == 0 then pure true else (do
    (previous, found) ← p.storage.get_last_query_height query_id
    on_time_after query_id current_block previous)

  pub get_src_chain_header : ℕ → Exec W Header
  get_src_chain_header height = p.retry_header (p.fetch height)

  cosmos_message : Option Msg → Result Msg
  cosmos_message none =
      err (plain (codes "failed to cast provider.RelayerMessage to cosmos.CosmosMessage"))
  cosmos_message (some msg) = ok msg

  pub get_update_client_msg : Header → Exec W Msg
  unfolding cosmos_message
  get_update_client_msg src_header = do
    update_msg_relayer ← p.retry_message (p.msg_update_client src_header)
    lift (cosmos_message update_msg_relayer)

  pub submit_kv_with_proof : ℕ → ℕ → List StorageValue → Exec W (Unit {0})
  unfolding get_src_chain_header get_update_client_msg
  submit_kv_with_proof height query_id proof = do
    src_header ← wrapping (codes "failed to get header for height") (get_src_chain_header height)
    update_client_msg ←
        wrapping (codes "failed to getUpdateClientMsg") (get_update_client_msg src_header)
    wrapping (codes "could not submit proof") (
        p.submit_kv_proof ((height + (u64 - 1)) % u64) (p.revision_number_of src_header) query_id
          proof update_client_msg)

  -- `err != nil || !ok`; the text of a missing error is Go's `%!w(<nil>)`
  check_on_time : Result Bool → Result (Unit {0})
  check_on_time (err e) = err (wrap (codes "error on checking previous query update") e)
  check_on_time (ok true) = ok tt
  check_on_time (ok false) =
      err (plain (codes "error on checking previous query update: %!w(<nil>)"))

  unfoldable pub process_and_submit : MessageKv → Exec W (Unit {0})
  unfolding check_on_time is_query_on_time get_storage_values submit_kv_with_proof
  process_and_submit m = do
    latest_height ← wrapping (codes "failed to get header for src chain") p.query_latest_height
    on_time ← attempt (is_query_on_time m.query_id latest_height)
    lift (check_on_time on_time)
    (proofs, height) ←
        wrapping (codes "failed to get storage values with proofs")
          (get_storage_values latest_height m.kv_keys)
    submit_kv_with_proof height m.query_id proofs

  -- the methods that relay.KVProcessor asks for
  unfoldable pub kv_processor : Interfaces.KvProcessor W
  unfolding process_and_submit
  kv_processor = record { process_and_submit = process_and_submit }
