-- ===== src/Storage.antt =====
-- internal/storage/leveldb.go: the queries' heights and the transactions' statuses in LevelDB.
pub mod Interface
pub mod Keys
pub mod Spec
pub mod Refinement
pub mod Contract
pub mod Lifecycle
pub mod Pending
pub mod Memory
pub mod MemoryCodecs
mod Examples
use mathlib.Core.Bool.{cond}
use neutron_query_relayer.Prelude.{
  ℕ, Bool, true, false, ◌||◌, Option, none, some, List, [], ◌∷◌, ◌++◌, Bytes, codes, if◌then◌else◌,
}
use neutron_query_relayer.Errors.{Error, Result, ok, err, wrap, context, not_found, ◌>>=◌, ◌>>◌}
use neutron_query_relayer.Relay.{
  Transaction, PendingSubmittedTxInfo, UnsuccessfulTxInfo, SubmittedTxInfo, SubmittedTxStatus,
  submitted, error_on_submit, committed, error_on_commit,
}
use Interface.{LevelDb, Json, Codecs}
use Keys.{
  submitted_tx_status_prefix, unsuccessful_tx_status_prefix, uint_to_bytes, bytes_to_uint,
  construct_tx_status_key, construct_cache_tx_key, construct_unsuccessful_queue_key,
  construct_pending_queue_key,
}

-- `==` on statuses
unfoldable pub status_eq : SubmittedTxStatus → SubmittedTxStatus → Bool
status_eq submitted submitted = true
status_eq error_on_submit error_on_submit = true
status_eq committed committed = true
status_eq error_on_commit error_on_commit = true
status_eq _ _ = false

module _ {Db Batch : Type 0} (ldb : LevelDb Db Batch) (js : Codecs) where
  -- the loops over an iterator append what each value decodes to
  decode_pending : List Bytes → List PendingSubmittedTxInfo → Result (List PendingSubmittedTxInfo)
  decode_pending [] txs = ok txs
  decode_pending (value ∷ rest) txs = do
    tx_info ←
        context (codes "failed to unmarshal data into PendingSubmittedTxInfo")
          (js.pending_info.unmarshal value)
    decode_pending rest (txs ++ tx_info ∷ [])

  decode_unsuccessful : List Bytes → List UnsuccessfulTxInfo → Result (List UnsuccessfulTxInfo)
  decode_unsuccessful [] txs = ok txs
  decode_unsuccessful (value ∷ rest) txs = do
    tx_info ←
        context (codes "failed to unmarshal data into UnsuccessfulTxInfo")
          (js.unsuccessful_info.unmarshal value)
    decode_unsuccessful rest (txs ++ tx_info ∷ [])

  pub get_all_pending_txs : Db → Result (List PendingSubmittedTxInfo)
  unfolding decode_pending
  get_all_pending_txs db = decode_pending (ldb.values db submitted_tx_status_prefix) []

  pub get_all_unsuccessful_txs : Db → Result (List UnsuccessfulTxInfo)
  unfolding decode_unsuccessful
  get_all_unsuccessful_txs db = decode_unsuccessful (ldb.values db unsuccessful_tx_status_prefix) []

  pub get_cached_tx : Db → ℕ → Bytes → Result Transaction
  get_cached_tx db query_id hash = do
    bytes ←
        context (codes "failed to get Transaction for query_id + hash")
          (ldb.get db (construct_cache_tx_key query_id hash))
    tx_info ←
        context (codes "failed to unmarshal data into Transaction") (js.transaction.unmarshal bytes)
    context (codes "failed to unmarshal data into Transaction") (js.unmarshal_map bytes)
    ok tx_info

  -- the two results `block, found`
  pub found_height : Result Bytes → Result (ℕ × Bool)
  found_height (ok bytes) = do
    res ← context (codes "failed converting bytest to uint") (bytes_to_uint bytes)
    ok (res, true)
  found_height (err not_found) = ok (0, false)
  found_height (err e) = err (wrap (codes "failed getting data from db") e)

  pub get_last_query_height : Db → ℕ → Result (ℕ × Bool)
  unfolding found_height
  get_last_query_height db query_id = found_height (ldb.get db (uint_to_bytes query_id))

  save_into_pending_queue : Batch → Bytes → PendingSubmittedTxInfo → Result Batch
  save_into_pending_queue t neutron_tx_hash tx_info = do
    bytes ←
        context (codes "failed to marshal PendingSubmittedTxInfo") (js.pending_info.marshal tx_info)
    context (codes "failed to save txInfo into the pending queue")
        (ldb.batch_put t (construct_pending_queue_key neutron_tx_hash) bytes)

  remove_from_pending_queue : Batch → Bytes → Result Batch
  remove_from_pending_queue t neutron_tx_hash =
      context (codes "failed to remove PendingSubmittedTxInfo with neuton tx hash")
        (ldb.batch_delete t (construct_pending_queue_key neutron_tx_hash))

  save_into_unsuccessful_queue : Batch → ℕ → Bytes → UnsuccessfulTxInfo → Result Batch
  save_into_unsuccessful_queue t query_id tx_hash tx_info = do
    bytes ←
        context (codes "failed to marshal UnsuccessfulTxInfo")
          (js.unsuccessful_info.marshal tx_info)
    context (codes "failed to save unsuccessful txInfo into the storage")
        (ldb.batch_put t (construct_unsuccessful_queue_key query_id tx_hash) bytes)

  remove_from_unsuccessful_queue : Batch → ℕ → Bytes → Result Batch
  remove_from_unsuccessful_queue t query_id tx_hash =
      context (codes "failed to remove UnsuccessfulTxInfo")
        (ldb.batch_delete t (construct_unsuccessful_queue_key query_id tx_hash))

  remove_cached_tx : Batch → ℕ → Bytes → Result Batch
  remove_cached_tx t query_id tx_hash =
      context (codes "failed to remove cached tx")
        (ldb.batch_delete t (construct_cache_tx_key query_id tx_hash))

  cache_processed_tx : Batch → ℕ → Bytes → Transaction → Result Batch
  cache_processed_tx t query_id tx_hash tx = do
    bytes ← context (codes "failed to marshal relay.Transaction") (js.transaction.marshal tx)
    context (codes "failed to save cachedTx in the storage")
        (ldb.batch_put t (construct_cache_tx_key query_id tx_hash) bytes)

  -- the marshalled status is put under the key of the transaction
  pub status_step : Batch → ℕ → Bytes → SubmittedTxInfo → Result Batch
  status_step t query_id hash tx_info = do
    bytes ← context (codes "failed to Marshal SubmittedTxInfo") (js.tx_info.marshal tx_info)
    context (codes "failed to set tx txInfo")
        (ldb.batch_put t (construct_tx_status_key query_id hash) bytes)

  -- `if processedTx != nil`
  cache_step : Batch → ℕ → Bytes → Option Transaction → Result Batch
  unfolding cache_processed_tx
  cache_step t query_id hash none = ok t
  cache_step t query_id hash (some tx) =
      context (codes "failed to cache processed tx") (cache_processed_tx t query_id hash tx)

  -- the queue of submitted transactions
  pending_step : Batch → ℕ → Bytes → Bytes → SubmittedTxInfo → Result Batch
  unfolding status_eq save_into_pending_queue remove_from_pending_queue
  pending_step t query_id hash neutron_hash tx_info =
      if status_eq tx_info.status submitted
      then context (codes "failed to save txInfo into pending queue") (
          save_into_pending_queue t neutron_hash
            (record { query_id = query_id; submitted_tx_hash = hash; neutron_hash = neutron_hash }))
      else if status_eq tx_info.status committed || status_eq tx_info.status error_on_commit
      then context (codes "failed to remove txInfo from pending queue")
          (remove_from_pending_queue t neutron_hash)
      else ok t

  unsuccessful_step : Batch → ℕ → ℕ → Bytes → Bytes → SubmittedTxInfo → Result Batch
  unfolding status_eq save_into_unsuccessful_queue
  unsuccessful_step t now query_id hash neutron_hash tx_info =
      if status_eq tx_info.status error_on_commit || status_eq tx_info.status error_on_submit
      then context (codes "failed to save unsuccessfulTxInfo into Unsuccessful queue") (
          save_into_unsuccessful_queue t query_id hash (record {
            query_id = query_id;
            submitted_tx_hash = hash;
            neutron_hash = neutron_hash;
            error_time = now;
            status = tx_info.status;
            message = tx_info.message;
          }))
      else ok t

  committed_step : Batch → ℕ → Bytes → SubmittedTxInfo → Result Batch
  unfolding status_eq remove_from_unsuccessful_queue remove_cached_tx
  committed_step t query_id hash tx_info =
      if status_eq tx_info.status committed
      then (do
        t1 ←
            context (codes "failed to remove txInfo from UnsuccessfulQueue")
              (remove_from_unsuccessful_queue t query_id hash)
        context (codes "failed to remove cachedTxData from the cached queue")
            (remove_cached_tx t1 query_id hash))
      else ok t

  -- what is written between the opening of the transaction and its commit
  pub write_tx_status :
      Batch → ℕ → ℕ → Bytes → Bytes → SubmittedTxInfo → Option Transaction → Result Batch
  unfolding status_step cache_step pending_step unsuccessful_step committed_step
  write_tx_status t now query_id hash neutron_hash tx_info processed_tx = do
    t1 ← status_step t query_id hash tx_info
    t2 ← cache_step t1 query_id hash processed_tx
    t3 ← pending_step t2 query_id hash neutron_hash tx_info
    t4 ← unsuccessful_step t3 now query_id hash neutron_hash tx_info
    committed_step t4 query_id hash tx_info

  -- an error leaves the database as it was: the deferred `Discard` drops the transaction
  pub keep : Db → Result Db → Result (Unit {0}) × Db
  keep db (ok db') = (ok tt, db')
  keep db (err e) = (err e, db)

  -- `now` is the clock's time, `time.Now()`
  pub set_tx_status :
      ℕ → ℕ → Bytes → Bytes → SubmittedTxInfo → Option Transaction → Db → Result (Unit {0}) × Db
  unfolding keep write_tx_status
  set_tx_status now query_id hash neutron_hash tx_info processed_tx db = keep db (do
    t ← context (codes "failed to open leveldb transaction") (ldb.open_transaction db)
    t' ← write_tx_status t now query_id hash neutron_hash tx_info processed_tx
    ldb.commit t')

  pub tx_exists : Db → ℕ → Bytes → Result Bool
  tx_exists db query_id hash =
      context (codes "failed to get if storage has key")
        (ldb.has db (construct_tx_status_key query_id hash))

  pub set_last_query_height : ℕ → ℕ → Db → Result (Unit {0}) × Db
  unfolding keep
  set_last_query_height query_id block db = keep db (
      context (codes "failed to save last query height to storage")
        (ldb.put db (uint_to_bytes query_id) (uint_to_bytes block)))
