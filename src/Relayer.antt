-- ===== src/Relayer.antt =====
-- internal/relay/relayer.go: takes queries from the subscriber and dispatches them.
pub mod Checkpoint
pub mod Critical
pub mod Counting
pub mod Coverage
use neutron_query_relayer.Prelude.{
  ℕ, ◌+◌, ◌-◌, Bool, true, false, ◌&&◌, Option, none, some, List, [], ◌∷◌, ◌++◌, Bytes, bytes_eq,
  codes, ltb, ◌==◌, if◌then◌else◌,
}
use neutron_query_relayer.Errors.{Error, Result, ok, err, plain, wrap, context, unwrap, as_critical}
use neutron_query_relayer.Exec.{Exec, pure, raise, lift, wrapping, ◌>>=◌, ◌>>◌}
use neutron_query_relayer.Relay.{Transaction, TxValue, MessageKv, MessageTx, RegisteredQuery}
use neutron_query_relayer.TxFilter.{
  Float64, TransactionsFilterItem, query_from_tx_filter, height_item,
}
use neutron_query_relayer.Interfaces.{Storage, TxQuerier, TxProcessor, KvProcessor}

-- The fields of the struct that its methods use, and what they call of other code: the JSON
-- decoder of a filter, the target chain's latest height, and the hex print of a transaction's hash.
pub record Relayer (W Float : Type 0) : Type 0 where
  pub initial_tx_search_offset : ℕ
  pub tx_querier : TxQuerier W
  pub storage : Storage W
  pub tx_processor : TxProcessor W
  pub kv_processor : KvProcessor W
  pub query_latest_height : Exec W ℕ
  pub floats : Float64 Float
  pub unmarshal_filter : Bytes → Result (List (TransactionsFilterItem Float))
  pub tx_hash : Bytes → Bytes

pub record Requests : Type 0 where
  pub failed : ℕ
  pub succeeded : ℕ

abbrev pub query_type_kv : Bytes
query_type_kv = codes "kv"

abbrev pub query_type_tx : Bytes
query_type_tx = codes "tx"

-- errors.As(errors.Unwrap(err), &critErr)
unfoldable pub is_critical : Error → Bool
unfolding as_critical
is_critical e = elim (unwrap e) [ none ↦ false | some inner ↦ as_critical inner ]

module _ {W Float : Type 0} (r : Relayer W Float) where
  pub process_message_kv : MessageKv → Exec W (Unit {0})
  process_message_kv m = r.kv_processor.process_and_submit m

  initial_height : Exec W ℕ
  initial_height = if r.initial_tx_search_offset == 0 then pure 0 else do
    latest_height ←
        wrapping (codes "could not get latest target chain height") r.query_latest_height
    pure (
        if ltb r.initial_tx_search_offset latest_height
        then latest_height - r.initial_tx_search_offset
        else 0)

  pub get_last_query_height : ℕ → Exec W ℕ
  unfolding initial_height
  get_last_query_height query_id = do
    stored ←
        wrapping (codes "could not get last query height from storage")
          (r.storage.get_last_query_height query_id)
    if stored.1 then pure stored.0 else do
      height ← initial_height
      wrapping (codes "failed to set a 0 last height for an uninitialised query")
          (r.storage.set_last_query_height query_id height)
      pure height

  pub build_tx_query : MessageTx → Exec W Bytes
  build_tx_query m = do
    query_last_height ←
        wrapping (codes "could not get last query height") (get_last_query_height m.query_id)
    params ←
        wrapping (codes "could not unmarshal transactions filter")
          (lift (r.unmarshal_filter m.transactions_filter))
    wrapping (codes "failed to process tx query params")
        (lift (query_from_tx_filter r.floats (params ++ height_item query_last_height ∷ [])))

  abbrev pub save_height : ℕ → ℕ → Exec W (Unit {0})
  save_height query_id height =
      wrapping (codes "failed to save last height of query")
        (r.storage.set_last_query_height query_id height)

  -- one transaction of the stream, after the height before it was looked at
  pub process_tx : ℕ → Transaction → Exec W (Unit {0})
  process_tx query_id tx = do
    tx_exists ←
        wrapping (codes "failed to check tx existence")
          (r.storage.tx_exists query_id (r.tx_hash tx.tx.tx_data))
    if tx_exists
        then pure tt
        else wrapping (codes "failed to process txs")
            (r.tx_processor.process_and_submit query_id tx)

  pub close_block : ℕ → ℕ → ℕ → Exec W (Unit {0})
  close_block query_id last next =
      if ltb last next && ltb 0 last then save_height query_id last else pure tt

  -- `for tx := range txs`: gives the last processed height
  pub process_txs : ℕ → ℕ → List Transaction → Exec W ℕ
  process_txs query_id last [] = pure last
  process_txs query_id last (tx ∷ txs) = do
    close_block query_id last tx.height
    process_tx query_id tx
    process_txs query_id tx.height txs

  pub stopped : Option Error → Exec W (Unit {0})
  stopped none = pure tt
  stopped (some e) = raise (wrap (codes "failed to query txs") e)

  pub finish : ℕ → ℕ → Exec W (Unit {0})
  finish query_id last = if ltb 0 last then save_height query_id last else pure tt

  -- the rest of `processMessageTX` once the query string is built
  unfoldable pub process_stream : ℕ → List Transaction × Option Error → Exec W (Unit {0})
  unfolding process_tx close_block process_txs stopped finish
  process_stream query_id found = do
    last ← process_txs query_id 0 found.0
    stopped found.1
    finish query_id last

  pub process_message_tx : MessageTx → Exec W (Unit {0})
  process_message_tx m = do
    query_string ← wrapping (codes "failed to build tx query string") (build_tx_query m)
    found ← r.tx_querier.search_transactions query_string
    process_stream m.query_id found

  -- the body of `Run`'s `switch`
  pub dispatch : RegisteredQuery → Exec W (Unit {0})
  dispatch query =
      if bytes_eq query.query_type query_type_kv
      then process_message_kv (record { query_id = query.id; kv_keys = query.keys })
      else if bytes_eq query.query_type query_type_tx
      then process_message_tx
          (record { query_id = query.id; transactions_filter = query.transactions_filter })
      else raise (plain (codes "unknown query type"))

  -- only the branch of TX queries returns the error from `Run`
  pub stops : RegisteredQuery → Error → Bool
  unfolding is_critical
  stops query e =
      if bytes_eq query.query_type query_type_kv
      then false
      else bytes_eq query.query_type query_type_tx && is_critical e

  -- what one round of `Run` makes of the result; an error that stops it is handed out
  pub after_query :
      RegisteredQuery → Requests → Result (Unit {0}) × W → Option Error × (W × Requests)
  after_query query n (ok u, w) = (none, (w, record n { succeeded = n.succeeded + 1 }))
  after_query query n (err e, w) =
      if stops query e then (some e, (w, n)) else (none, (w, record n { failed = n.failed + 1 }))

  pub run_query : RegisteredQuery → W × Requests → Option Error × (W × Requests)
  unfolding after_query
  run_query query (w, n) = after_query query n (dispatch query w)

  -- `Run` over the queries that the channel yields until the context is cancelled
  pub run : List RegisteredQuery → Exec (W × Requests) (Unit {0})
  run [] s = (ok tt, s)
  run (query ∷ queries) s =
      let (stop, s') = run_query query s in
      elim stop [ none ↦ run queries s' | some e ↦ (err e, s') ]
