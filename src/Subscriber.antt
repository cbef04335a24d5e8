-- ===== src/Subscriber.antt =====
-- internal/subscriber/subscriber.go, with the events of utils.go and attributes.go: the active
-- queries, and when they are due.
pub mod Owners
pub mod Removal
pub mod Schedule
pub mod Watching
use neutron_query_relayer.Prelude.{
  ℕ, zero, suc, ◌+◌, ◌%◌, Bool, true, false, not, ◌&&◌, ◌||◌, Option, none, some, List, [], ◌∷◌,
  ◌++◌, Bytes, codes, bytes_eq, ltb, ◌==◌, if◌then◌else◌, u64, length, get_elem?,
}
use neutron_query_relayer.Errors.{
  Error, plain, wrap, not_found, critical, Result, ok, err, context, ◌>>=◌ as ◌>>=r◌,
}
use neutron_query_relayer.Exec.{Exec, pure, raise, lift, wrapping, attempt, ◌>>=◌, ◌>>◌}
use neutron_query_relayer.Loop.{Step, more, done, loop}
use neutron_query_relayer.Registry.{
  has_key, set_keys, Registry, is_query_ids_empty, is_addresses_empty, contains_query_id,
  contains_address, get_addresses,
}
use neutron_query_relayer.Strconv.{parse_uint}
use neutron_query_relayer.Relay.{RegisteredQuery}
use neutron_query_relayer.RestQuery.{
  RestQuery, item_to_neutron_registered_query, to_neutron_registered_query,
}
use neutron_query_relayer.QueryMap.{QueryMap, map_set, map_delete}
use neutron_query_relayer.Queries.{
  Names, Page, Env, is_watched_msg_type, is_watched_query_id, is_watched_address,
  get_neutron_registered_query, get_neutron_registered_queries,
}

unfoldable pub attr : Names → Bytes → Bytes
attr names key = names.event_type ++ (codes "." ++ key)

-- ResultEvent.Events: the values under each attribute's key, none for a missing key
abbrev pub Events : Type 0
Events = Bytes → List Bytes

-- The active queries, what was sent to the queue of tasks so far, and the world of the clients.
pub record Subscriber (W : Type 0) : Type 0 where
  pub active_queries : QueryMap
  pub tasks : List RegisteredQuery
  pub world : W

-- what arrives on the three channels
pub data Incoming : Type 0 where
  block : Incoming
  update : Events → Incoming
  remove : Events → Incoming

-- an index out of range, which ends the process
abbrev pub index_panic : Error
index_panic = plain (codes "panic: index out of range")

-- Is it the panic of a nil pointer, which no text was put before?
is_panic : Error → Bool
is_panic (plain s) = bytes_eq s (codes "panic: nil pointer dereference")
is_panic (wrap s e) = false
is_panic not_found = false
is_panic (critical e) = false

clause : Bytes → Bytes → Bytes
clause key value = key ++ (codes "='" ++ (value ++ codes "'"))

-- the time has not come when a query has a result and its period is not over
unfoldable pub is_early : ℕ → RegisteredQuery → Bool
is_early current_height q =
    not (q.last_submitted_result_local_height == 0)
    && ltb current_height ((q.last_submitted_result_local_height + q.update_period) % u64)

-- the loop of processBlockEvent: the queries after it, and those that it sends
unfoldable pub visit : ℕ → QueryMap → QueryMap × List RegisteredQuery
unfolding is_early
visit current_height [] = ([], [])
visit current_height ((k, q) ∷ m) =
    let rest = visit current_height m in
    if is_early current_height q then ((k, q) ∷ rest.0, rest.1) else (
      (k, record q { last_submitted_result_local_height = current_height }) ∷ rest.0,
      q ∷ rest.1,
    )

module _ {W : Type 0} (env : Env W) where
  -- a call of a client
  abbrev pub out : {A : Type 0} → Exec W A → Exec (Subscriber W) A
  out m s = let (res, w) = m s.world in (res, record s { world = w })

  has_count : Events → ℕ → Bytes → Bool
  unfolding attr
  has_count events count key = length (events (attr env.names key)) == count

  unfoldable pub check_events : Events → Result Bool
  unfolding attr has_count
  check_events events =
      let icq_events_count =
        length (events (attr env.names env.names.attribute_key_connection_id)) in
      if icq_events_count == 0
      then ok false
      else if not (has_count events icq_events_count env.names.attribute_key_kv_query)
          || not (has_count events icq_events_count env.names.attribute_transactions_filter_query)
          || not (has_count events icq_events_count env.names.attribute_key_query_id)
          || not (has_count events icq_events_count env.names.attribute_key_query_type)
      then err (plain (codes "events attributes length does not match"))
      else ok true

  pub subscriber_name : Bytes
  subscriber_name = codes "neutron-rpcClient"

  query_subscription : Bytes → Bytes
  unfolding attr clause
  query_subscription action =
      clause (attr env.names env.names.attribute_key_connection_id) env.connection_id
      ++ (codes " AND "
          ++ (clause (env.names.event_type ++ codes ".module") env.names.module_name
              ++ (codes " AND " ++ clause (env.names.event_type ++ codes ".action") action)))

  pub get_query_updated_subscription : Bytes
  unfolding query_subscription
  get_query_updated_subscription = query_subscription env.names.query_updated

  pub get_query_removed_subscription : Bytes
  unfolding query_subscription
  get_query_removed_subscription = query_subscription env.names.query_removed

  pub get_new_block_header_subscription : Bytes
  unfolding clause
  get_new_block_header_subscription = clause (codes "tm.event") env.names.event_new_block_header

  send_due : ℕ → Exec (Subscriber W) (Unit {0})
  unfolding visit
  send_due current_height s =
      let (m, due) = visit current_height s.active_queries in
      (ok tt, record s { active_queries = m; tasks = s.tasks ++ due })

  pub process_block_event : Exec (Subscriber W) (Unit {0})
  unfolding send_due
  process_block_event = do
    current_height ← wrapping (codes "failed to get Status") (out env.status)
    send_due current_height

  store_query : Bytes → RegisteredQuery → Exec (Subscriber W) (Unit {0})
  unfolding map_set
  store_query query_id q s =
      (ok tt, record s { active_queries = map_set s.active_queries query_id q })

  -- an error of the request only skips the query, but a panic ends the process
  store_loaded : Bytes → Result RegisteredQuery → Exec (Subscriber W) (Unit {0})
  unfolding store_query is_watched_msg_type is_panic
  store_loaded query_id (err e) = if is_panic e then raise e else pure tt
  store_loaded query_id (ok neutron_query) =
      if not (is_watched_msg_type env neutron_query.query_type)
      then pure tt
      else store_query query_id neutron_query

  load : Bytes → ℕ → Exec (Subscriber W) (Unit {0})
  unfolding store_loaded is_watched_query_id get_neutron_registered_query
  load query_id query_id_number =
      if not (is_watched_query_id env query_id_number) then pure tt else (do
        loaded ← attempt (out (get_neutron_registered_query env query_id))
        store_loaded query_id loaded)

  update_one : Bytes → Bytes → Exec (Subscriber W) (Unit {0})
  unfolding load is_watched_address parse_uint
  update_one owner query_id = if not (is_watched_address env owner) then pure tt else (do
    query_id_number ← wrapping (codes "failed to parse queryID") (lift (parse_uint query_id))
    load query_id query_id_number)

  -- slice[idx]
  at : List Bytes → ℕ → Result Bytes
  at xs idx = elim (get_elem? xs idx) [ none ↦ err index_panic | some x ↦ ok x ]

  -- the loop over the indices from `idx` on, of which there are as many as the list has elements
  update_all : Events → List Bytes → ℕ → Exec (Subscriber W) (Unit {0})
  unfolding update_one at attr
  update_all events [] idx = pure tt
  update_all events (c ∷ cs) idx = do
    owner ← lift (at (events (attr env.names env.names.attribute_key_owner)) idx)
    query_id ← lift (at (events (attr env.names env.names.attribute_key_query_id)) idx)
    update_one owner query_id
    update_all events cs (idx + 1)

  unfoldable pub process_update_event : Events → Exec (Subscriber W) (Unit {0})
  unfolding update_all check_events attr
  process_update_event events = do
    matching ← wrapping (codes "failed to checkEvents") (lift (check_events events))
    if matching
        then update_all events (events (attr env.names env.names.attribute_key_connection_id)) 0
        else pure tt

  delete_query : Bytes → Exec (Subscriber W) (Unit {0})
  unfolding map_delete
  delete_query query_id s =
      (ok tt, record s { active_queries = map_delete s.active_queries query_id })

  remove_all : Events → List Bytes → ℕ → Exec (Subscriber W) (Unit {0})
  unfolding delete_query at attr
  remove_all events [] idx = pure tt
  remove_all events (c ∷ cs) idx = do
    query_id ← lift (at (events (attr env.names env.names.attribute_key_query_id)) idx)
    delete_query query_id
    remove_all events cs (idx + 1)

  pub process_remove_event : Events → Exec (Subscriber W) (Unit {0})
  unfolding remove_all check_events attr
  process_remove_event events = do
    matching ← wrapping (codes "failed to checkEvents") (lift (check_events events))
    if matching
        then remove_all events (events (attr env.names env.names.attribute_key_connection_id)) 0
        else pure tt

  -- the three goroutines, in one of their orders; an error is logged and dropped
  pub unsubscribe : Exec (Subscriber W) (Unit {0})
  unfolding get_query_updated_subscription get_query_removed_subscription
      get_new_block_header_subscription
  unsubscribe = do
    attempt (out (env.rpc_unsubscribe get_query_updated_subscription))
    attempt (out (env.rpc_unsubscribe get_query_removed_subscription))
    attempt (out (env.rpc_unsubscribe get_new_block_header_subscription))
    pure tt

  process_event : Incoming → Exec (Subscriber W) (Unit {0})
  unfolding process_block_event process_update_event process_remove_event
  process_event block = wrapping (codes "failed to processBlockEvent") process_block_event
  process_event (update events) =
      wrapping (codes "failed to processUpdateEvent") (process_update_event events)
  process_event (remove events) =
      wrapping (codes "failed to processRemoveEvent") (process_remove_event events)

  -- the loop over what arrives, in its order, until the context is cancelled
  pub process_events : List Incoming → Exec (Subscriber W) (Unit {0})
  unfolding process_event
  process_events [] = pure tt
  process_events (event ∷ events) = do process_event event; process_events events

  -- a call of `defer`red code after `m`, which keeps the result
  deferred : {A : Type 0} → Exec (Subscriber W) A → Exec (Subscriber W) A
  unfolding unsubscribe
  deferred m s = let (res, s') = m s in (res, (unsubscribe s').1)

  subscribe_to : Bytes → Exec (Subscriber W) (Unit {0})
  subscribe_to subscription =
      wrapping (codes "could not subscribe to events") (out (env.rpc_subscribe subscription))

  listen : List Incoming → Exec (Subscriber W) (Unit {0})
  unfolding subscribe_to process_events get_query_updated_subscription
      get_query_removed_subscription get_new_block_header_subscription
  listen events = do
    subscribe_to get_query_updated_subscription
    subscribe_to get_query_removed_subscription
    subscribe_to get_new_block_header_subscription
    process_events events

  start : List Incoming → Option QueryMap → Exec (Subscriber W) (Option (Unit {0}))
  unfolding deferred listen
  start events none s = (ok none, s)
  start events (some queries) s =
      (deferred (listen events) >>= λ u. pure (some u)) (record s { active_queries = queries })

  -- `none` while the loop over the pages has not ended
  pub subscribe : ℕ → List Incoming → Exec (Subscriber W) (Option (Unit {0}))
  unfolding start get_neutron_registered_queries
  subscribe fuel events = do
    queries ←
        wrapping (codes "could not getNeutronRegisteredQueries")
          (out (get_neutron_registered_queries env fuel))
    start events queries
