-- ===== src/Queries.antt =====
-- internal/subscriber/utils.go: which queries are watched, and how they are fetched from Neutron.
pub mod Paging
pub mod Watched
use neutron_query_relayer.Prelude.{
  ℕ, zero, suc, ◌+◌, ◌%◌, Bool, true, false, not, ◌&&◌, ◌||◌, Option, none, some, List, [], ◌∷◌,
  ◌++◌, Bytes, codes, bytes_eq, ltb, ◌==◌, if◌then◌else◌, u64, length, get_elem?,
}
use neutron_query_relayer.Errors.{Error, Result, ok, err, plain, context, ◌>>=◌ as ◌>>=r◌}
use neutron_query_relayer.Exec.{Exec, pure, raise, lift, wrapping, attempt, ◌>>=◌, ◌>>◌}
use neutron_query_relayer.Loop.{Step, more, done, loop}
use neutron_query_relayer.Registry.{
  has_key, set_keys, Registry, is_query_ids_empty, is_addresses_empty, contains_query_id,
  contains_address, get_addresses,
}
use neutron_query_relayer.Strconv.{parse_uint}
use neutron_query_relayer.Relay.{RegisteredQuery}
use neutron_query_relayer.RestQuery.{
  RestQuery, item_to_neutron_registered_query, to_neutron_registered_query,
}
use neutron_query_relayer.QueryMap.{QueryMap, map_set, map_delete}

-- The constants of neutron's interchainqueries module and of cometbft.
pub record Names : Type 0 where
  pub event_type : Bytes
  pub attribute_key_connection_id : Bytes
  pub attribute_key_query_id : Bytes
  pub attribute_key_kv_query : Bytes
  pub attribute_transactions_filter_query : Bytes
  pub attribute_key_query_type : Bytes
  pub attribute_key_owner : Bytes
  pub module_name : Bytes
  pub query_updated : Bytes
  pub query_removed : Bytes
  pub event_new_block_header : Bytes
  pub query_type_kv : Bytes
  pub query_type_tx : Bytes

-- the payload of a page of queries: its pagination's next key, if it has a pagination
pub record Page : Type 0 where
  pub registered_queries : List RestQuery
  pub next_key : Option Bytes

-- The constants of the struct, and the two clients.
pub record Env (W : Type 0) : Type 0 where
  pub names : Names
  pub connection_id : Bytes
  pub registry : Registry
  pub watched_types : List Bytes
  -- uint64 of the latest block height that the node's status tells
  pub status : Exec W ℕ
  -- the payload's query, if it has one
  pub registered_query : Bytes → Exec W (Option RestQuery)
  pub registered_queries : List Bytes → Bytes → Option Bytes → Exec W Page
  pub rpc_subscribe : Bytes → Exec W (Unit {0})
  pub rpc_unsubscribe : Bytes → Exec W (Unit {0})

-- the types that NewDefaultSubscriber watches, as the set that NewSubscriber makes of them
unfoldable pub watched_types : Names → Bool → List Bytes
watched_types names allow_tx_queries =
    set_keys bytes_eq []
      (names.query_type_kv ∷ (if allow_tx_queries then names.query_type_tx ∷ [] else []))

-- a nil pointer that is dereferenced, which ends the process
abbrev pub nil_panic : Error
nil_panic = plain (codes "panic: nil pointer dereference")

-- a method of a pointer that reads its fields
unfoldable pub dereferenced {ℓ} : {A : Type ℓ} → Option A → Result A
dereferenced none = err nil_panic
dereferenced (some a) = ok a

module _ {W : Type 0} (env : Env W) where
  unfoldable pub is_watched_msg_type : Bytes → Bool
  is_watched_msg_type msg_type = has_key bytes_eq env.watched_types msg_type

  unfoldable pub is_watched_query_id : ℕ → Bool
  unfolding is_query_ids_empty contains_query_id
  is_watched_query_id query_id =
      is_query_ids_empty env.registry || contains_query_id env.registry query_id

  unfoldable pub is_watched_address : Bytes → Bool
  unfolding is_addresses_empty contains_address
  is_watched_address address =
      is_addresses_empty env.registry || contains_address env.registry address

  unfoldable pub get_neutron_registered_query : Bytes → Exec W RegisteredQuery
  unfolding to_neutron_registered_query dereferenced
  get_neutron_registered_query query_id = do
    payload ←
        wrapping (codes "failed to get NeutronInterchainqueriesRegisteredQuery")
          (env.registered_query query_id)
    res ← lift (dereferenced payload)
    wrapping (codes "failed to get neutronQueryFromRestQuery")
        (lift (to_neutron_registered_query res))

  -- one query of a page, in the map unless its type or its id is not watched
  add_query : RestQuery → RegisteredQuery → QueryMap → QueryMap
  unfolding is_watched_msg_type is_watched_query_id map_set
  add_query rest_query neutron_query m =
      if not (is_watched_msg_type neutron_query.query_type)
      then m
      else if not (is_watched_query_id neutron_query.id)
      then m
      else map_set m rest_query.id neutron_query

  add_queries : List RestQuery → QueryMap → Result QueryMap
  unfolding add_query item_to_neutron_registered_query
  add_queries [] m = ok m
  add_queries (rest_query ∷ os) m =
      context (codes "failed to cast ToNeutronRegisteredQuery")
        (item_to_neutron_registered_query rest_query)
      >>=r λ neutron_query. add_queries os (add_query rest_query neutron_query m)

  next_page : Option Bytes → QueryMap → Step (QueryMap × Option Bytes) QueryMap
  next_page none m = done m
  next_page (some key) m = if bytes_eq key [] then done m else more (m, some key)

  -- the body of the loop over the pages
  fetch_page : QueryMap × Option Bytes → Exec W (Step (QueryMap × Option Bytes) QueryMap)
  unfolding add_queries next_page get_addresses
  fetch_page (m, page_key) = do
    payload ←
        wrapping (codes "failed to get NeutronInterchainqueriesRegisteredQueries")
          (env.registered_queries (get_addresses env.registry) env.connection_id page_key)
    m' ← lift (add_queries payload.registered_queries m)
    pure (next_page payload.next_key m')

  unfoldable pub get_neutron_registered_queries : ℕ → Exec W (Option QueryMap)
  unfolding fetch_page loop
  get_neutron_registered_queries fuel = loop fetch_page fuel ([], none)
