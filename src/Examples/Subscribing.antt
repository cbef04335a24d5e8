-- ===== src/Examples/Subscribing.antt =====
-- The subscriber's theorems at a subscriber of one watched id.
use neutron_query_relayer.Prelude.{
  ℕ, ◌+◌, ◌<◌, ◌≡◌, ◌≢◌, refl, Option, none, some, [], ◌∷◌, Bytes, bytes_eq, codes, if◌then◌else◌,
  arith,
}
use neutron_query_relayer.Errors.{ok, err}
use neutron_query_relayer.Exec.{pure}
use neutron_query_relayer.Relay.{RegisteredQuery}
use neutron_query_relayer.RestQuery.{to_neutron_registered_query, item_to_neutron_registered_query}
use neutron_query_relayer.RestQuery.ReadBack.{rest_form, to_neutron_registered_query-rest_form}
use neutron_query_relayer.QueryMap.{QueryMap}
use neutron_query_relayer.Queries.{Names, Env, Page, get_neutron_registered_queries}
use neutron_query_relayer.Queries.Watched.{AllFetched, get_neutron_registered_queries-IsWatched}
use neutron_query_relayer.Queries.Paging.{Advances, get_neutron_registered_queries-returns}
use neutron_query_relayer.Subscriber.{
  Subscriber, Events, block, update, remove, index_panic, attr, check_events, visit,
  process_block_event, process_update_event, process_remove_event, subscribe,
}
use neutron_query_relayer.Subscriber.Removal.{Removed, process_remove_event-Removed}
use neutron_query_relayer.Subscriber.Owners.{process_update_event-panics}
use neutron_query_relayer.Subscriber.Watching.{Watching, subscribe-Watching}
use neutron_query_relayer.Subscriber.Schedule.{
  Scheduled, process_block_event-Scheduled, early_entries, visit-visit,
}

abbrev pub names : Names
names = record {
  event_type = codes "neutron";
  attribute_key_connection_id = codes "connection_id";
  attribute_key_query_id = codes "query_id";
  attribute_key_kv_query = codes "kv_key";
  attribute_transactions_filter_query = codes "transactions_filter";
  attribute_key_query_type = codes "type";
  attribute_key_owner = codes "owner";
  module_name = codes "interchainqueries";
  query_updated = codes "query_updated";
  query_removed = codes "query_removed";
  event_new_block_header = codes "NewBlockHeader";
  query_type_kv = codes "kv";
  query_type_tx = codes "tx";
}

abbrev pub a_query : RegisteredQuery
a_query = record {
  id = 7;
  owner = codes "me";
  query_type = codes "kv";
  keys = record { path = codes "bank"; key = codes "k" } ∷ [];
  transactions_filter = [];
  connection_id = codes "connection-0";
  update_period = 10;
  last_submitted_result_local_height = 0;
  remote_revision_number = 1;
  remote_revision_height = 20;
}

to_neutron_registered_query-rest_form_example :
    (to_neutron_registered_query (rest_form a_query) ≡ ok a_query)
    × (item_to_neutron_registered_query (rest_form a_query) ≡ ok a_query)
to_neutron_registered_query-rest_form_example =
    to_neutron_registered_query-rest_form a_query
      (omega arith, omega arith, omega arith, omega arith, omega arith)

-- two pages, the second one under the key "next"; the world is a height
abbrev pub page_for : Option Bytes → Page
page_for none = record {
  registered_queries = rest_form a_query ∷ [];
  next_key = some (codes "next");
}
page_for (some key) = record { registered_queries = []; next_key = none }

abbrev pub env : Env ℕ
env = record {
  names = names;
  connection_id = codes "connection-0";
  registry = record { addresses = []; query_ids = 7 ∷ [] };
  watched_types = codes "kv" ∷ [];
  status = λ height. (ok height, height + 1);
  registered_query = λ query_id. pure (some (rest_form a_query));
  registered_queries = λ addresses connection_id page_key. pure (page_for page_key);
  rpc_subscribe = λ subscription. pure tt;
  rpc_unsubscribe = λ subscription. pure tt;
}

abbrev subscriber : Subscriber ℕ
subscriber = record { active_queries = []; tasks = []; world = 100 }

-- an event of one query, with the id in decimal
abbrev pub event_of : Bytes → Events
event_of query_id key =
    if bytes_eq key (codes "neutron.owner") then codes "me" ∷ [] else query_id ∷ []

subscribe-Watching_example :
    Watching env
      (subscribe env 3
        (block
          ∷ update (event_of (codes "7"))
          ∷ update (event_of (codes "8"))
          ∷ block
          ∷ remove (event_of (codes "7"))
          ∷ [])
        subscriber).1
subscribe-Watching_example =
    subscribe-Watching env 3
      (block
        ∷ update (event_of (codes "7"))
        ∷ update (event_of (codes "8"))
        ∷ block
        ∷ remove (event_of (codes "7"))
        ∷ [])
      subscriber tt

get_neutron_registered_queries-IsWatched_example :
    AllFetched env (get_neutron_registered_queries env 3 100).0
get_neutron_registered_queries-IsWatched_example =
    get_neutron_registered_queries-IsWatched env 3 100

abbrev remaining : Option Bytes → ℕ
remaining none = 1
remaining (some key) = 0

advances_lem :
    (page_key : Option Bytes) (page : Page) (key : Bytes)
    → ok (page_for page_key) ≡ ok page
    → page.next_key ≡ some key
    → remaining (some key) < remaining page_key
advances_lem none page key e k = omega arith
advances_lem (some j) page key e k = absurd (ground (arith, e, k))

abbrev advances : Advances env remaining
advances = record {
  next = λ addresses page_key w page key e k n. advances_lem page_key page key e k;
}

get_neutron_registered_queries-returns_example :
    (get_neutron_registered_queries env 2 100).0 ≢ ok none
get_neutron_registered_queries-returns_example =
    get_neutron_registered_queries-returns env remaining advances 2 100 (omega arith)

abbrev active : QueryMap
active = (codes "7", a_query) ∷ []

process_block_event-Scheduled_example :
    Scheduled env
      (record subscriber { active_queries = active })
      (process_block_event env (record subscriber { active_queries = active })).0
      (process_block_event env (record subscriber { active_queries = active })).1
process_block_event-Scheduled_example =
    process_block_event-Scheduled env (record subscriber { active_queries = active })

visit-visit_example : (visit 105 (visit 100 active).0).1 ≡ (visit 105 (early_entries 100 active)).1
visit-visit_example = visit-visit 100 105 active (omega arith) ((omega arith, omega arith), tt)

-- the same two visits, run: the query is sent by the first one, and not by the second one
visit_run : ((visit 100 active).1 ≡ a_query ∷ []) × ((visit 105 (visit 100 active).0).1 ≡ [])
unfolding visit
visit_run = (refl, refl)

-- an event with a query but without an owner
abbrev no_owners : Events
no_owners key = if bytes_eq key (codes "neutron.owner") then [] else codes "7" ∷ []

process_update_event-panics_example :
    process_update_event env no_owners subscriber ≡ (err index_panic, subscriber)
unfolding check_events attr bytes_eq
process_update_event-panics_example = process_update_event-panics env no_owners subscriber refl refl

abbrev active_subscriber : Subscriber ℕ
active_subscriber = record subscriber { active_queries = active }

process_remove_event-Removed_example :
    Removed env
      (codes "7" ∷ [])
      active_subscriber
      (process_remove_event env (event_of (codes "7")) active_subscriber).0
      (process_remove_event env (event_of (codes "7")) active_subscriber).1
unfolding check_events attr bytes_eq
process_remove_event-Removed_example =
    process_remove_event-Removed env (event_of (codes "7")) active_subscriber refl
