-- ===== src/Examples/Requesting.antt =====
-- The theorems on Neutron's REST API, at a node that answers two requests.
use neutron_query_relayer.Prelude.{
  ℕ, ◌+◌, ◌≡◌, refl, inr, none, some, List, [], ◌∷◌, ◌++◌, Bytes, codes, bytes_eq, ◌==◌,
  if◌then◌else◌,
}
use neutron_query_relayer.Errors.{ok, err}
use neutron_query_relayer.Exec.{◌>>◌}
use neutron_query_relayer.Strconv.{parse_uint, format_uint}
use neutron_query_relayer.Registry.{has_key}
use neutron_query_relayer.RestQuery.ReadBack.{rest_form}
use neutron_query_relayer.RestParams.{
  ClientRequest, Formats, QueriesParams, write_queries_params, new_queries_params,
}
use neutron_query_relayer.RestParams.Written.{entries, set_all, write_queries_params_lem}
use neutron_query_relayer.RestBodies.{
  new_registered_query_body, new_connection_body, new_registered_queries_body,
}
use neutron_query_relayer.RestApi.{
  Consumer, eof, ClientResponse, Transport, registered_query, registered_queries,
  ibc_core_connection_v1_connection,
}
use neutron_query_relayer.RestApi.Answered.{Reads, Answered, operations-Answered}
use neutron_query_relayer.RestFetch.{with_rest_client}
use neutron_query_relayer.RestFetch.Answered.{QueryRead, get_neutron_registered_query-QueryRead}
use neutron_query_relayer.Queries.{nil_panic, get_neutron_registered_query}
use neutron_query_relayer.Subscriber.{process_update_event}
use neutron_query_relayer.Examples.Subscribing.{a_query, env, event_of}

abbrev formats : Formats
formats = record {
  format_bool = λ b. if b then codes "true" else codes "false";
  base64_string = λ bytes. bytes;
  join_multi = λ texts. texts;
  default_timeout = 30;
}

-- a request is the list of its parameters
abbrev request : ClientRequest (List (Bytes × List Bytes))
request = record {
  set_timeout = λ timeout s. (ok tt, s);
  set_query_param = λ name values s. (ok tt, s ++ ((name, values) ∷ []));
  set_path_param = λ name value s. (ok tt, s);
}

-- an empty body ends at once, and another one holds the query
abbrev consumer : Consumer Bytes
consumer = record {
  default_body = λ body fresh. (fresh, none);
  connection_body = λ body fresh. (fresh, none);
  registered_query_body = λ body fresh.
      if bytes_eq body []
      then (fresh, some eof)
      else (record { registered_query = some (rest_form a_query) }, none);
  registered_queries_body = λ body fresh. (fresh, none);
}

-- The node answers the first request with a query, the second with an empty body, and then not.
abbrev response_at : ℕ → ClientResponse Bytes
response_at w =
    if w == 0
    then record { code = 200; body = codes "query" }
    else if w == 1
    then record { code = 200; body = [] }
    else record { code = 503; body = codes "down" }

abbrev transport : Transport ℕ (List (Bytes × List Bytes)) Bytes
transport = record { submit = λ op w. (op.reader (response_at w) consumer, w + 1) }

abbrev reads : Reads transport
reads = record {
  received = λ method path params w. inr (response_at w, consumer);
  read = λ op w. refl;
}

abbrev params : QueriesParams
params = record (new_queries_params formats) {
  connection_id = some (codes "connection-0");
  pagination_key = some (codes "next");
  pagination_limit = some [];
}

write_queries_params_lem_example :
    write_queries_params formats request params []
    ≡ (request.set_timeout 30 >> set_all formats request (entries formats params)) []
write_queries_params_lem_example = write_queries_params_lem formats request params []

-- the same request, run
write_run : write_queries_params formats request params [] ≡ (
  ok tt,
  (codes "connection_id", codes "connection-0" ∷ [])
      ∷ (codes "pagination.key", codes "next" ∷ [])
      ∷ [],
)
unfolding write_queries_params bytes_eq
write_run = refl

operations-Answered_example :
    Answered Bytes
      (λ c. c.connection_body)
      new_connection_body
      (inr (response_at 2, consumer))
      (ibc_core_connection_v1_connection transport formats none [] 2).0
    × Answered Bytes
        (λ c. c.registered_query_body)
        new_registered_query_body
        (inr (response_at 2, consumer))
        (registered_query transport formats none [] 2).0
    × Answered Bytes
        (λ c. c.registered_queries_body)
        new_registered_queries_body
        (inr (response_at 2, consumer))
        (registered_queries transport formats none [] 2).0
operations-Answered_example = operations-Answered transport formats reads none none none 2

get_neutron_registered_query-QueryRead_example :
    QueryRead Bytes
      (inr (response_at 0, consumer))
      (get_neutron_registered_query (with_rest_client transport formats env) (codes "7") 0).0
get_neutron_registered_query-QueryRead_example =
    get_neutron_registered_query-QueryRead transport formats reads env (codes "7") 0

-- the same request, run
get_run :
    (get_neutron_registered_query (with_rest_client transport formats env) (codes "7") 0).0
    ≡ ok a_query
unfolding get_neutron_registered_query with_rest_client bytes_eq parse_uint format_uint
get_run = refl

-- an answer with the status 200 and an empty body ends the process
update_run :
    (process_update_event
      (with_rest_client transport formats env)
      (event_of (codes "7"))
      (record { active_queries = []; tasks = []; world = 1 })).0
    ≡ err nil_panic
unfolding process_update_event get_neutron_registered_query with_rest_client bytes_eq has_key
update_run = refl
