-- ===== src/RestFetch.antt =====
-- getNeutronRegisteredQuery and getNeutronRegisteredQueries (internal/subscriber/utils.go): the
-- requests that they make of the generated client.
pub mod Answered
use neutron_query_relayer.Prelude.{Option, none, some, List, [], ◌∷◌, ◌++◌, Bytes, codes}
use neutron_query_relayer.Errors.{Error, plain, Result, ok, err}
use neutron_query_relayer.Exec.{Exec, pure, ◌>>=◌}
use neutron_query_relayer.RestQuery.{RestQuery}
use neutron_query_relayer.Queries.{Env, Page}
use neutron_query_relayer.RestParams.{Formats, QueryParams}
use neutron_query_relayer.RestBodies.{Pagination, RegisteredQueriesOkBody}
use neutron_query_relayer.RestApi.{
  Transport, ApiError, other, default_error, api_error, Outcome, failed, returned, registered_query,
  registered_queries,
}

-- an error of the client as the value that its caller gets, by the path of the operation
api_failure : Bytes → ApiError → Error
api_failure path (other e) = e
api_failure path (default_error code payload) = plain (codes "[GET " ++ (path ++ codes "] default"))
api_failure path (api_error text payload code) = plain text

unfoldable answer : {A : Type 0} → Bytes → Outcome A → Result A
unfolding api_failure
answer path (failed e) = err (api_failure path e)
answer path (returned a) = ok a

unfoldable called : {W A : Type 0} → Bytes → (W → Outcome A × W) → Exec W A
unfolding answer
called path call w = let (outcome, w') = call w in (answer path outcome, w')

-- GetAddresses gives the nil slice when it has none
abbrev given_owners : List Bytes → Option (List Bytes)
given_owners [] = none
given_owners (owner ∷ owners) = some (owner ∷ owners)

abbrev next_key : Option Pagination → Option Bytes
next_key none = none
next_key (some pagination) = some pagination.next_key

abbrev page_of : RegisteredQueriesOkBody → Page
page_of payload = record {
  registered_queries = payload.registered_queries;
  next_key = next_key payload.pagination;
}

abbrev query_path : Bytes
query_path = codes "/neutron/interchainqueries/registered_query"

abbrev params_for : Bytes → Option QueryParams
params_for query_id = some (record { query_id = some query_id; timeout = 0 })

module _ {W R Body : Type 0} (transport : Transport W R Body) (formats : Formats) where
  unfoldable fetch_query : Bytes → Exec W (Option RestQuery)
  unfolding called registered_query
  fetch_query query_id = do
    payload ← called query_path (registered_query transport formats (params_for query_id) [])
    pure payload.registered_query

  unfoldable fetch_queries : List Bytes → Bytes → Option Bytes → Exec W Page
  unfolding called registered_queries
  fetch_queries addresses connection_id page_key = do
    payload ← called (codes "/neutron/interchainqueries/registered_queries") (
        registered_queries transport formats
          (some (record {
            connection_id = some connection_id;
            owners = given_owners addresses;
            pagination_count_total = none;
            pagination_key = page_key;
            pagination_limit = none;
            pagination_offset = none;
            pagination_reverse = none;
            timeout = 0;
          }))
          [])
    pure (page_of payload)

  -- the subscriber's constants, with the generated client on the transport
  unfoldable pub with_rest_client : Env W → Env W
  unfolding fetch_query fetch_queries
  with_rest_client env = record env {
    registered_query = fetch_query;
    registered_queries = fetch_queries;
  }
