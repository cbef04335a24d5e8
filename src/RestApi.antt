-- ===== src/RestApi.antt =====
-- The generated client of Neutron's REST API, internal/subscriber/querier/client/query:
-- query_client.go with the readers of *_responses.go.
pub mod Answered
use neutron_query_relayer.Prelude.{
  ℕ, ◌/◌, Option, none, some, List, [], ◌∷◌, Bytes, codes, ◌==◌, if◌then◌else◌,
}
use neutron_query_relayer.Errors.{Error, Result, ok, err}
use neutron_query_relayer.Exec.{Exec}
use neutron_query_relayer.RestBodies.{
  DefaultBody, RegisteredQueryOkBody, RegisteredQueriesOkBody, ConnectionOkBody, new_default_body,
  new_registered_query_body, new_registered_queries_body, new_connection_body,
}
use neutron_query_relayer.RestParams.{
  ClientRequest, Formats, ConnectionParams, QueryParams, QueriesParams, new_connection_params,
  new_query_params, new_queries_params, write_connection_params, write_query_params,
  write_queries_params,
}

-- io.EOF, which an empty body gives, and the other errors of a consumer
pub data ConsumeError : Type 0 where
  eof : ConsumeError
  refused : Error → ConsumeError

-- what a body makes of a value
abbrev pub Consumes : Type 0 → Type 0 → Type 0
Consumes Body A = Body → A → A × Option ConsumeError

-- runtime.Consumer, for each struct that it fills
pub record Consumer (Body : Type 0) : Type 0 where
  pub default_body : Consumes Body DefaultBody
  pub connection_body : Consumes Body ConnectionOkBody
  pub registered_query_body : Consumes Body RegisteredQueryOkBody
  pub registered_queries_body : Consumes Body RegisteredQueriesOkBody

pub record ClientResponse (Body : Type 0) : Type 0 where
  pub code : ℕ
  pub body : Body

-- the two structs of an operation that a reader may return: ...OK and ...Default
pub data Reply (P : Type 0) : Type 0 where
  ok_reply : P → Reply P
  default_reply : ℕ → DefaultBody → Reply P

-- The errors of an operation: one of the runtime or of a consumer, a ...Default, and a
-- runtime.APIError with its text, its response and its code.
pub data ApiError : Type 0 where
  other : Error → ApiError
  default_error : ℕ → DefaultBody → ApiError
  api_error : Bytes → DefaultBody → ℕ → ApiError

pub data Outcome (A : Type 0) : Type 0 where
  failed : ApiError → Outcome A
  returned : A → Outcome A

abbrev consumed : {A : Type 0} → A × Option ConsumeError → Result A
consumed (a, none) = ok a
consumed (a, some eof) = ok a
consumed (a, some (refused e)) = err e

unfoldable read_ok : {P : Type 0} → Result P → Outcome (Reply P)
read_ok (err e) = failed (other e)
read_ok (ok payload) = returned (ok_reply payload)

unfoldable read_default : {P : Type 0} → ℕ → Result DefaultBody → Outcome (Reply P)
read_default code (err e) = failed (other e)
read_default code (ok payload) =
    if code / 100 == 2
    then returned (default_reply code payload)
    else failed (default_error code payload)

module _ {Body : Type 0} where
  -- an end of the body is no error
  abbrev pub read_payload : {A : Type 0} → Consumes Body A → A → ClientResponse Body → Result A
  read_payload consume fresh response = consumed (consume response.body fresh)

  -- what the three readers share, by the new payload of the operation and how it is filled
  read_response :
      {P : Type 0}
      → (Consumer Body → Consumes Body P)
      → P
      → ClientResponse Body
      → Consumer Body
      → Outcome (Reply P)
  unfolding read_ok read_default
  read_response fill fresh response consumer =
      if response.code == 200
      then read_ok (read_payload (fill consumer) fresh response)
      else read_default response.code (read_payload consumer.default_body new_default_body response)

  unfoldable pub read_registered_query :
      ClientResponse Body → Consumer Body → Outcome (Reply RegisteredQueryOkBody)
  unfolding read_response
  read_registered_query =
      read_response (λ consumer. consumer.registered_query_body) new_registered_query_body

  unfoldable pub read_registered_queries :
      ClientResponse Body → Consumer Body → Outcome (Reply RegisteredQueriesOkBody)
  unfolding read_response
  read_registered_queries =
      read_response (λ consumer. consumer.registered_queries_body) new_registered_queries_body

  unfoldable pub read_connection :
      ClientResponse Body → Consumer Body → Outcome (Reply ConnectionOkBody)
  unfolding read_response
  read_connection = read_response (λ consumer. consumer.connection_body) new_connection_body

-- runtime.ClientOperation, with its parameters by what they write
pub record ClientOperation (R Body P : Type 0) : Type 0 where
  pub id : Bytes
  pub method : Bytes
  pub path_pattern : Bytes
  pub produces_media_types : List Bytes
  pub consumes_media_types : List Bytes
  pub schemes : List Bytes
  pub params : ClientRequest R → Exec R (Unit {0})
  pub reader : ClientResponse Body → Consumer Body → Outcome (Reply P)

-- runtime.ClientTransport
pub record Transport (W R Body : Type 0) : Type 1 where
  pub submit : {P : Type 0} → ClientOperation R Body P → W → Outcome (Reply P) × W

-- a path with its two media types and its scheme, read by GET
abbrev operation :
    {R Body P : Type 0}
    → Bytes
    → Bytes
    → (ClientRequest R → Exec R (Unit {0}))
    → (ClientResponse Body → Consumer Body → Outcome (Reply P))
    → ClientOperation R Body P
operation id path_pattern params reader = record {
  id = id;
  method = codes "GET";
  path_pattern = path_pattern;
  produces_media_types = codes "application/json" ∷ [];
  consumes_media_types = codes "application/json" ∷ [];
  schemes = codes "http" ∷ [];
  params = params;
  reader = reader;
}

abbrev pub or_else {ℓ} : {A : Type ℓ} → A → Option A → A
or_else fresh none = fresh
or_else fresh (some a) = a

-- opts ...ClientOption, applied in their order
abbrev apply_all {ℓ} : {A : Type ℓ} → List (A → A) → A → A
apply_all [] a = a
apply_all (opt ∷ opts) a = apply_all opts (opt a)

-- a reply other than that of the status 200 is an error
unfoldable settled : {P : Type 0} → Outcome (Reply P) → Outcome P
settled (failed e) = failed e
settled (returned (ok_reply payload)) = returned payload
settled (returned (default_reply code payload)) = failed (
    api_error (codes "unexpected success response: content available as default response in error")
      payload code)

module _ {W R Body : Type 0} (transport : Transport W R Body) (formats : Formats) where
  abbrev submitted :
      {P : Type 0}
      → ClientOperation R Body P
      → List (ClientOperation R Body P → ClientOperation R Body P)
      → W
      → Outcome P × W
  submitted op opts w =
      let (result, w') = transport.submit (apply_all opts op) w in (settled result, w')

  unfoldable pub connection_operation : ConnectionParams → ClientOperation R Body ConnectionOkBody
  unfolding write_connection_params read_connection
  connection_operation params =
      operation (codes "IbcCoreConnectionV1Connection")
        (codes "/ibc/core/connection/v1/connections/{connection_id}")
        (λ r. write_connection_params formats r params) read_connection

  unfoldable pub registered_query_operation :
      QueryParams → ClientOperation R Body RegisteredQueryOkBody
  unfolding write_query_params read_registered_query
  registered_query_operation params =
      operation (codes "NeutronInterchainQueriesRegisteredQuery")
        (codes "/neutron/interchainqueries/registered_query")
        (λ r. write_query_params formats r params) read_registered_query

  unfoldable pub registered_queries_operation :
      QueriesParams → ClientOperation R Body RegisteredQueriesOkBody
  unfolding write_queries_params read_registered_queries
  registered_queries_operation params =
      operation (codes "NeutronInterchainQueriesRegisteredQueries")
        (codes "/neutron/interchainqueries/registered_queries")
        (λ r. write_queries_params formats r params) read_registered_queries

  unfoldable pub ibc_core_connection_v1_connection :
      Option ConnectionParams
      → List (ClientOperation R Body ConnectionOkBody → ClientOperation R Body ConnectionOkBody)
      → W
      → Outcome ConnectionOkBody × W
  unfolding settled connection_operation
  ibc_core_connection_v1_connection params opts =
      submitted (connection_operation (or_else (new_connection_params formats) params)) opts

  unfoldable pub registered_queries :
      Option QueriesParams
      → List (
          ClientOperation R Body RegisteredQueriesOkBody
          → ClientOperation R Body RegisteredQueriesOkBody)
      → W
      → Outcome RegisteredQueriesOkBody × W
  unfolding settled registered_queries_operation
  registered_queries params opts =
      submitted (registered_queries_operation (or_else (new_queries_params formats) params)) opts

  unfoldable pub registered_query :
      Option QueryParams
      → List (
          ClientOperation R Body RegisteredQueryOkBody
          → ClientOperation R Body RegisteredQueryOkBody)
      → W
      → Outcome RegisteredQueryOkBody × W
  unfolding settled registered_query_operation
  registered_query params opts =
      submitted (registered_query_operation (or_else (new_query_params formats) params)) opts
