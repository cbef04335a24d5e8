-- ===== src/RestBodies.antt =====
-- The bodies of the answers of Neutron's REST API, from the generated *_responses.go of
-- internal/subscriber/querier/client/query.
use neutron_query_relayer.Prelude.{Option, none, List, [], Bytes}
use neutron_query_relayer.Strconv.Signed.{ℤ, pos}
use neutron_query_relayer.RestQuery.{RestHeight, RestQuery}

-- the body of an error: a status of gRPC; `details` are the types of what it holds
pub record DefaultBody : Type 0 where
  pub code : ℤ
  pub details : List Bytes
  pub message : Bytes

pub record RegisteredQueryOkBody : Type 0 where
  pub registered_query : Option RestQuery

pub record Pagination : Type 0 where
  pub next_key : Bytes
  pub total : Bytes

pub record RegisteredQueriesOkBody : Type 0 where
  pub pagination : Option Pagination
  pub registered_queries : List RestQuery

pub record Prefix : Type 0 where
  pub key_prefix : Bytes

pub record Counterparty : Type 0 where
  pub client_id : Bytes
  pub connection_id : Bytes
  pub prefix : Option Prefix

pub record Version : Type 0 where
  pub features : List Bytes
  pub identifier : Bytes

pub record Connection : Type 0 where
  pub client_id : Bytes
  pub counterparty : Option Counterparty
  pub delay_period : Bytes
  pub state : Option Bytes
  pub versions : List Version

pub record ConnectionOkBody : Type 0 where
  pub connection : Option Connection
  pub proof : Bytes
  pub proof_height : Option RestHeight

-- the values of Go's `new`
abbrev pub new_default_body : DefaultBody
new_default_body = record { code = pos 0; details = []; message = [] }

abbrev pub new_registered_query_body : RegisteredQueryOkBody
new_registered_query_body = record { registered_query = none }

abbrev pub new_registered_queries_body : RegisteredQueriesOkBody
new_registered_queries_body = record { pagination = none; registered_queries = [] }

abbrev pub new_connection_body : ConnectionOkBody
new_connection_body = record { connection = none; proof = []; proof_height = none }
