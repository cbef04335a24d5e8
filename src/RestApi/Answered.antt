-- ===== src/RestApi/Answered.antt =====
-- The operations of Neutron's REST API: which responses give a payload, and which an error.
use neutron_query_relayer.Prelude.{
  ◌/◌, ◌≡◌, refl, ◌≢◌, ◌⊎◌, inl, inr, Option, [], Bytes, codes, ◌==◌, Bool-cases, arith,
}
use neutron_query_relayer.Errors.{Error, Result, ok, err}
use neutron_query_relayer.RestParams.{
  ClientRequest, Formats, ConnectionParams, QueryParams, QueriesParams, new_connection_params,
  new_query_params, new_queries_params, write_connection_params, write_query_params,
  write_queries_params,
}
use neutron_query_relayer.Exec.{Exec}
use neutron_query_relayer.RestBodies.{
  DefaultBody, new_connection_body, new_registered_query_body, new_registered_queries_body,
  new_default_body,
}
use neutron_query_relayer.RestApi.{
  Consumer, Consumes, ClientResponse, other, default_error, api_error, Reply, or_else, Outcome,
  failed, returned, read_payload, read_ok, read_default, read_response, read_registered_query,
  read_registered_queries, read_connection, ClientOperation, Transport, settled,
  connection_operation, registered_query_operation, registered_queries_operation,
  ibc_core_connection_v1_connection, registered_query, registered_queries,
}

-- What comes back for a request: an error of the runtime, or a response and the consumer for its
-- media type.
abbrev pub Received : Type 0 → Type 0
Received Body = Error ⊎ (ClientResponse Body × Consumer Body)

abbrev pub read_by :
    {Body P : Type 0}
    → (ClientResponse Body → Consumer Body → Outcome (Reply P))
    → Received Body
    → Outcome (Reply P)
read_by reader (inl e) = failed (other e)
read_by reader (inr (response, consumer)) = reader response consumer

-- What Submit of go-openapi promises: what comes back for a method, a path and parameters does not
-- depend on the reader, and the answer is what the reader makes of it.
pub record Reads {W R Body : Type 0} (transport : Transport W R Body) : Type 1 where
  pub received : Bytes → Bytes → (ClientRequest R → Exec R (Unit {0})) → W → Received Body
  pub read :
      {P : Type 0} (op : ClientOperation R Body P) (w : W)
      → (transport.submit op w).0
        ≡ read_by op.reader (received op.method op.path_pattern op.params w)

module _ (Body : Type 0) where
  -- What an operation tells of the response: a payload that was read with the status 200, a
  -- failure to read the body that the status stands for, or the body as an error with a status
  -- other than 200.
  abbrev pub Told :
      {P : Type 0}
      → (Consumer Body → Consumes Body P)
      → P
      → ClientResponse Body
      → Consumer Body
      → Outcome P
      → Type 0
  Told fill fresh response consumer (returned payload) =
      (response.code ≡ 200) × (read_payload (fill consumer) fresh response ≡ ok payload)
  Told fill fresh response consumer (failed (other e)) =
      ((response.code ≡ 200) × (read_payload (fill consumer) fresh response ≡ err e))
      ⊎ ((response.code ≢ 200)
          × (read_payload consumer.default_body new_default_body response ≡ err e))
  Told fill fresh response consumer (failed (default_error code payload)) =
      (response.code ≡ code)
      × (code / 100 ≢ 2)
      × (read_payload consumer.default_body new_default_body response ≡ ok payload)
  Told fill fresh response consumer (failed (api_error text payload code)) =
      (response.code ≡ code)
      × (code ≢ 200)
      × (code / 100 ≡ 2)
      × (read_payload consumer.default_body new_default_body response ≡ ok payload)

  -- The outcome of an operation by what came back: the runtime's error, or what the response says.
  abbrev pub Answered :
      {P : Type 0} → (Consumer Body → Consumes Body P) → P → Received Body → Outcome P → Type 0
  Answered fill fresh (inl e) outcome = outcome ≡ failed (other e)
  Answered fill fresh (inr (response, consumer)) outcome = Told fill fresh response consumer outcome

  read_ok-Told :
      {P : Type 0} (fill : Consumer Body → Consumes Body P) (fresh : P)
      (response : ClientResponse Body) (consumer : Consumer Body) (x : Result P)
      → read_payload (fill consumer) fresh response ≡ x
      → response.code ≡ 200
      → Told fill fresh response consumer (settled (read_ok x))
  unfolding settled read_ok
  read_ok-Told fill fresh response consumer (err e) h c = inl (c, h)
  read_ok-Told fill fresh response consumer (ok payload) h c = (c, h)

  read_default-Told :
      {P : Type 0} (fill : Consumer Body → Consumes Body P) (fresh : P)
      (response : ClientResponse Body) (consumer : Consumer Body) (x : Result DefaultBody)
      → read_payload consumer.default_body new_default_body response ≡ x
      → response.code ≢ 200
      → Told fill fresh response consumer (settled (read_default {P = P} response.code x))
  unfolding settled read_default
  read_default-Told fill fresh response consumer (err e) h c = inr (c, h)
  read_default-Told fill fresh response consumer (ok payload) h c =
      elim (Bool-cases (response.code / 100 == 2)) [
        | inl t ↦ rw t (refl, c, ground (arith, t), h)
        | inr f ↦ rw f (refl, (λ e. ground (arith, f, e)), h)
      ]

  read_response-Told :
      {P : Type 0} (fill : Consumer Body → Consumes Body P) (fresh : P)
      (response : ClientResponse Body) (consumer : Consumer Body)
      → Told fill fresh response consumer (settled (read_response fill fresh response consumer))
  unfolding read_response
  read_response-Told fill fresh response consumer = elim (Bool-cases (response.code == 200)) [
    | inl t ↦ rw t (read_ok-Told fill fresh response consumer _ refl (ground (arith, t)))
    | inr f ↦
        rw f (read_default-Told fill fresh response consumer _ refl (λ e. ground (arith, f, e)))
  ]

  read_by-Answered :
      {P : Type 0} (fill : Consumer Body → Consumes Body P) (fresh : P) (received : Received Body)
      → Answered fill fresh received (settled (read_by (read_response fill fresh) received))
  unfolding settled
  read_by-Answered fill fresh (inl e) = refl
  read_by-Answered fill fresh (inr (response, consumer)) =
      read_response-Told fill fresh response consumer

module _ {W R Body : Type 0} (transport : Transport W R Body) (formats : Formats) where
  -- What an operation returns if its reader is the common one.
  submit-Answered :
      {P : Type 0} (law : Reads transport) (fill : Consumer Body → Consumes Body P) (fresh : P)
      (op : ClientOperation R Body P) (w : W)
      → op.reader ≡ read_response fill fresh
      → Answered Body fill fresh
          (law.received op.method op.path_pattern op.params w)
          (settled (transport.submit op w).0)
  submit-Answered law fill fresh op w r =
      rw (law.read op w, r)
        (read_by-Answered Body fill fresh (law.received op.method op.path_pattern op.params w))

  ibc_core_connection_v1_connection-Answered :
      (law : Reads transport) (params : Option ConnectionParams) (w : W)
      → Answered Body
          (λ consumer. consumer.connection_body)
          new_connection_body
          (law.received
            (codes "GET")
            (codes "/ibc/core/connection/v1/connections/{connection_id}")
            (λ r.
              write_connection_params formats r (or_else (new_connection_params formats) params))
            w)
          (ibc_core_connection_v1_connection transport formats params [] w).0
  unfolding ibc_core_connection_v1_connection connection_operation read_connection
  ibc_core_connection_v1_connection-Answered law params w =
      submit-Answered law (λ consumer. consumer.connection_body) new_connection_body _ w refl

  registered_queries-Answered :
      (law : Reads transport) (params : Option QueriesParams) (w : W)
      → Answered Body
          (λ consumer. consumer.registered_queries_body)
          new_registered_queries_body
          (law.received
            (codes "GET")
            (codes "/neutron/interchainqueries/registered_queries")
            (λ r. write_queries_params formats r (or_else (new_queries_params formats) params))
            w)
          (registered_queries transport formats params [] w).0
  unfolding registered_queries registered_queries_operation read_registered_queries
  registered_queries-Answered law params w =
      submit-Answered law (λ consumer. consumer.registered_queries_body) new_registered_queries_body
        _ w refl

  pub registered_query-Answered :
      (law : Reads transport) (params : Option QueryParams) (w : W)
      → Answered Body
          (λ consumer. consumer.registered_query_body)
          new_registered_query_body
          (law.received
            (codes "GET")
            (codes "/neutron/interchainqueries/registered_query")
            (λ r. write_query_params formats r (or_else (new_query_params formats) params))
            w)
          (registered_query transport formats params [] w).0
  unfolding registered_query registered_query_operation read_registered_query
  registered_query-Answered law params w =
      submit-Answered law (λ consumer. consumer.registered_query_body) new_registered_query_body _ w
        refl

  -- If what comes back for a request, by its method, its path and its parameters, does not depend
  -- on the operation's reader, and the transport's answer is what the reader makes of it, then
  -- without options: each of the three operations fails with the runtime's own error if that came
  -- back, and otherwise tells of the very response: a payload that was read with the status 200,
  -- an error with the response's status and body if it is no 2xx, one on an unexpected success if
  -- it is a 2xx other than 200, or the failure to read the body that the status stands for.
  pub operations-Answered :
      (law : Reads transport) (connection : Option ConnectionParams) (query : Option QueryParams)
      (queries : Option QueriesParams) (w : W)
      → Answered Body
          (λ consumer. consumer.connection_body)
          new_connection_body
          (law.received
            (codes "GET")
            (codes "/ibc/core/connection/v1/connections/{connection_id}")
            (λ r.
              write_connection_params formats r
                (or_else (new_connection_params formats) connection))
            w)
          (ibc_core_connection_v1_connection transport formats connection [] w).0
        × Answered Body
            (λ consumer. consumer.registered_query_body)
            new_registered_query_body
            (law.received
              (codes "GET")
              (codes "/neutron/interchainqueries/registered_query")
              (λ r. write_query_params formats r (or_else (new_query_params formats) query))
              w)
            (registered_query transport formats query [] w).0
        × Answered Body
            (λ consumer. consumer.registered_queries_body)
            new_registered_queries_body
            (law.received
              (codes "GET")
              (codes "/neutron/interchainqueries/registered_queries")
              (λ r. write_queries_params formats r (or_else (new_queries_params formats) queries))
              w)
            (registered_queries transport formats queries [] w).0
  operations-Answered law connection query queries w = (
    ibc_core_connection_v1_connection-Answered law connection w,
    registered_query-Answered law query w,
    registered_queries-Answered law queries w,
  )
