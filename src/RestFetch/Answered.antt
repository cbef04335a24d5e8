-- ===== src/RestFetch/Answered.antt =====
-- The registered queries that the subscriber gets, by the responses of Neutron's REST API.
use mathlib.Core.Path.{subst}
use neutron_query_relayer.Prelude.{◌≡◌, refl, inl, inr, Option, none, some, [], Bytes, codes}
use neutron_query_relayer.Errors.{Result, ok, err, context, context-ok}
use neutron_query_relayer.Exec.{pure, lift, wrapping, bind_rule, ◌>>=◌}
use neutron_query_relayer.Relay.{RegisteredQuery}
use neutron_query_relayer.RestQuery.{RestQuery, to_neutron_registered_query}
use neutron_query_relayer.RestParams.{Formats, write_query_params}
use neutron_query_relayer.RestBodies.{RegisteredQueryOkBody, new_registered_query_body}
use neutron_query_relayer.RestApi.{
  ClientResponse, Consumer, Transport, Outcome, failed, returned, read_payload, registered_query,
}
use neutron_query_relayer.RestApi.Answered.{Received, Reads, Answered, registered_query-Answered}
use neutron_query_relayer.Queries.{Env, dereferenced, get_neutron_registered_query}
use neutron_query_relayer.RestFetch.{
  answer, called, query_path, params_for, fetch_query, with_rest_client,
}

module _ (Body : Type 0) (received : Received Body) where
  -- A response with the status 200 came back, and the payload was read from it.
  abbrev ReadFrom : RegisteredQueryOkBody → Type 0
  ReadFrom payload =
      (response : ClientResponse Body) × (consumer : Consumer Body) × (received
        ≡ inr (response, consumer))
      × (response.code ≡ 200)
      × (read_payload consumer.registered_query_body new_registered_query_body response
          ≡ ok payload)

  -- A query is the conversion of the query in the body of the response that came back, which has
  -- the status 200.
  abbrev pub QueryRead : Result RegisteredQuery → Type 0
  QueryRead (err e) = Unit
  QueryRead (ok q) =
      (rest : RestQuery) × ReadFrom (record { registered_query = some rest })
      × (to_neutron_registered_query rest ≡ ok q)

  abbrev PayloadRead : Result RegisteredQueryOkBody → Type 0
  PayloadRead (err e) = Unit
  PayloadRead (ok payload) = ReadFrom payload

  abbrev FieldRead : Result (Option RestQuery) → Type 0
  FieldRead (err e) = Unit
  FieldRead (ok field) = ReadFrom (record { registered_query = field })

  of_received :
      (r : Received Body) (payload : RegisteredQueryOkBody)
      → received ≡ r
      → Answered Body
          (λ consumer. consumer.registered_query_body)
          new_registered_query_body
          r
          (returned payload)
      → ReadFrom payload
  of_received (inl e) payload q h = absurd (cc)
  of_received (inr (response, consumer)) payload q (c, h) = (response, consumer, q, c, h)

  answer-PayloadRead :
      (path : Bytes) (outcome : Outcome RegisteredQueryOkBody)
      → Answered Body
          (λ consumer. consumer.registered_query_body)
          new_registered_query_body
          received
          outcome
      → PayloadRead (answer path outcome)
  unfolding answer
  answer-PayloadRead path (failed e) h = tt
  answer-PayloadRead path (returned payload) h = of_received received payload refl h

  QueryRead-context :
      (text : Bytes) (rest : RestQuery)
      → ReadFrom (record { registered_query = some rest })
      → (r : Result RegisteredQuery) → to_neutron_registered_query rest ≡ r
      → QueryRead (context text r)
  QueryRead-context text rest h (err e) c = tt
  QueryRead-context text rest h (ok q) c = (rest, h, c)

  converted-QueryRead :
      {W : Type 0} (payload : Option RestQuery) (s : W)
      → FieldRead (ok payload)
      → QueryRead
          ((lift (dereferenced payload) >>= λ res.
              wrapping
                (codes "failed to get neutronQueryFromRestQuery")
                (lift (to_neutron_registered_query res)))
            s).0
  unfolding dereferenced
  converted-QueryRead none s h = tt
  converted-QueryRead (some rest) s h = QueryRead-context _ rest h _ refl

module _ {W R Body : Type 0} (transport : Transport W R Body) (formats : Formats)
    (law : Reads transport) where
  -- what comes back for the request of one query
  abbrev pub query_received : Bytes → W → Received Body
  query_received query_id w =
      law.received (codes "GET") (codes "/neutron/interchainqueries/registered_query")
        (λ r. write_query_params formats r (record { query_id = some query_id; timeout = 0 })) w

  fetch_query-FieldRead :
      (query_id : Bytes) (w : W)
      → FieldRead Body (query_received query_id w) (fetch_query transport formats query_id w).0
  unfolding fetch_query called
  fetch_query-FieldRead query_id w =
      bind_rule (λ r _. FieldRead Body (query_received query_id w) r)
        (called query_path (registered_query transport formats (params_for query_id) []))
        (λ payload. pure payload.registered_query) w
        (λ payload e. subst (PayloadRead Body (query_received query_id w)) e (
          answer-PayloadRead Body (query_received query_id w) query_path _
            (registered_query-Answered transport formats law (params_for query_id) w)))
        (λ x _. tt)

  -- If what comes back for a request does not depend on the operation's reader, and the
  -- transport's answer is what the reader makes of it: a registered query that the subscriber gets
  -- over the generated client is the conversion of the query in the body of the very response that
  -- came back for its request, by GET with the path and the id, and that response has the status
  -- 200.
  pub get_neutron_registered_query-QueryRead :
      (env : Env W) (query_id : Bytes) (w : W)
      → QueryRead Body
          (query_received query_id w)
          (get_neutron_registered_query (with_rest_client transport formats env) query_id w).0
  unfolding get_neutron_registered_query with_rest_client
  get_neutron_registered_query-QueryRead env query_id w =
      bind_rule (λ r _. QueryRead Body (query_received query_id w) r)
        (wrapping (codes "failed to get NeutronInterchainqueriesRegisteredQuery")
          (fetch_query transport formats query_id))
        _ w
        (λ payload e.
          let read =
            subst (FieldRead Body (query_received query_id w)) (context-ok _ _ e)
              (fetch_query-FieldRead query_id w) in
          converted-QueryRead Body (query_received query_id w) payload _ read)
        (λ x _. tt)
