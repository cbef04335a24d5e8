-- ===== src/Startup/Build/Wiring.antt =====
-- NewDefaultDependencyContainer of internal/app/deps.go: how the parts hang together.
use mathlib.Core.Path.{subst}
use neutron_query_relayer.Prelude.{
  ◌≡◌, refl, false, Option, some, Bytes, [], bytes_eq, codes, arith,
}
use neutron_query_relayer.Errors.{Result, ok, err, context-ok, result_rule}
use neutron_query_relayer.Exec.{Exec, lift, wrapping, bind_rule}
use neutron_query_relayer.TxSender.{TxSender, new_tx_sender}
use neutron_query_relayer.Config.{NeutronQueryRelayerConfig}
use neutron_query_relayer.App.{ConnectionParams, IbcConnection, load_conn_params}
use neutron_query_relayer.Retry.{Retries}
use neutron_query_relayer.App.Connection.{Complete, load_conn_params-Complete}
use neutron_query_relayer.Chains.{PathEnd, Chain, load_chains}
use neutron_query_relayer.Chains.Loaded.{Promises, Connected, Loaded, load_chains-Loaded}
use neutron_query_relayer.RawClients.{RestClient, new_rest_client, new_rpc_client}
use neutron_query_relayer.Startup.{
  Querier, DependencyContainer, Libraries, test_keybase, new_querier, new_submitter_impl,
  new_trusted_header_fetcher, new_tx_processor, new_kv_processor, conn_clients,
}
use neutron_query_relayer.Startup.Build.{
  path_client_id, container, assemble, with_params, new_default_dependency_container,
}

module _ {W Float Rpc Keybase Database Msg LegacyDec : Type 0}
    (lib : Libraries W Float Rpc Keybase Database Msg LegacyDec)
    (cfg : NeutronQueryRelayerConfig Float) (storage : Database) where
  -- The chains have the connection's parameters, both processors fetch headers of these chains, and
  -- have the storage and the submitter, which submits for Neutron's client of the connection.
  abbrev pub Wired : ConnectionParams → Rpc → DependencyContainer W Float Rpc Database → Type 0
  Wired params client deps =
      Connected lib.chains cfg params deps.neutron_chain deps.target_chain
      × (deps.proof_submitter.client_id ≡ params.neutron_client_id)
      × (deps.target_querier ≡ record { client = client; chain_id = params.target_chain_id })
      × (deps.trusted_header_fetcher
          ≡ new_trusted_header_fetcher lib deps.neutron_chain deps.target_chain)
      × (new_tx_processor lib deps.trusted_header_fetcher storage deps.proof_submitter
            cfg.check_submitted_tx_status_delay cfg.ignore_errors_regex
          ≡ ok deps.tx_processor)
      × (deps.kv_processor
          ≡ new_kv_processor lib deps.trusted_header_fetcher deps.target_querier
              cfg.min_kv_update_period deps.proof_submitter storage deps.target_chain
              deps.neutron_chain)

  abbrev pub WiredBy :
      ConnectionParams → Rpc → Result (DependencyContainer W Float Rpc Database) → Type 0
  WiredBy params client (err e) = Unit
  WiredBy params client (ok deps) = Wired params client deps

  -- The networks are those that the nodes' statuses tell, the target's by its own client.
  abbrev pub Told : ConnectionParams → Rpc → Type 0
  Told params client =
      ((w : W) × ((lib.status_network client w).0 ≡ ok params.target_chain_id))
      × ((other : Rpc) × (w : W) × ((lib.status_network other w).0 ≡ ok params.neutron_chain_id))

  -- The ids of the parameters are those of a connection that Neutron answered with for the
  -- configured id, and neither of its counterparty's ids is empty.
  abbrev pub Connects : ConnectionParams → Type 0
  Connects params =
      (rest : RestClient) × (connection : IbcConnection) × (w : W) × (new_rest_client lib.clients
          cfg.neutron_chain.rest_addr
        ≡ ok rest)
      × ((lib.ibc_connection rest cfg.neutron_chain.connection_id w).0 ≡ ok connection)
      × (params.neutron_client_id ≡ connection.client_id)
      × (params.target_client_id ≡ connection.counterparty_client_id)
      × (params.target_connection_id ≡ connection.counterparty_connection_id)
      × (bytes_eq connection.counterparty_connection_id [] ≡ false)
      × (bytes_eq connection.counterparty_client_id [] ≡ false)

  -- The parameters are the connection's, with the names of the networks.
  abbrev pub Named : ConnectionParams → Rpc → Type 0
  Named params client = Connects params × Told params client

  abbrev pub Container : Result (DependencyContainer W Float Rpc Database) → Type 0
  Container (err e) = Unit
  Container (ok deps) =
      (params : ConnectionParams) × (client : Rpc) × Wired params client deps × Named params client

  Container-WiredBy :
      (params : ConnectionParams) (client : Rpc)
      (r : Result (DependencyContainer W Float Rpc Database))
      → WiredBy params client r
      → Named params client
      → Container r
  Container-WiredBy params client (err e) h c = tt
  Container-WiredBy params client (ok deps) h c = (params, client, h, c)

  module _ (params : ConnectionParams) (client : Rpc) (sender : TxSender W) where
    abbrev querier : Querier Rpc
    querier = new_querier lib client params.target_chain_id

    path_client_id-some :
        (o : Option PathEnd) (p : PathEnd) (client_id : Bytes)
        → o ≡ some p
        → path_client_id lib o ≡ ok client_id
        → client_id ≡ p.client_id
    unfolding path_client_id
    path_client_id-some o p client_id e h = ground arith

    assemble-WiredBy :
        (chains : Chain Float × Chain Float)
        → Loaded lib.chains cfg params (ok chains)
        → WiredBy params client (assemble lib cfg storage querier sender chains)
    unfolding assemble container new_submitter_impl new_querier
    assemble-WiredBy (neutron, target) h =
        result_rule (WiredBy params client) (path_client_id lib neutron.path_end) _
          (λ client_id c.
            result_rule (WiredBy params client)
              (new_tx_processor lib (new_trusted_header_fetcher lib neutron target) storage
                (new_submitter_impl lib sender cfg.allow_kv_callbacks client_id)
                cfg.check_submitted_tx_status_delay cfg.ignore_errors_regex)
              _
              (λ tx_processor e.
                (h, path_client_id-some _ _ client_id h.0.2 c, refl, refl, e, refl))
              (λ x _. tt))
          (λ x _. tt)

  module _ (law : Promises lib.chains) (target_client neutron_client : Rpc) where
    with_params-WiredBy :
        (params : ConnectionParams) (w : W)
        → WiredBy params target_client
            (with_params lib cfg storage target_client neutron_client params w).0
    unfolding with_params
    with_params-WiredBy params w =
        bind_rule (λ r _. WiredBy params target_client r)
          (wrapping (codes "cannot initialize keybase")
            (lift (test_keybase lib params.neutron_chain_id cfg.neutron_chain.home_dir)))
          _ w
          (λ keybase _.
            bind_rule (λ r _. WiredBy params target_client r)
              (wrapping (codes "cannot create tx sender")
                (new_tx_sender (lib.sender_env neutron_client keybase cfg params.neutron_chain_id)))
              _ _
              (λ sender _.
                bind_rule (λ r _. WiredBy params target_client r)
                  (wrapping (codes "failed to loadChains") (load_chains lib.chains cfg params))
                  (λ chains. lift (
                    assemble lib cfg storage (new_querier lib target_client params.target_chain_id)
                      sender chains))
                  _
                  (λ chains c. assemble-WiredBy params target_client sender chains (
                    subst (Loaded lib.chains cfg params) (context-ok _ _ c)
                      (load_chains-Loaded lib.chains law cfg params _)))
                  (λ x _. tt))
              (λ x _. tt))
          (λ x _. tt)

  module _ (law : Promises lib.chains)
      (retries : (neutron_client target_client : Rpc)
        → Retries (conn_clients lib neutron_client target_client).retry) where
    abbrev load : Rpc → Rpc → Exec W ConnectionParams
    load target_client neutron_client = wrapping (codes "cannot load network params") (
        load_conn_params (conn_clients lib neutron_client target_client) cfg.neutron_chain.rest_addr
          cfg.neutron_chain.connection_id)

    load-Named :
        (target_client neutron_client : Rpc) (w : W) (params : ConnectionParams)
        → (load target_client neutron_client w).0 ≡ ok params
        → Named params target_client
    load-Named target_client neutron_client w params e =
        let clients = conn_clients lib neutron_client target_client in
        let (rest, connection, r, (w', a), n, c, k, p, q, target, (w'', neutron)) =
          subst
            (Complete clients (retries neutron_client target_client) cfg.neutron_chain.rest_addr
              cfg.neutron_chain.connection_id)
            (context-ok _ _ e)
            (load_conn_params-Complete clients (retries neutron_client target_client) _ _ w) in
        ((rest, connection, w', r, a, n, c, k, p, q), (target, (neutron_client, w'', neutron)))

    pub new_default_dependency_container-Container :
        (w : W) → Container (new_default_dependency_container lib cfg storage w).0
    unfolding new_default_dependency_container
    new_default_dependency_container-Container w =
        bind_rule (λ r _. Container r)
          (wrapping (codes "could not initialize target rpc client")
            (new_rpc_client lib.clients cfg.target_chain.rpc_addr cfg.target_chain.timeout))
          _ w
          (λ target _.
            bind_rule (λ r _. Container r)
              (wrapping (codes "cannot create neutron client")
                (new_rpc_client lib.clients cfg.neutron_chain.rpc_addr cfg.neutron_chain.timeout))
              _ _
              (λ neutron _.
                bind_rule (λ r _. Container r)
                  (wrapping (codes "cannot load network params") (
                    load_conn_params (conn_clients lib neutron target) cfg.neutron_chain.rest_addr
                      cfg.neutron_chain.connection_id))
                  (with_params lib cfg storage target neutron) _
                  (λ params l.
                    Container-WiredBy params target _
                      (with_params-WiredBy law target neutron params _)
                      (load-Named target neutron _ params l))
                  (λ x _. tt))
              (λ x _. tt))
          (λ x _. tt)
