-- ===== src/Startup/Build.antt =====
-- NewDefaultDependencyContainer of internal/app/deps.go, the other constructors of internal/app/app.go
-- and internal/subscriber/subscriber.go, and startRelayer of cmd/neutron_query_relayer/cmd/start.go.
pub mod Started
pub mod Wiring
use neutron_query_relayer.Prelude.{ℕ, Bool, Option, none, some, Bytes, codes}
use neutron_query_relayer.Errors.{Error, Result, ok, err, plain, context, ◌>>=◌ as ◌>>=r◌}
use neutron_query_relayer.Exec.{Exec, pure, raise, lift, wrapping, ◌>>=◌, ◌>>◌}
use neutron_query_relayer.Registry
use neutron_query_relayer.Queries
use neutron_query_relayer.TxSender.{TxSender, new_tx_sender}
use neutron_query_relayer.Config.{NeutronQueryRelayerConfig, new_neutron_query_relayer_config}
use neutron_query_relayer.App.{ConnectionParams, load_conn_params}
use neutron_query_relayer.Chains.{PathEnd, Chain, load_chains}
use neutron_query_relayer.RawClients.{
  RestClient, new_rpc_client, new_rest_client, new_subscriber_rpc_client,
  new_subscriber_rest_client,
}
use neutron_query_relayer.Startup.{
  Querier, Fetcher, Submitter, TxProcessor, KvProcessor, DependencyContainer, Relayer,
  TxSubmitChecker, Application, Libraries, new_default_storage, test_keybase, new_querier,
  new_submitter_impl, new_trusted_header_fetcher, new_tx_processor, new_kv_processor, conn_clients,
}

module _ {W Float Rpc Keybase Database Msg LegacyDec : Type 0}
    (lib : Libraries W Float Rpc Keybase Database Msg LegacyDec) where
  -- `neutronChain.PathEnd.ClientID`, of a pointer
  path_client_id : Option PathEnd → Result Bytes
  path_client_id none = err (plain (codes "panic: nil pointer dereference"))
  path_client_id (some path_end) = ok path_end.client_id

  -- what NewDefaultDependencyContainer builds of the parts that can no longer fail
  container :
      NeutronQueryRelayerConfig Float
      → Database
      → Querier Rpc
      → Submitter W
      → Chain Float
      → Chain Float
      → TxProcessor W Float Database
      → DependencyContainer W Float Rpc Database
  container cfg storage querier submitter neutron_chain target_chain tx_processor =
      let fetcher = new_trusted_header_fetcher lib neutron_chain target_chain in
      record {
        tx_querier = querier.client;
        tx_processor = tx_processor;
        kv_processor =
            new_kv_processor lib fetcher querier cfg.min_kv_update_period submitter storage
              target_chain neutron_chain;
        proof_submitter = submitter;
        trusted_header_fetcher = fetcher;
        target_chain = target_chain;
        neutron_chain = neutron_chain;
        target_querier = querier;
      }

  assemble :
      NeutronQueryRelayerConfig Float
      → Database
      → Querier Rpc
      → TxSender W
      → Chain Float × Chain Float
      → Result (DependencyContainer W Float Rpc Database)
  assemble cfg storage querier sender (neutron_chain, target_chain) =
      path_client_id neutron_chain.path_end >>=r λ client_id.
      let submitter = new_submitter_impl lib sender cfg.allow_kv_callbacks client_id in
      new_tx_processor lib (new_trusted_header_fetcher lib neutron_chain target_chain) storage
        submitter cfg.check_submitted_tx_status_delay cfg.ignore_errors_regex
      >>=r λ tx_processor.
          ok (container cfg storage querier submitter neutron_chain target_chain tx_processor)

  -- what follows the load of the connection's parameters
  with_params :
      NeutronQueryRelayerConfig Float
      → Database
      → Rpc
      → Rpc
      → ConnectionParams
      → Exec W (DependencyContainer W Float Rpc Database)
  with_params cfg storage target_client neutron_client conn_params = do
    let target_querier = new_querier lib target_client conn_params.target_chain_id
    keybase ←
        wrapping (codes "cannot initialize keybase")
          (lift (test_keybase lib conn_params.neutron_chain_id cfg.neutron_chain.home_dir))
    tx_sender ←
        wrapping (codes "cannot create tx sender")
          (new_tx_sender (lib.sender_env neutron_client keybase cfg conn_params.neutron_chain_id))
    chains ← wrapping (codes "failed to loadChains") (load_chains lib.chains cfg conn_params)
    lift (assemble cfg storage target_querier tx_sender chains)

  pub new_default_dependency_container :
      NeutronQueryRelayerConfig Float → Database → Exec W (DependencyContainer W Float Rpc Database)
  new_default_dependency_container cfg storage = do
    target_client ←
        wrapping (codes "could not initialize target rpc client")
          (new_rpc_client lib.clients cfg.target_chain.rpc_addr cfg.target_chain.timeout)
    neutron_client ←
        wrapping (codes "cannot create neutron client")
          (new_rpc_client lib.clients cfg.neutron_chain.rpc_addr cfg.neutron_chain.timeout)
    conn_params ← wrapping (codes "cannot load network params") (
        load_conn_params (conn_clients lib neutron_client target_client) cfg.neutron_chain.rest_addr
          cfg.neutron_chain.connection_id)
    with_params cfg storage target_client neutron_client conn_params

  -- processors of its own, from the parts of the container
  pub new_default_relayer :
      NeutronQueryRelayerConfig Float
      → Database
      → DependencyContainer W Float Rpc Database
      → Result (Relayer W Float Rpc Database)
  new_default_relayer cfg storage deps =
      new_tx_processor lib deps.trusted_header_fetcher storage deps.proof_submitter
        cfg.check_submitted_tx_status_delay cfg.ignore_errors_regex
      >>=r λ tx_processor. ok (record {
        cfg = cfg;
        tx_querier = deps.tx_querier;
        storage = storage;
        tx_processor = tx_processor;
        kv_processor =
            new_kv_processor lib deps.trusted_header_fetcher deps.target_querier
              cfg.min_kv_update_period deps.proof_submitter storage deps.target_chain
              deps.neutron_chain;
        target_chain = deps.target_chain;
      })

  pub new_default_tx_submit_checker :
      NeutronQueryRelayerConfig Float → Database → Exec W (TxSubmitChecker Rpc Database)
  new_default_tx_submit_checker cfg storage = do
    neutron_client ←
        wrapping (codes "failed to create NewRPCClient")
          (new_rpc_client lib.clients cfg.neutron_chain.rpc_addr cfg.neutron_chain.timeout)
    pure (record { storage = storage; rpc_client = neutron_client })

  -- NewSubscriber: the calls of the two clients, and what the configuration says to watch
  new_subscriber : NeutronQueryRelayerConfig Float → Rpc → RestClient → Exec W (Queries.Env W)
  new_subscriber cfg rpc_client rest_client = do
    wrapping (codes "could not start tendermint rpcClient") (lib.clients.start_client rpc_client)
    let env = lib.subscriber_env rpc_client rest_client
    pure (record env {
      connection_id = cfg.neutron_chain.connection_id;
      registry = Registry.new cfg.registry;
      watched_types = Queries.watched_types env.names cfg.allow_tx_queries;
    })

  pub new_default_subscriber : NeutronQueryRelayerConfig Float → Exec W (Queries.Env W)
  new_default_subscriber cfg = do
    rpc_client ← wrapping (codes "could not create new tendermint rpcClient for Subscriber") (
        lift (
          new_subscriber_rpc_client lib.clients cfg.neutron_chain.rpc_addr
            cfg.neutron_chain.timeout))
    rest_client ← wrapping (codes "failed to get NewRESTClient for Subscriber") (
        lift (
          new_subscriber_rest_client lib.clients cfg.neutron_chain.rest_addr
            cfg.neutron_chain.timeout))
    wrapping (codes "failed to create a NewSubscriber") (new_subscriber cfg rpc_client rest_client)

  -- the rest of the start, for a storage that is open
  with_storage :
      NeutronQueryRelayerConfig Float → Database → Exec W (Application W Float Rpc Database)
  with_storage cfg storage = do
    subscriber ← wrapping (codes "Failed to get NewDefaultSubscriber") (new_default_subscriber cfg)
    deps ←
        wrapping (codes "failed to initialize dependency container")
          (new_default_dependency_container cfg storage)
    relayer ←
        wrapping (codes "Failed to get NewDefaultRelayer")
          (lift (new_default_relayer cfg storage deps))
    tx_submit_checker ←
        wrapping (codes "Failed to get NewDefaultTxSubmitChecker")
          (new_default_tx_submit_checker cfg storage)
    pure (record {
      cfg = cfg;
      storage = storage;
      subscriber = subscriber;
      deps = deps;
      relayer = relayer;
      tx_submit_checker = tx_submit_checker;
    })

  -- An error ends the process by the logger's Fatal, which runs no deferred call.
  pub start_relayer : Exec W (Application W Float Rpc Database)
  start_relayer = do
    wrapping (codes "couldn't initialize loggers registry") lib.new_log_registry
    cfg ←
        wrapping (codes "cannot initialize relayer config")
          (new_neutron_query_relayer_config lib.process_config)
    storage ← wrapping (codes "failed to create NewDefaultStorage") (new_default_storage lib cfg)
    with_storage cfg storage
