-- ===== src/Startup.antt =====
-- The start of the application: internal/app/deps.go, the constructors of internal/app/app.go and of
-- the parts, and startRelayer of cmd/neutron_query_relayer/cmd/start.go up to its goroutines.
pub mod Build
use neutron_query_relayer.Prelude.{ℕ, Bool, Option, none, some, Bytes, codes}
use neutron_query_relayer.Errors.{Error, Result, ok, err, plain, context, ◌>>=◌ as ◌>>=r◌}
use neutron_query_relayer.Exec.{Exec, pure, raise, lift, wrapping, ◌>>=◌, ◌>>◌}
use neutron_query_relayer.Registry
use neutron_query_relayer.Queries
use neutron_query_relayer.TxSender
use neutron_query_relayer.TxSender.{TxSender, new_tx_sender}
use neutron_query_relayer.Config.{NeutronQueryRelayerConfig, new_neutron_query_relayer_config}
use neutron_query_relayer.App.{ConnectionParams, IbcConnection, Clients, load_conn_params}
use neutron_query_relayer.Chains.{PathEnd, Chain, ChainLibrary, load_chains}
use neutron_query_relayer.RawClients.{
  RestClient, ClientLibrary, new_rpc_client, new_rest_client, new_subscriber_rpc_client,
  new_subscriber_rest_client,
}

-- The parts as their constructors make them: what each one is given. Loggers are left out.

-- tmquerier.Querier
pub record Querier (Rpc : Type 0) : Type 0 where
  pub client : Rpc
  pub chain_id : Bytes

-- trusted_headers.TrustedHeaderFetcher
pub record Fetcher (Float : Type 0) : Type 0 where
  pub neutron_chain : Chain Float
  pub target_chain : Chain Float
  pub revision_number : ℕ

-- submit.SubmitterImpl
pub record Submitter (W : Type 0) : Type 0 where
  pub sender : TxSender W
  pub allow_kv_callbacks : Bool
  pub client_id : Bytes

-- txprocessor.TXProcessor; the expression is the test that it makes of a text
pub record TxProcessor (W Float Database : Type 0) : Type 0 where
  pub trusted_header_fetcher : Fetcher Float
  pub storage : Database
  pub submitter : Submitter W
  pub check_submitted_tx_status_delay : ℕ
  pub ignore_errors_regexp : Bytes → Bool

-- kvprocessor.KVProcessor
pub record KvProcessor (W Float Rpc Database : Type 0) : Type 0 where
  pub trusted_header_fetcher : Fetcher Float
  pub querier : Querier Rpc
  pub min_kv_update_period : ℕ
  pub submitter : Submitter W
  pub storage : Database
  pub target_chain : Chain Float
  pub neutron_chain : Chain Float

pub record DependencyContainer (W Float Rpc Database : Type 0) : Type 0 where
  -- the client of the TXQuerierSrv
  pub tx_querier : Rpc
  pub tx_processor : TxProcessor W Float Database
  pub kv_processor : KvProcessor W Float Rpc Database
  pub proof_submitter : Submitter W
  pub trusted_header_fetcher : Fetcher Float
  pub target_chain : Chain Float
  pub neutron_chain : Chain Float
  pub target_querier : Querier Rpc

-- relay.Relayer
pub record Relayer (W Float Rpc Database : Type 0) : Type 0 where
  pub cfg : NeutronQueryRelayerConfig Float
  pub tx_querier : Rpc
  pub storage : Database
  pub tx_processor : TxProcessor W Float Database
  pub kv_processor : KvProcessor W Float Rpc Database
  pub target_chain : Chain Float

-- txsubmitchecker.TxSubmitChecker
pub record TxSubmitChecker (Rpc Database : Type 0) : Type 0 where
  pub storage : Database
  pub rpc_client : Rpc

-- What the goroutines of startRelayer are given.
pub record Application (W Float Rpc Database : Type 0) : Type 0 where
  pub cfg : NeutronQueryRelayerConfig Float
  pub storage : Database
  pub subscriber : Queries.Env W
  pub deps : DependencyContainer W Float Rpc Database
  pub relayer : Relayer W Float Rpc Database
  pub tx_submit_checker : TxSubmitChecker Rpc Database

-- What the start calls of other code: the registry of loggers, envconfig, LevelDB, the clients and
-- their calls, the keyring, the sender's environment, regexp.Compile and ParseChainID.
pub record Libraries (W Float Rpc Keybase Database Msg LegacyDec : Type 0) : Type 0 where
  pub new_log_registry : Exec W (Unit {0})
  pub process_config : Bytes → Exec W (NeutronQueryRelayerConfig Float)
  pub open_file : Bytes → Exec W Database
  pub clients : ClientLibrary W Rpc
  pub status_network : Rpc → Exec W Bytes
  pub ibc_connection : RestClient → Bytes → Exec W IbcConnection
  pub retry : Exec W IbcConnection → Exec W IbcConnection
  pub chains : ChainLibrary W Float
  -- app name, backend, directory
  pub new_keyring : Bytes → Bytes → Bytes → Result Keybase
  pub sender_env :
      Rpc → Keybase → NeutronQueryRelayerConfig Float → Bytes → TxSender.Env W Msg Float LegacyDec
  pub compile : Bytes → Result (Bytes → Bool)
  pub parse_chain_id : Bytes → ℕ
  -- the subscriber's calls of its clients, and the names of Neutron's events
  pub subscriber_env : Rpc → RestClient → Queries.Env W

module _ {W Float Rpc Keybase Database Msg LegacyDec : Type 0}
    (lib : Libraries W Float Rpc Keybase Database Msg LegacyDec) where
  new_level_db_storage : Bytes → Exec W Database
  new_level_db_storage path =
      wrapping (codes "failed to initialize new stirage") (lib.open_file path)

  pub new_default_storage : NeutronQueryRelayerConfig Float → Exec W Database
  unfolding new_level_db_storage
  new_default_storage cfg =
      wrapping (codes "failed to create NewLevelDBStorage") (new_level_db_storage cfg.storage_path)

  pub test_keybase : Bytes → Bytes → Result Keybase
  test_keybase chain_id keyring_root_dir =
      context (codes "error creating keybase")
        (lib.new_keyring chain_id (codes "test") keyring_root_dir)

  pub new_querier : Rpc → Bytes → Querier Rpc
  new_querier client chain_id = record { client = client; chain_id = chain_id }

  pub new_submitter_impl : TxSender W → Bool → Bytes → Submitter W
  new_submitter_impl sender allow_kv_callbacks client_id = record {
    sender = sender;
    allow_kv_callbacks = allow_kv_callbacks;
    client_id = client_id;
  }

  pub new_trusted_header_fetcher : Chain Float → Chain Float → Fetcher Float
  new_trusted_header_fetcher neutron_chain target_chain = record {
    neutron_chain = neutron_chain;
    target_chain = target_chain;
    revision_number = lib.parse_chain_id target_chain.provider.config.chain_id;
  }

  -- regexp.MustCompile panics on a bad expression
  pub new_tx_processor :
      Fetcher Float → Database → Submitter W → ℕ → Bytes → Result (TxProcessor W Float Database)
  new_tx_processor fetcher storage submitter delay ignore_errors_regexp =
      context (codes "panic: regexp: Compile") (lib.compile ignore_errors_regexp) >>=r λ matches.
      ok (record {
        trusted_header_fetcher = fetcher;
        storage = storage;
        submitter = submitter;
        check_submitted_tx_status_delay = delay;
        ignore_errors_regexp = matches;
      })

  pub new_kv_processor :
      Fetcher Float
      → Querier Rpc
      → ℕ
      → Submitter W
      → Database
      → Chain Float
      → Chain Float
      → KvProcessor W Float Rpc Database
  new_kv_processor fetcher querier min_kv_update_period submitter storage target neutron = record {
    trusted_header_fetcher = fetcher;
    querier = querier;
    min_kv_update_period = min_kv_update_period;
    submitter = submitter;
    storage = storage;
    target_chain = target;
    neutron_chain = neutron;
  }

  -- the clients that loadConnParams is given
  abbrev pub conn_clients : Rpc → Rpc → Clients W RestClient
  conn_clients neutron_client target_client = record {
    new_rest_client = λ address. new_rest_client lib.clients address;
    target_status = lib.status_network target_client;
    neutron_status = lib.status_network neutron_client;
    ibc_connection = lib.ibc_connection;
    retry = lib.retry;
  }
