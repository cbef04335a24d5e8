-- ===== src/Examples/Starting.antt =====
-- The theorems on the start of the application, at libraries that always answer.
use neutron_query_relayer.Prelude.{ℕ, true, false, some, [], ◌∷◌, Bytes, codes}
use neutron_query_relayer.Errors.{ok}
use neutron_query_relayer.Exec.{pure}
use neutron_query_relayer.Config.{NeutronQueryRelayerConfig}
use neutron_query_relayer.Chains.{ChainLibrary}
use neutron_query_relayer.RawClients.{ClientLibrary}
use neutron_query_relayer.Submitter.{Msg}
use neutron_query_relayer.Startup.{Libraries}
use neutron_query_relayer.Startup.Build.Started.{Started}
use neutron_query_relayer.Examples.Subscribing
use neutron_query_relayer.Examples.Sending

abbrev cfg : NeutronQueryRelayerConfig ℕ
cfg = record {
  neutron_chain = record {
    rpc_addr = codes "rpc";
    rest_addr = codes "rest";
    home_dir = codes "home";
    sign_key_name = codes "key";
    timeout = 10;
    gas_prices = codes "1untrn";
    gas_limit = 0;
    gas_adjustment = 2;
    connection_id = codes "connection-0";
    debug = false;
    keyring_backend = codes "test";
    output_format = codes "json";
    sign_mode_str = codes "direct";
    denom = codes "untrn";
    max_gas_price = 5;
    gas_price_multiplier = 2;
  };
  target_chain = record {
    rpc_addr = codes "target";
    timeout = 10;
    debug = false;
    output_format = codes "json";
  };
  registry = record { addresses = []; query_ids = 7 ∷ [] };
  allow_tx_queries = true;
  allow_kv_callbacks = true;
  min_kv_update_period = 0;
  storage_path = codes "storage";
  check_submitted_tx_status_delay = 10;
  queries_task_queue_capacity = 10000;
  initial_tx_search_offset = 0;
  listen_addr = codes "127.0.0.1:9999";
  ignore_errors_regex = codes "failed";
}

abbrev chain_library : ChainLibrary ℕ ℕ
chain_library = record {
  new_provider = λ cfg home debug id.
      ok (some (record { config = cfg; home_path = home; key_directory = [] }));
  add_path = λ client_id connection_id chain. ok (record chain {
    path_end = some (record { client_id = client_id; connection_id = connection_id });
  });
  init_provider = λ provider. pure tt;
  float_zero = 0;
  format_duration = λ d. codes "10s";
  bech32_main_prefix = codes "neutron";
}

-- a client is its address
abbrev client_library : ClientLibrary ℕ Bytes
client_library = record {
  default_http_client = λ addr. ok tt;
  new_with_client = λ addr endpoint timeout. ok addr;
  start_client = λ rpc. pure tt;
  parse_url = λ addr. ok (record { scheme = codes "http"; host = addr });
}

abbrev libraries : Libraries ℕ ℕ Bytes Bytes Bytes (Msg ℕ ℕ) ℕ
libraries = record {
  new_log_registry = pure tt;
  process_config = λ prefix. pure cfg;
  open_file = λ path. pure path;
  clients = client_library;
  status_network = λ rpc. pure (codes "network-1");
  ibc_connection = λ rest id. pure (record {
    client_id = codes "07-tendermint-0";
    counterparty_connection_id = codes "connection-1";
    counterparty_client_id = codes "07-tendermint-1";
  });
  retry = λ m. m;
  chains = chain_library;
  new_keyring = λ app backend dir. ok dir;
  sender_env = λ rpc keybase cfg id. Sending.env;
  compile = λ expression. ok (λ text. false);
  parse_chain_id = λ id. 1;
  subscriber_env = λ rpc rest. Subscribing.env;
}
