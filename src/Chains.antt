-- ===== src/Chains.antt =====
-- internal/relay/config.go and loadChains of internal/app/app.go: the two chains of the relayer
-- library, with their providers and the ends of the path between them.
pub mod Loaded
use neutron_query_relayer.Prelude.{
  ℕ, Bool, true, false, Option, none, some, Bytes, codes, [], if◌then◌else◌,
}
use neutron_query_relayer.Errors.{Error, Result, ok, err, plain, context, ◌>>=◌ as ◌>>=r◌}
use neutron_query_relayer.Exec.{Exec, pure, lift, wrapping, ◌>>=◌, ◌>>◌}
use neutron_query_relayer.Config.{NeutronChainConfig, TargetChainConfig, NeutronQueryRelayerConfig}
use neutron_query_relayer.App.{ConnectionParams}

-- cosmos.CosmosProviderConfig, as far as it is filled
pub record ProviderConfig (Float : Type 0) : Type 0 where
  pub key : Bytes
  pub chain_id : Bytes
  pub rpc_addr : Bytes
  pub account_prefix : Bytes
  pub keyring_backend : Bytes
  pub gas_adjustment : Float
  pub gas_prices : Bytes
  pub debug : Bool
  pub timeout : Bytes
  pub output_format : Bytes
  pub sign_mode_str : Bytes

-- cosmos.CosmosProvider with its PCfg.KeyDirectory
pub record Provider (Float : Type 0) : Type 0 where
  pub config : ProviderConfig Float
  pub home_path : Bytes
  pub key_directory : Bytes

pub record PathEnd : Type 0 where
  pub client_id : Bytes
  pub connection_id : Bytes

-- relayer.Chain; a new one has no path
pub record Chain (Float : Type 0) : Type 0 where
  pub provider : Provider Float
  pub debug : Bool
  pub path_end : Option PathEnd

-- The relayer library, Go's float64 zero and print of a duration, and Neutron's prefix.
-- `new_provider` gives no provider if it is not a CosmosProvider.
pub record ChainLibrary (W Float : Type 0) : Type 0 where
  pub new_provider : ProviderConfig Float → Bytes → Bool → Bytes → Result (Option (Provider Float))
  pub add_path : Bytes → Bytes → Chain Float → Result (Chain Float)
  pub init_provider : Provider Float → Exec W (Unit {0})
  pub float_zero : Float
  pub format_duration : ℕ → Bytes
  pub bech32_main_prefix : Bytes

module _ {W Float : Type 0} (lib : ChainLibrary W Float) where
  patched : Bytes → Bool → Option (Provider Float) → Result (Chain Float)
  patched homepath debug none =
      err (plain (codes "failed to patch CosmosProvider config (type cast failed)"))
  patched homepath debug (some prov) = ok (record {
    provider = record prov { key_directory = homepath };
    debug = debug;
    path_end = none;
  })

  get_chain : ProviderConfig Float → Bytes → Bool → Result (Chain Float)
  unfolding patched
  get_chain cfg homepath debug =
      context (codes "failed to build ChainProvider for")
        (lib.new_provider cfg homepath debug cfg.chain_id)
      >>=r patched homepath debug

  pub neutron_provider_config : NeutronChainConfig Float → Bytes → ProviderConfig Float
  neutron_provider_config cfg chain_id = record {
    key = cfg.sign_key_name;
    chain_id = chain_id;
    rpc_addr = cfg.rpc_addr;
    account_prefix = lib.bech32_main_prefix;
    keyring_backend = cfg.keyring_backend;
    gas_adjustment = cfg.gas_adjustment;
    gas_prices = cfg.gas_prices;
    debug = cfg.debug;
    timeout = lib.format_duration cfg.timeout;
    output_format = cfg.output_format;
    sign_mode_str = cfg.sign_mode_str;
  }

  pub get_neutron_chain : NeutronChainConfig Float → Bytes → Result (Chain Float)
  unfolding get_chain neutron_provider_config
  get_neutron_chain cfg chain_id =
      context (codes "could not create neutron chain")
        (get_chain (neutron_provider_config cfg chain_id) cfg.home_dir cfg.debug)

  pub target_provider_config : TargetChainConfig → Bytes → ProviderConfig Float
  target_provider_config cfg chain_id = record {
    key = [];
    chain_id = chain_id;
    rpc_addr = cfg.rpc_addr;
    account_prefix = [];
    keyring_backend = codes "test";
    gas_adjustment = lib.float_zero;
    gas_prices = [];
    debug = cfg.debug;
    timeout = lib.format_duration cfg.timeout;
    output_format = cfg.output_format;
    sign_mode_str = [];
  }

  pub get_target_chain : TargetChainConfig → Bytes → Result (Chain Float)
  unfolding get_chain target_provider_config
  get_target_chain cfg chain_id =
      context (codes "could not create neutron chain")
        (get_chain (target_provider_config cfg chain_id) [] cfg.debug)

  -- one of the two halves of loadChains: a chain, its path and its provider's start
  load_chain : Bytes → Bytes → Bytes → Bytes → Bytes → Result (Chain Float) → Exec W (Chain Float)
  load_chain no_chain no_path no_provider client_id connection_id created = do
    chain ← wrapping no_chain (lift created)
    joined ← wrapping no_path (lift (lib.add_path client_id connection_id chain))
    wrapping no_provider (lib.init_provider joined.provider)
    pure joined

  load_target_chain : NeutronQueryRelayerConfig Float → ConnectionParams → Exec W (Chain Float)
  unfolding load_chain get_target_chain
  load_target_chain cfg conn_params =
      load_chain (codes "failed to load target chain from env")
        (codes "failed to AddPath to source chain") (codes "failed to Init source chain provider")
        conn_params.target_client_id conn_params.target_connection_id
        (get_target_chain cfg.target_chain conn_params.target_chain_id)

  load_neutron_chain : NeutronQueryRelayerConfig Float → ConnectionParams → Exec W (Chain Float)
  unfolding load_chain get_neutron_chain
  load_neutron_chain cfg conn_params =
      load_chain (codes "failed to load neutron chain from env")
        (codes "failed to AddPath to destination chain")
        (codes "failed to Init source chain provider") conn_params.neutron_client_id
        cfg.neutron_chain.connection_id
        (get_neutron_chain cfg.neutron_chain conn_params.neutron_chain_id)

  unfoldable pub load_chains :
      NeutronQueryRelayerConfig Float → ConnectionParams → Exec W (Chain Float × Chain Float)
  unfolding load_target_chain load_neutron_chain
  load_chains cfg conn_params = do
    target_chain ← load_target_chain cfg conn_params
    neutron_chain ← load_neutron_chain cfg conn_params
    pure (neutron_chain, target_chain)
