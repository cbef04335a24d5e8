-- ===== src/Config.antt =====
-- internal/config/config.go: the configuration, which envconfig reads from the environment.
use neutron_query_relayer.Prelude.{ℕ, Bool, Bytes, codes}
use neutron_query_relayer.Exec.{Exec, wrapping}
use neutron_query_relayer.Registry.{RegistryConfig}

-- A duration is its number of nanoseconds; the sources only pass durations on.
pub record NeutronChainConfig (Float : Type 0) : Type 0 where
  pub rpc_addr : Bytes
  pub rest_addr : Bytes
  pub home_dir : Bytes
  pub sign_key_name : Bytes
  pub timeout : ℕ
  pub gas_prices : Bytes
  pub gas_limit : ℕ
  pub gas_adjustment : Float
  pub connection_id : Bytes
  pub debug : Bool
  pub keyring_backend : Bytes
  pub output_format : Bytes
  pub sign_mode_str : Bytes
  pub denom : Bytes
  pub max_gas_price : Float
  pub gas_price_multiplier : Float

pub record TargetChainConfig : Type 0 where
  pub rpc_addr : Bytes
  pub timeout : ℕ
  pub debug : Bool
  pub output_format : Bytes

pub record NeutronQueryRelayerConfig (Float : Type 0) : Type 0 where
  pub neutron_chain : NeutronChainConfig Float
  pub target_chain : TargetChainConfig
  pub registry : RegistryConfig
  pub allow_tx_queries : Bool
  pub allow_kv_callbacks : Bool
  pub min_kv_update_period : ℕ
  pub storage_path : Bytes
  pub check_submitted_tx_status_delay : ℕ
  pub queries_task_queue_capacity : ℕ
  pub initial_tx_search_offset : ℕ
  pub listen_addr : Bytes
  pub ignore_errors_regex : Bytes

abbrev pub env_prefix : Bytes
env_prefix = codes "RELAYER"

module _ {W Float : Type 0} (process : Bytes → Exec W (NeutronQueryRelayerConfig Float)) where
  -- `process` is envconfig.Process
  unfoldable pub new_neutron_query_relayer_config : Exec W (NeutronQueryRelayerConfig Float)
  new_neutron_query_relayer_config =
      wrapping (codes "could not read config from env") (process env_prefix)
