-- ===== src/Startup/Build/Started.antt =====
-- startRelayer of cmd/neutron_query_relayer/cmd/start.go: what its goroutines share.
use neutron_query_relayer.Prelude.{◌≡◌}
use neutron_query_relayer.Errors.{Result, ok, err}
use neutron_query_relayer.Config.{NeutronQueryRelayerConfig}
use neutron_query_relayer.Startup.{
  DependencyContainer, Relayer, TxSubmitChecker, Application, Libraries,
}
use neutron_query_relayer.Startup.Build.Wiring.{Container}

module _ {W Float Rpc Keybase Database Msg LegacyDec : Type 0}
    (lib : Libraries W Float Rpc Keybase Database Msg LegacyDec) where
  -- The container is wired, the relayer's two processors are equal to those of the container, of
  -- which the web server has the first one, and the relayer and the checker have the storage.
  abbrev pub Shares : Application W Float Rpc Database → Type 0
  Shares app =
      Container lib app.cfg app.storage (ok app.deps)
      × (app.relayer.tx_processor ≡ app.deps.tx_processor)
      × (app.relayer.kv_processor ≡ app.deps.kv_processor)
      × (app.relayer.storage ≡ app.storage)
      × (app.tx_submit_checker.storage ≡ app.storage)

  abbrev pub Started : Result (Application W Float Rpc Database) → Type 0
  Started (err e) = Unit
  Started (ok app) = Shares app

  module _ (cfg : NeutronQueryRelayerConfig Float) (storage : Database) where
    -- A relayer for a container.
    abbrev Fits :
        DependencyContainer W Float Rpc Database → Result (Relayer W Float Rpc Database) → Type 0
    Fits deps (err e) = Unit
    Fits deps (ok relayer) =
        (relayer.tx_processor ≡ deps.tx_processor)
        × (relayer.kv_processor ≡ deps.kv_processor)
        × (relayer.storage ≡ storage)

    abbrev HasStorage : Result (TxSubmitChecker Rpc Database) → Type 0
    HasStorage (err e) = Unit
    HasStorage (ok checker) = checker.storage ≡ storage
