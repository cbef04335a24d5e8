-- ===== src/Chains/Loaded.antt =====
-- loadChains of internal/app/app.go: what the two chains are that it gives.
use mathlib.Core.Path.{subst}
use neutron_query_relayer.Prelude.{◌≡◌, refl, ap, ◌∙◌, Bool, Option, none, some, Bytes, [], codes}
use neutron_query_relayer.Errors.{Result, ok, err, context, context-ok, >>=-ok}
use neutron_query_relayer.Exec.{pure, lift, wrapping, bind_rule, ◌>>=◌}
use neutron_query_relayer.Config.{NeutronQueryRelayerConfig}
use neutron_query_relayer.App.{ConnectionParams}
use neutron_query_relayer.Chains.{
  ProviderConfig, Provider, Chain, ChainLibrary, patched, get_chain, neutron_provider_config,
  get_neutron_chain, target_provider_config, get_target_chain, load_chain, load_target_chain,
  load_neutron_chain, load_chains,
}

module _ {W Float : Type 0} where
  -- What the relayer library promises: a provider has the configuration that it is made from, and
  -- AddPath sets the chain's end of the path and leaves its provider.
  pub record Promises (lib : ChainLibrary W Float) : Type 0 where
    pub provides :
        (cfg : ProviderConfig Float) (home : Bytes) (debug : Bool) (id : Bytes)
        (prov : Provider Float)
        → lib.new_provider cfg home debug id ≡ ok (some prov)
        → prov.config ≡ cfg
    pub joins :
        (client_id connection_id : Bytes) (chain joined : Chain Float)
        → lib.add_path client_id connection_id chain ≡ ok joined
        → (joined.path_end ≡ some (record { client_id = client_id; connection_id = connection_id }))
          × (joined.provider ≡ chain.provider)

-- A chain with this configuration, its keys and its end of the path.
module _ {Float : Type 0} where
  abbrev pub IsChain : ProviderConfig Float → Bytes → Bytes → Bytes → Chain Float → Type 0
  IsChain cfg home client_id connection_id chain =
      (chain.provider.config ≡ cfg)
      × (chain.provider.key_directory ≡ home)
      × (chain.path_end ≡ some (record { client_id = client_id; connection_id = connection_id }))

module _ {W Float : Type 0} (lib : ChainLibrary W Float) (cfg : NeutronQueryRelayerConfig Float)
    (params : ConnectionParams) where
  -- The chains of the two networks, each with its client and its connection for a path.
  abbrev pub Connected : Chain Float → Chain Float → Type 0
  Connected neutron_chain target_chain =
      IsChain (neutron_provider_config lib cfg.neutron_chain params.neutron_chain_id)
        cfg.neutron_chain.home_dir params.neutron_client_id cfg.neutron_chain.connection_id
        neutron_chain
      × IsChain (target_provider_config lib cfg.target_chain params.target_chain_id) []
          params.target_client_id params.target_connection_id target_chain

  abbrev pub Loaded : Result (Chain Float × Chain Float) → Type 0
  Loaded (err e) = Unit
  Loaded (ok chains) = Connected chains.0 chains.1

module _ {W Float : Type 0} (lib : ChainLibrary W Float) (law : Promises lib) where
  abbrev Has : ProviderConfig Float → Bytes → Result (Chain Float) → Type 0
  Has cfg home (err e) = Unit
  Has cfg home (ok chain) = (chain.provider.config ≡ cfg) × (chain.provider.key_directory ≡ home)

  patched-Has :
      (cfg : ProviderConfig Float) (home : Bytes) (debug : Bool) (o : Option (Provider Float))
      → lib.new_provider cfg home debug cfg.chain_id ≡ ok o
      → Has cfg home (patched lib home debug o)
  unfolding patched
  patched-Has cfg home debug none e = tt
  patched-Has cfg home debug (some prov) e = (law.provides cfg home debug cfg.chain_id prov e, refl)

  get_chain_inv :
      (cfg : ProviderConfig Float) (home : Bytes) (debug : Bool) (chain : Chain Float)
      → get_chain lib cfg home debug ≡ ok chain
      → (chain.provider.config ≡ cfg) × (chain.provider.key_directory ≡ home)
  unfolding get_chain
  get_chain_inv cfg home debug chain h =
      let (o, e, p) =
        >>=-ok
          (context (codes "failed to build ChainProvider for")
            (lib.new_provider cfg home debug cfg.chain_id))
          (patched lib home debug) h in
      subst (Has cfg home) p (patched-Has cfg home debug o (context-ok _ _ e))

  -- A chain that was loaded was created, and then given its path.
  abbrev Loads : Result (Chain Float) → Bytes → Bytes → Result (Chain Float) → Type 0
  Loads created client_id connection_id (err e) = Unit
  Loads created client_id connection_id (ok joined) =
      (chain : Chain Float) × (created ≡ ok chain)
      × (lib.add_path client_id connection_id chain ≡ ok joined)

  load_chain-Loads :
      (no_chain no_path no_provider client_id connection_id : Bytes)
      (created : Result (Chain Float)) (w : W)
      → Loads created client_id connection_id
          (load_chain lib no_chain no_path no_provider client_id connection_id created w).0
  unfolding load_chain
  load_chain-Loads no_chain no_path no_provider client_id connection_id created w =
      bind_rule (λ r _. Loads created client_id connection_id r) (wrapping no_chain (lift created))
        _ w
        (λ chain c.
          bind_rule (λ r _. Loads created client_id connection_id r)
            (wrapping no_path (lift (lib.add_path client_id connection_id chain)))
            (λ joined.
              wrapping no_provider (lib.init_provider joined.provider) >>= λ _. pure joined)
            _
            (λ joined j.
              bind_rule (λ r _. Loads created client_id connection_id r)
                (wrapping no_provider (lib.init_provider joined.provider)) (λ _. pure joined) _
                (λ _ _. (chain, context-ok _ _ c, context-ok _ _ j)) (λ x _. tt))
            (λ x _. tt))
        (λ x _. tt)

  Loads-IsChain :
      (cfg : ProviderConfig Float) (home : Bytes) (debug : Bool)
      (what client_id connection_id : Bytes) (joined : Chain Float)
      → Loads (context what (get_chain lib cfg home debug)) client_id connection_id (ok joined)
      → IsChain cfg home client_id connection_id joined
  Loads-IsChain cfg home debug what client_id connection_id joined (chain, c, j) =
      let (made, kept) = get_chain_inv cfg home debug chain (context-ok _ _ c) in
      let (path, same) = law.joins client_id connection_id chain joined j in
      (ap (λ p. p.config) same ∙ made, ap (λ p. p.key_directory) same ∙ kept, path)

  module _ (cfg : NeutronQueryRelayerConfig Float) (params : ConnectionParams) where
    abbrev IsTarget : Result (Chain Float) → Type 0
    IsTarget (err e) = Unit
    IsTarget (ok chain) =
        IsChain (target_provider_config lib cfg.target_chain params.target_chain_id) []
          params.target_client_id params.target_connection_id chain

    IsTarget-Loads :
        (r : Result (Chain Float))
        → Loads
            (get_target_chain lib cfg.target_chain params.target_chain_id)
            params.target_client_id
            params.target_connection_id
            r
        → IsTarget r
    unfolding get_target_chain
    IsTarget-Loads (err e) l = tt
    IsTarget-Loads (ok chain) l = Loads-IsChain _ _ _ _ _ _ chain l

    load_target_chain-IsTarget : (w : W) → IsTarget (load_target_chain lib cfg params w).0
    unfolding load_target_chain
    load_target_chain-IsTarget w = IsTarget-Loads _ (load_chain-Loads _ _ _ _ _ _ w)

    abbrev IsNeutron : Result (Chain Float) → Type 0
    IsNeutron (err e) = Unit
    IsNeutron (ok chain) =
        IsChain (neutron_provider_config lib cfg.neutron_chain params.neutron_chain_id)
          cfg.neutron_chain.home_dir params.neutron_client_id cfg.neutron_chain.connection_id chain

    IsNeutron-Loads :
        (r : Result (Chain Float))
        → Loads
            (get_neutron_chain lib cfg.neutron_chain params.neutron_chain_id)
            params.neutron_client_id
            cfg.neutron_chain.connection_id
            r
        → IsNeutron r
    unfolding get_neutron_chain
    IsNeutron-Loads (err e) l = tt
    IsNeutron-Loads (ok chain) l = Loads-IsChain _ _ _ _ _ _ chain l

    load_neutron_chain-IsNeutron : (w : W) → IsNeutron (load_neutron_chain lib cfg params w).0
    unfolding load_neutron_chain
    load_neutron_chain-IsNeutron w = IsNeutron-Loads _ (load_chain-Loads _ _ _ _ _ _ w)

    pub load_chains-Loaded : (w : W) → Loaded lib cfg params (load_chains lib cfg params w).0
    unfolding load_chains
    load_chains-Loaded w =
        bind_rule (λ r _. Loaded lib cfg params r) (load_target_chain lib cfg params) _ w
          (λ target t.
            bind_rule (λ r _. Loaded lib cfg params r) (load_neutron_chain lib cfg params)
              (λ neutron. pure (neutron, target)) _
              (λ neutron n. (
                subst IsNeutron n (load_neutron_chain-IsNeutron _),
                subst IsTarget t (load_target_chain-IsTarget w),
              ))
              (λ x _. tt))
          (λ x _. tt)
