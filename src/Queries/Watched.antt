-- ===== src/Queries/Watched.antt =====
-- Which queries getNeutronRegisteredQueries (internal/subscriber/utils.go) gives.
use mathlib.Core.Path.{subst}
use neutron_query_relayer.Prelude.{
  ℕ, ◌≡◌, inl, inr, true, Option, none, some, List, [], ◌∷◌, Bytes, bytes_eq, codes, Bool-cases,
}
use neutron_query_relayer.Errors.{Result, ok, err, context, context-ok, result_rule}
use neutron_query_relayer.Exec.{pure, lift, wrapping, bind_rule, ◌>>=◌}
use neutron_query_relayer.Loop.{Step, more, done, loop_rule}
use neutron_query_relayer.Registry.{get_addresses}
use neutron_query_relayer.Strconv.{parse_uint}
use neutron_query_relayer.Relay.{RegisteredQuery}
use neutron_query_relayer.RestQuery.{RestQuery, item_to_neutron_registered_query}
use neutron_query_relayer.RestQuery.ReadBack.{item_to_neutron_registered_query-id}
use neutron_query_relayer.QueryMap.{QueryMap, AllEntries, map_set-AllEntries}
use neutron_query_relayer.Queries.{
  Env, is_watched_msg_type, is_watched_query_id, add_query, add_queries, next_page, fetch_page,
  get_neutron_registered_queries,
}

module _ {W : Type 0} (env : Env W) where
  -- An entry of the map of active queries that is as the configuration wants: its key is the
  -- decimal text of a watched id, and the type of its query is watched.
  abbrev pub IsWatched : Bytes → RegisteredQuery → Type 0
  IsWatched k q =
      (id : ℕ) × (parse_uint k ≡ ok id)
      × (is_watched_query_id env id ≡ true)
      × (is_watched_msg_type env q.query_type ≡ true)

  add_query-IsWatched :
      (rest_query : RestQuery) (q : RegisteredQuery) (m : QueryMap)
      → item_to_neutron_registered_query rest_query ≡ ok q
      → AllEntries IsWatched m
      → AllEntries IsWatched (add_query env rest_query q m)
  unfolding add_query
  add_query-IsWatched rest_query q m e h =
      elim (Bool-cases (is_watched_msg_type env q.query_type)) [
        | inr n ↦ rw n h
        | inl t ↦ rw t (elim (Bool-cases (is_watched_query_id env q.id)) [
          | inr n ↦ rw n h
          | inl i ↦ rw i (
              map_set-AllEntries IsWatched m rest_query.id q h
                (q.id, item_to_neutron_registered_query-id rest_query q e, i, t))
        ])
      ]

  -- all entries of the map that a step returned
  abbrev AllIn : Result QueryMap → Type 0
  AllIn (ok m) = AllEntries IsWatched m
  AllIn (err e) = Unit

  add_queries-IsWatched :
      (os : List RestQuery) (m : QueryMap) → AllEntries IsWatched m → AllIn (add_queries env os m)
  unfolding add_queries
  add_queries-IsWatched [] m h = h
  add_queries-IsWatched (o ∷ os) m h =
      result_rule AllIn
        (context (codes "failed to cast ToNeutronRegisteredQuery")
          (item_to_neutron_registered_query o))
        (λ q. add_queries env os (add_query env o q m))
        (λ q e.
          add_queries-IsWatched os (add_query env o q m)
            (add_query-IsWatched o q m (context-ok _ _ e) h))
        (λ x _. tt)

  -- the map of a step, finished or not
  abbrev AllAfter : Result (Step (QueryMap × Option Bytes) QueryMap) → Type 0
  AllAfter (ok (more s)) = AllEntries IsWatched s.0
  AllAfter (ok (done m)) = AllEntries IsWatched m
  AllAfter (err e) = Unit

  next_page-IsWatched :
      (key : Option Bytes) (m : QueryMap)
      → AllEntries IsWatched m
      → AllAfter (ok (next_page env key m))
  unfolding next_page
  next_page-IsWatched none m h = h
  next_page-IsWatched (some key) m h = elim (Bool-cases (bytes_eq key [])) [
    | inl e ↦ rw e h
    | inr n ↦ rw n h
  ]

  fetch_page-IsWatched :
      (s : QueryMap × Option Bytes) (w : W)
      → AllEntries IsWatched s.0
      → AllAfter (fetch_page env s w).0
  unfolding fetch_page
  fetch_page-IsWatched (m, page_key) w h =
      bind_rule (λ r _. AllAfter r)
        (wrapping (codes "failed to get NeutronInterchainqueriesRegisteredQueries")
          (env.registered_queries (get_addresses env.registry) env.connection_id page_key))
        (λ payload. lift (add_queries env payload.registered_queries m) >>= λ m'.
          pure (next_page env payload.next_key m'))
        w
        (λ payload _.
          bind_rule (λ r _. AllAfter r) (lift (add_queries env payload.registered_queries m))
            (λ m'. pure (next_page env payload.next_key m')) _
            (λ m' e.
              next_page-IsWatched payload.next_key m'
                (subst AllIn e (add_queries-IsWatched payload.registered_queries m h)))
            (λ x _. tt))
        (λ x _. tt)

  -- all entries of the map, when there is one
  abbrev pub AllFetched : Result (Option QueryMap) → Type 0
  AllFetched (ok (some m)) = AllEntries IsWatched m
  AllFetched (ok none) = Unit
  AllFetched (err e) = Unit

  -- Every entry of the map of queries that are fetched has the text of a watched id for a key and
  -- a query of a watched type.
  pub get_neutron_registered_queries-IsWatched :
      (fuel : ℕ) (w : W) → AllFetched (get_neutron_registered_queries env fuel w).0
  unfolding get_neutron_registered_queries
  get_neutron_registered_queries-IsWatched fuel w =
      loop_rule (fetch_page env) (λ s _. AllEntries IsWatched s.0) (λ r _. AllFetched r)
        (λ s w' s' h e. subst AllAfter e (fetch_page-IsWatched s w' h))
        (λ s w' m h e. subst AllAfter e (fetch_page-IsWatched s w' h)) (λ s w' x h e. tt)
        (λ s w' h. tt) fuel ([], none) w tt
