-- ===== src/Subscriber/Watching.antt =====
-- The active queries of internal/subscriber/subscriber.go against the watched types and ids.
use mathlib.Core.Path.{subst}
use neutron_query_relayer.Prelude.{
  ℕ, ◌+◌, ◌≡◌, inl, inr, refl, Bool, true, false, not, Option, none, some, List, [], ◌∷◌, Bytes,
  codes, if◌then◌else◌, Bool-cases,
}
use neutron_query_relayer.Errors.{Result, ok, err, context, context-ok}
use neutron_query_relayer.Exec.{Exec, pure, lift, wrapping, attempt, bind_rule, ◌>>=◌}
use neutron_query_relayer.Strconv.{parse_uint}
use neutron_query_relayer.Relay.{RegisteredQuery}
use neutron_query_relayer.QueryMap.{QueryMap, AllEntries, map_set-AllEntries, map_delete-AllEntries}
use neutron_query_relayer.Queries.{
  Env, is_watched_msg_type, is_watched_query_id, is_watched_address, get_neutron_registered_query,
  get_neutron_registered_queries,
}
use neutron_query_relayer.Queries.Watched.{
  IsWatched, AllFetched, get_neutron_registered_queries-IsWatched,
}
use neutron_query_relayer.Subscriber.{
  Events, Subscriber, Incoming, block, update, remove, is_early, visit, out, attr, at, store_query,
  store_loaded, load, update_one, update_all, send_due, process_block_event, process_update_event,
  delete_query, remove_all, process_remove_event, check_events, process_event, process_events,
  unsubscribe, deferred, subscribe_to, listen, start, subscribe, get_query_updated_subscription,
  get_query_removed_subscription, get_new_block_header_subscription, is_panic,
}

module _ {W : Type 0} (env : Env W) where
  -- All active queries are watched ones.
  abbrev pub Watching : Subscriber W → Type 0
  Watching s = AllEntries (IsWatched env) s.active_queries

  -- An action after which the active queries are watched ones, when they were before it.
  record Keeps {A : Type 0} (m : Exec (Subscriber W) A) : Type 0 where
    at : (s : Subscriber W) → Watching s → Watching (m s).1

  Keeps-bind :
      {A B : Type 0} (m : Exec (Subscriber W) A) (f : A → Exec (Subscriber W) B)
      → Keeps m
      → ((s : Subscriber W) (a : A) → (m s).0 ≡ ok a → Keeps (f a))
      → Keeps (m >>= f)
  Keeps-bind m f hm hf = record {
    at = λ s h.
        bind_rule (λ _ s'. Watching s') m f s (λ a e. (hf s a e).at (m s).1 (hm.at s h))
          (λ x e. hm.at s h);
  }

  Keeps-out : {A : Type 0} (s : Bytes) (m : Exec W A) → Keeps (wrapping s (out env m))
  Keeps-out s m = record { at = λ s h. h }

  Keeps-if :
      {A : Type 0} (b : Bool) (m n : Exec (Subscriber W) A)
      → (b ≡ true → Keeps m)
      → (b ≡ false → Keeps n)
      → Keeps (if b then m else n)
  Keeps-if true m n km kn = km refl
  Keeps-if false m n km kn = kn refl

  Keeps-same : {A : Type 0} (a : A) → Keeps (pure a)
  Keeps-same a = record { at = λ s h. h }

  -- `if !b { m } else { n }`
  Keeps-unless :
      {A : Type 0} (b : Bool) (m n : Exec (Subscriber W) A)
      → Keeps m
      → (b ≡ true → Keeps n)
      → Keeps (if not b then m else n)
  Keeps-unless true m n km kn = kn refl
  Keeps-unless false m n km kn = km

  Keeps-lift : {A : Type 0} (r : Result A) → Keeps (lift r)
  Keeps-lift r = record { at = λ s h. h }

  visit-IsWatched :
      (height : ℕ) (m : QueryMap)
      → AllEntries (IsWatched env) m
      → AllEntries (IsWatched env) (visit height m).0
  unfolding visit
  visit-IsWatched height [] h = tt
  visit-IsWatched height ((k, q) ∷ m) h = elim (Bool-cases (is_early height q)) [
    | inl e ↦ rw e (h.0, visit-IsWatched height m h.1)
    | inr n ↦ rw n (h.0, visit-IsWatched height m h.1)
  ]

  process_block_event-Keeps : Keeps (process_block_event env)
  unfolding process_block_event send_due
  process_block_event-Keeps =
      Keeps-bind _ _ (Keeps-out _ env.status)
        (λ _ height _. record { at = λ s h. visit-IsWatched height s.active_queries h })

  store_loaded-Keeps :
      (k : Bytes) (id : ℕ) (r : Result RegisteredQuery)
      → parse_uint k ≡ ok id
      → is_watched_query_id env id ≡ true
      → Keeps (store_loaded env k r)
  unfolding store_loaded store_query
  store_loaded-Keeps k id (err e) p i =
      Keeps-if (is_panic e) _ _ (λ _. record { at = λ s h. h }) (λ _. Keeps-same tt)
  store_loaded-Keeps k id (ok q) p i =
      Keeps-unless (is_watched_msg_type env q.query_type) _ _ (Keeps-same tt) (λ t. record {
        at = λ s h. map_set-AllEntries (IsWatched env) s.active_queries k q h (id, p, i, t);
      })

  update_one-Keeps : (owner k : Bytes) → Keeps (update_one env owner k)
  unfolding update_one load
  update_one-Keeps owner k = Keeps-unless (is_watched_address env owner) _ _ (Keeps-same tt) (λ _.
      Keeps-bind (wrapping (codes "failed to parse queryID") (lift (parse_uint k))) (load env k)
        (Keeps-lift (context (codes "failed to parse queryID") (parse_uint k)))
        (λ _ id p. Keeps-unless (is_watched_query_id env id) _ _ (Keeps-same tt) (λ i.
          Keeps-bind (attempt (out env (get_neutron_registered_query env k))) (store_loaded env k)
            (record { at = λ s h. h }) (λ _ r _. store_loaded-Keeps k id r (context-ok _ _ p) i))))

  update_all-Keeps :
      (events : Events) (cs : List Bytes) (idx : ℕ) → Keeps (update_all env events cs idx)
  unfolding update_all
  update_all-Keeps events [] idx = record { at = λ s h. h }
  update_all-Keeps events (c ∷ cs) idx =
      Keeps-bind (lift (at env (events (attr env.names env.names.attribute_key_owner)) idx)) _
        (Keeps-lift _)
        (λ _ owner _.
          Keeps-bind (lift (at env (events (attr env.names env.names.attribute_key_query_id)) idx))
            _ (Keeps-lift _)
            (λ _ k _.
              Keeps-bind (update_one env owner k) _ (update_one-Keeps owner k)
                (λ _ _ _. update_all-Keeps events cs (idx + 1))))

  remove_all-Keeps :
      (events : Events) (cs : List Bytes) (idx : ℕ) → Keeps (remove_all env events cs idx)
  unfolding remove_all delete_query
  remove_all-Keeps events [] idx = record { at = λ s h. h }
  remove_all-Keeps events (c ∷ cs) idx =
      Keeps-bind (lift (at env (events (attr env.names env.names.attribute_key_query_id)) idx)) _
        (Keeps-lift _)
        (λ _ k _.
          Keeps-bind (delete_query env k) _
            (record { at = λ s h. map_delete-AllEntries (IsWatched env) s.active_queries k h })
            (λ _ _ _. remove_all-Keeps events cs (idx + 1)))

  process_event-Keeps : (event : Incoming) → Keeps (process_event env event)
  unfolding process_event process_update_event process_remove_event
  process_event-Keeps block = record { at = process_block_event-Keeps.at }
  process_event-Keeps (update events) = record {
    at =
        (Keeps-bind (wrapping (codes "failed to checkEvents") (lift (check_events env events))) _
          (Keeps-lift _)
          (λ _ b _. Keeps-if b _ _ (λ _. update_all-Keeps events _ 0) (λ _. Keeps-same tt))).at;
  }
  process_event-Keeps (remove events) = record {
    at =
        (Keeps-bind (wrapping (codes "failed to checkEvents") (lift (check_events env events))) _
          (Keeps-lift _)
          (λ _ b _. Keeps-if b _ _ (λ _. remove_all-Keeps events _ 0) (λ _. Keeps-same tt))).at;
  }

  process_events-Keeps : (events : List Incoming) → Keeps (process_events env events)
  unfolding process_events
  process_events-Keeps [] = record { at = λ s h. h }
  process_events-Keeps (event ∷ events) =
      Keeps-bind _ _ (process_event-Keeps event) (λ _ _ _. process_events-Keeps events)

  subscribe_to-Keeps : (subscription : Bytes) → Keeps (subscribe_to env subscription)
  unfolding subscribe_to
  subscribe_to-Keeps subscription = Keeps-out _ (env.rpc_subscribe subscription)

  listen-Keeps : (events : List Incoming) → Keeps (listen env events)
  unfolding listen
  listen-Keeps events =
      Keeps-bind (subscribe_to env (get_query_updated_subscription env)) _ (subscribe_to-Keeps _)
        (λ _ _ _.
          Keeps-bind (subscribe_to env (get_query_removed_subscription env)) _
            (subscribe_to-Keeps _)
            (λ _ _ _.
              Keeps-bind (subscribe_to env (get_new_block_header_subscription env)) _
                (subscribe_to-Keeps _) (λ _ _ _. process_events-Keeps events)))

  start-Watching :
      (events : List Incoming) (r : Option QueryMap) (s : Subscriber W)
      → Watching s
      → AllFetched env (ok r)
      → Watching (start env events r s).1
  unfolding start deferred unsubscribe
  start-Watching events none s h f = h
  start-Watching events (some m) s h f =
      bind_rule (λ _ s'. Watching s') (deferred env (listen env events)) _
        (record s { active_queries = m })
        (λ _ _. (listen-Keeps events).at (record s { active_queries = m }) f)
        (λ _ _. (listen-Keeps events).at (record s { active_queries = m }) f)

  -- Whatever events arrive, and whether `Subscribe` ends with an error or not: if the key of every
  -- active query is the decimal text of a watched id and its type is watched when it starts, so it
  -- is afterwards.
  pub subscribe-Watching :
      (fuel : ℕ) (events : List Incoming) (s : Subscriber W)
      → Watching s
      → Watching (subscribe env fuel events s).1
  unfolding subscribe
  subscribe-Watching fuel events s h =
      bind_rule (λ _ s'. Watching s')
        (wrapping (codes "could not getNeutronRegisteredQueries")
          (out env (get_neutron_registered_queries env fuel)))
        (start env events) s
        (λ r e. start-Watching events r _ h (
          subst (AllFetched env) (context-ok _ _ e)
            (get_neutron_registered_queries-IsWatched env fuel s.world)))
        (λ x e. h)
