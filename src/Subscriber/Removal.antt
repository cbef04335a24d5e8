-- ===== src/Subscriber/Removal.antt =====
-- processRemoveEvent (internal/subscriber/subscriber.go): what is left of the active queries.
use neutron_query_relayer.Prelude.{
  ℕ, ◌+◌, ◌≡◌, ◌∙◌, refl, sym, true, Option, none, some, List, [], ◌∷◌, ◌++◌, append_assoc, Bytes,
  bytes_eq, length, get_elem?, length-append, if◌then◌else◌, arith,
}
use neutron_query_relayer.Errors.{Result, ok}
use neutron_query_relayer.Registry.{has_key}
use neutron_query_relayer.QueryMap.{QueryMap, map_get, map_delete, map_get-map_delete}
use neutron_query_relayer.Queries.{Env}
use neutron_query_relayer.Subscriber.{
  Events, Subscriber, attr, has_count, check_events, at, delete_query, remove_all,
  process_remove_event,
}

get_elem?-append : (xs ys : List Bytes) (y : Bytes) → get_elem? (xs ++ y ∷ ys) (length xs) ≡ some y
get_elem?-append [] ys y = refl
get_elem?-append (x ∷ xs) ys y = get_elem?-append xs ys y

module _ {W : Type 0} (env : Env W) where
  -- the values of an attribute of the event
  abbrev query_ids : Events → List Bytes
  query_ids events = events (attr env.names env.names.attribute_key_query_id)

  abbrev connection_ids : Events → List Bytes
  connection_ids events = events (attr env.names env.names.attribute_key_connection_id)

  -- No error, and the queries with these ids, and no other ones, are gone.
  abbrev pub Removed : List Bytes → Subscriber W → Result (Unit {0}) → Subscriber W → Type 0
  Removed ids s res s' =
      (res ≡ ok tt)
      × ((j : Bytes)
          → map_get s'.active_queries j
            ≡ (if has_key bytes_eq ids j then none else map_get s.active_queries j))

  delete_first :
      (q : Bytes) (ids : List Bytes) (m : QueryMap) (j : Bytes) (o : Option _)
      → o ≡ (if has_key bytes_eq ids j then none else map_get (map_delete m q) j)
      → o ≡ (if has_key bytes_eq (q ∷ ids) j then none else map_get m j)
  unfolding has_key
  delete_first q ids m j o h = ground (arith, h, map_get-map_delete m q j)

  at-some :
      (xs : List Bytes) (idx : ℕ) (x : Bytes) → get_elem? xs idx ≡ some x → at env xs idx ≡ ok x
  unfolding at
  at-some xs idx x e = rw (e, at) refl

  remove_all-Removed :
      (events : Events) (cs before ids : List Bytes) (idx : ℕ) (s : Subscriber W)
      → query_ids events ≡ before ++ ids
      → idx ≡ length before
      → length ids ≡ length cs
      → Removed ids s (remove_all env events cs idx s).0 (remove_all env events cs idx s).1
  unfolding remove_all delete_query has_key
  remove_all-Removed events [] before [] idx s e i l = (refl, λ j. refl)
  remove_all-Removed events [] before (q ∷ ids) idx s e i l = absurd (omega (arith, l))
  remove_all-Removed events (c ∷ cs) before [] idx s e i l = absurd (omega (arith, l))
  remove_all-Removed events (c ∷ cs) before (q ∷ ids) idx s e i l =
      let found : at env (query_ids events) idx ≡ ok q =
        at-some (query_ids events) idx q (rw (e, i) (get_elem?-append before ids q)) in
      let s1 : Subscriber W = record s { active_queries = map_delete s.active_queries q } in
      let rest =
        remove_all-Removed events cs (before ++ q ∷ []) ids (idx + 1) s1
          (e ∙ sym (append_assoc before (q ∷ []) ids))
          (omega (arith, i, length-append before (q ∷ []))) (omega (arith, l)) in
      rw found (rest.0, λ j. delete_first q ids s.active_queries j _ (rest.1 j))

  counts_lem :
      (events : Events)
      → check_events env events ≡ ok true
      → length (query_ids events) ≡ length (connection_ids events)
  unfolding check_events has_count
  counts_lem events h = ground (arith, h)

  -- A remove event that passes the checks gives no error, and afterwards the map of active queries
  -- has no entry for its query ids and the entries that it had for all others.
  pub process_remove_event-Removed :
      (events : Events) (s : Subscriber W)
      → check_events env events ≡ ok true
      → Removed
          (query_ids events)
          s
          (process_remove_event env events s).0
          (process_remove_event env events s).1
  unfolding process_remove_event
  process_remove_event-Removed events s c = rw c (
      remove_all-Removed events (connection_ids events) [] (query_ids events) 0 s refl refl
        (counts_lem events c))
