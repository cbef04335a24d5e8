-- ===== src/Subscriber/Owners.antt =====
-- processUpdateEvent (internal/subscriber/subscriber.go), for events without owners.
use neutron_query_relayer.Prelude.{
  ◌≡◌, refl, Bool, true, false, List, [], ◌∷◌, Bytes, length, ◌==◌, if◌then◌else◌,
}
use neutron_query_relayer.Errors.{Error, ok, err}
use neutron_query_relayer.Queries.{Env}
use neutron_query_relayer.Subscriber.{
  Events, Subscriber, index_panic, attr, check_events, at, update_all, process_update_event,
}

module _ {W : Type 0} (env : Env W) where
  if_true_lem :
      (b c : Bool) (e : Error)
      → (if b then ok false else if c then err e else ok true) ≡ ok true
      → b ≡ false
  if_true_lem true c e h = cc
  if_true_lem false c e h = refl

  update_all-panics :
      (events : Events) (cs : List Bytes) (s : Subscriber W)
      → (length cs == 0) ≡ false
      → events (attr env.names env.names.attribute_key_owner) ≡ []
      → update_all env events cs 0 s ≡ (err index_panic, s)
  unfolding update_all at
  update_all-panics events [] s n o = cc
  update_all-panics events (c ∷ cs) s n o = rw o refl

  -- An update event that passes the checks and has no owners runs into an index out of range, with
  -- the subscriber as it was.
  pub process_update_event-panics :
      (events : Events) (s : Subscriber W)
      → check_events env events ≡ ok true
      → events (attr env.names env.names.attribute_key_owner) ≡ []
      → process_update_event env events s ≡ (err index_panic, s)
  unfolding process_update_event check_events
  process_update_event-panics events s c o = rw c (
      update_all-panics events (events (attr env.names env.names.attribute_key_connection_id)) s
        (if_true_lem _ _ _ c) o)
