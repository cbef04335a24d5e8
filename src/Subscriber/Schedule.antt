-- ===== src/Subscriber/Schedule.antt =====
-- processBlockEvent (internal/subscriber/subscriber.go): when the active queries are sent.
use neutron_query_relayer.Prelude.{
  ℕ, ◌+◌, ◌%◌, ◌<◌, ◌≤◌, ◌≡◌, inl, inr, ◌⊎◌, refl, true, false, List, [], ◌∷◌, ◌++◌, Bytes, codes,
  if◌then◌else◌, u64, arith, Bool-cases,
}
use neutron_query_relayer.Errors.{Result, ok, err, context-ok}
use neutron_query_relayer.Exec.{wrapping, bind_rule}
use neutron_query_relayer.Relay.{RegisteredQuery}
use neutron_query_relayer.QueryMap.{QueryMap, AllEntries}
use neutron_query_relayer.Queries.{Env}
use neutron_query_relayer.Subscriber.{
  Subscriber, is_early, visit, out, send_due, process_block_event,
}

-- The query has no result yet, or its period since the last one is over: the sum is one of 64
-- bits.
abbrev pub IsDue : ℕ → RegisteredQuery → Type 0
IsDue height q =
    (q.last_submitted_result_local_height ≡ 0)
    ⊎ ((q.last_submitted_result_local_height + q.update_period) % u64 ≤ height)

-- The query has a result, and its period since that one is not over.
abbrev pub IsWaiting : ℕ → RegisteredQuery → Type 0
IsWaiting height q =
    (0 < q.last_submitted_result_local_height)
    × (height < (q.last_submitted_result_local_height + q.update_period) % u64)

-- The active queries before and after a block of the height, and the queries that it sends: those
-- that are due, in their order, each of which is sent as it was and then has the height.
pub data Visits (height : ℕ) : QueryMap → QueryMap → List RegisteredQuery → Type 0 where
  no_queries : Visits height [] [] []
  waiting :
      {k : Bytes} {q : RegisteredQuery} {m m' : QueryMap} {due : List RegisteredQuery}
      → IsWaiting height q
      → Visits height m m' due
      → Visits height ((k, q) ∷ m) ((k, q) ∷ m') due
  sent :
      {k : Bytes} {q : RegisteredQuery} {m m' : QueryMap} {due : List RegisteredQuery}
      → IsDue height q
      → Visits height m m' due
      → Visits height
          ((k, q) ∷ m)
          ((k, record q { last_submitted_result_local_height = height }) ∷ m')
          (q ∷ due)

is_early-IsDue : (height : ℕ) (q : RegisteredQuery) → is_early height q ≡ false → IsDue height q
unfolding is_early
is_early-IsDue height q h = ground (arith, h)

is_early-IsWaiting :
    (height : ℕ) (q : RegisteredQuery) → is_early height q ≡ true → IsWaiting height q
unfolding is_early
is_early-IsWaiting height q h = ground (arith, h)

visit-Visits : (height : ℕ) (m : QueryMap) → Visits height m (visit height m).0 (visit height m).1
unfolding visit
visit-Visits height [] = no_queries
visit-Visits height ((k, q) ∷ m) = elim (Bool-cases (is_early height q)) [
  | inl e ↦ rw e (waiting (is_early-IsWaiting height q e) (visit-Visits height m))
  | inr n ↦ rw n (sent (is_early-IsDue height q n) (visit-Visits height m))
]

-- the entries of which the time has not come
abbrev pub early_entries : ℕ → QueryMap → QueryMap
early_entries height [] = []
early_entries height ((k, q) ∷ m) =
    let rest = early_entries height m in if is_early height q then (k, q) ∷ rest else rest

-- If a query is sent at the first height, the second one lies within its period.
abbrev pub WithinPeriod : ℕ → ℕ → Bytes → RegisteredQuery → Type 0
WithinPeriod first second k q = (second < first + q.update_period) × (first + q.update_period < u64)

is_early-again :
    (first second : ℕ) (k : Bytes) (q : RegisteredQuery)
    → 0 < first
    → WithinPeriod first second k q
    → is_early second (record q { last_submitted_result_local_height = first }) ≡ true
unfolding is_early
is_early-again first second k q p (n, u) = ground (arith, p, n, u)

-- If the second height is below the first, which is not 0, plus the period of each query, without
-- overflow: the second block sends none of the queries that the first one sent, and the others as
-- if it had not come.
pub visit-visit :
    (first second : ℕ) (m : QueryMap)
    → 0 < first
    → AllEntries (WithinPeriod first second) m
    → (visit second (visit first m).0).1 ≡ (visit second (early_entries first m)).1
unfolding visit
visit-visit first second [] p h = refl
visit-visit first second ((k, q) ∷ m) p h = elim (Bool-cases (is_early first q)) [
  | inl e ↦ rw e (elim (Bool-cases (is_early second q)) [
    | inl e' ↦ rw e' (visit-visit first second m p h.1)
    | inr n ↦ rw (n, visit-visit first second m p h.1) refl
  ])
  | inr n ↦ rw (n, is_early-again first second k q p h.0) (visit-visit first second m p h.1)
]

module _ {W : Type 0} (env : Env W) where
  -- What a block event does: with the height of the chain it sends the queries that are due, and
  -- no others, and records the height in them alone.
  abbrev pub Scheduled : Subscriber W → Result (Unit {0}) → Subscriber W → Type 0
  Scheduled s (ok u) s' =
      (height : ℕ) × (due : List RegisteredQuery) × ((env.status s.world).0 ≡ ok height)
      × (s'.tasks ≡ s.tasks ++ due)
      × Visits height s.active_queries s'.active_queries due
  Scheduled s (err e) s' = (s'.tasks ≡ s.tasks) × (s'.active_queries ≡ s.active_queries)

  -- A block event appends to the tasks exactly the active queries that are due at the node's
  -- height (without a result yet, or with the last height plus the period, in 64 bits, not above
  -- it), in their order and as they were, records the height in each of these, and leaves the
  -- others and all keys as they are; on an error the tasks and the queries are as they were.
  pub process_block_event-Scheduled :
      (s : Subscriber W) → Scheduled s (process_block_event env s).0 (process_block_event env s).1
  unfolding process_block_event send_due
  process_block_event-Scheduled s =
      bind_rule (Scheduled s) (wrapping (codes "failed to get Status") (out env env.status))
        (send_due env) s
        (λ height e. (
          height,
          (visit height s.active_queries).1,
          context-ok _ _ e,
          refl,
          visit-Visits height s.active_queries,
        ))
        (λ x e. (refl, refl))
