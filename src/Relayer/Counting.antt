-- ===== src/Relayer/Counting.antt =====
-- The metrics of `Run` (internal/relay/relayer.go).
use neutron_query_relayer.Prelude.{
  ℕ, suc, ◌+◌, ◌≡◌, ◌<◌, refl, Bool, true, false, Option, none, some, List, [], ◌∷◌, if◌then◌else◌,
  arith, length,
}
use neutron_query_relayer.Errors.{Error, Result, ok, err}
use neutron_query_relayer.Relay.{RegisteredQuery}
use neutron_query_relayer.Relayer.{Relayer, Requests, dispatch, stops, after_query, run_query, run}

abbrev pub total : Requests → ℕ
total n = n.failed + n.succeeded

module _ {W Float : Type 0} (r : Relayer W Float) where
  -- all of `k` queries were counted, or `Run` stopped at one of them
  abbrev pub Counted : ℕ → Requests → Result (Unit {0}) × (W × Requests) → Type 0
  Counted k n (ok u, (w, n')) = total n' ≡ total n + k
  Counted k n (err e, (w, n')) = total n' < total n + k

  abbrev OneCounted : Requests → Option Error × (W × Requests) → Type 0
  OneCounted n (none, (w, n')) = total n' ≡ total n + 1
  OneCounted n (some e, (w, n')) = total n' ≡ total n

  after_query-Counted :
      (query : RegisteredQuery) (n : Requests) (res : Result (Unit {0}) × W)
      → OneCounted n (after_query r query n res)
  unfolding after_query
  after_query-Counted query n (ok u, w) = omega arith
  after_query-Counted query n (err e, w) = counted (stops r query e)
    where
      counted :
          (b : Bool)
          → OneCounted n
              (if b then (some e, (w, n)) else (none, (w, record n { failed = n.failed + 1 })))
      counted true = refl
      counted false = omega arith

  rest-Counted :
      (k : ℕ) (n n1 : Requests) (res : Result (Unit {0}) × (W × Requests))
      → total n1 ≡ total n + 1
      → Counted k n1 res
      → Counted (suc k) n res
  rest-Counted k n n1 (ok u, (w, n')) e h = omega arith
  rest-Counted k n n1 (err x, (w, n')) e h = omega arith

  round-Counted :
      (queries : List RegisteredQuery) (n : Requests) (step : Option Error × (W × Requests))
      → OneCounted n step
      → ((s : W × Requests) → Counted (length queries) s.1 (run r queries s))
      → Counted
          (suc (length queries))
          n
          (let (stop, s') = step in elim stop [ none ↦ run r queries s' | some e ↦ (err e, s') ])
  round-Counted queries n (none, s') one ih =
      rest-Counted (length queries) n s'.1 (run r queries s') one (ih s')
  round-Counted queries n (some e, s') one ih = omega arith

  -- `Run` counts each of its queries once, as failed or as succeeded, unless it returns an error;
  -- then it counted fewer.
  pub run-Counted :
      (queries : List RegisteredQuery) (s : W × Requests)
      → Counted (length queries) s.1 (run r queries s)
  unfolding run run_query
  run-Counted [] s = omega arith
  run-Counted (query ∷ queries) s =
      round-Counted queries s.1 (after_query r query s.1 (dispatch r query s.0))
        (after_query-Counted query s.1 (dispatch r query s.0)) (run-Counted queries)
