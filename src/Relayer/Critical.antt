-- ===== src/Relayer/Critical.antt =====
-- With which errors `Run` (internal/relay/relayer.go) returns.
use neutron_query_relayer.Prelude.{
  ℕ, ◌≡◌, refl, true, false, ◌&&◌, Option, none, some, List, [], ◌∷◌, ◌++◌, Bytes, bytes_eq, codes,
  arith, ltb, ◌==◌, Bool-cases, inl, inr,
}
use neutron_query_relayer.Errors.{Error, wrap, Result, ok, err}
use neutron_query_relayer.Exec.{lift, wrapping}
use neutron_query_relayer.Fails.{
  CriticalIs, FailsAs, Fails, Fails-pure, Fails-raise, Fails-lift, Fails-if, Fails-wrapping,
  Fails-bind, Fails-bind_eq, Fails-mono,
}
use neutron_query_relayer.Relay.{Transaction, RegisteredQuery, MessageTx}
use neutron_query_relayer.TxFilter.{query_from_tx_filter, height_item}
use neutron_query_relayer.TxFilter.Plain.{query_from_tx_filter_plain}
use neutron_query_relayer.Relayer.{
  Relayer, Requests, is_critical, initial_height, get_last_query_height, build_tx_query, process_tx,
  close_block, process_txs, stopped, finish, process_stream, process_message_tx, dispatch, stops,
  after_query, run_query, run,
}

module _ {W Float : Type 0} (r : Relayer W Float) (P : Error → Type 0) where
  abbrev pub Stop : Option Error → Type 0
  Stop none = Unit
  Stop (some e) = CriticalIs (λ _. ⊥) e

  -- The critical errors of the TXProcessor have the property, and the other parts have none.
  pub record Uncritical : Type 0 where
    pub process : (q : ℕ) (tx : Transaction) → Fails P (r.tx_processor.process_and_submit q tx)
    pub get_height : (q : ℕ) → Fails (λ _. ⊥) (r.storage.get_last_query_height q)
    pub set_height : (q h : ℕ) → Fails (λ _. ⊥) (r.storage.set_last_query_height q h)
    pub exists : (q : ℕ) (h : Bytes) → Fails (λ _. ⊥) (r.storage.tx_exists q h)
    pub latest : Fails (λ _. ⊥) r.query_latest_height
    pub filter : (s : Bytes) → Fails {W = W} (λ _. ⊥) (lift (r.unmarshal_filter s))
    pub search : (s : Bytes) → Fails (λ _. ⊥) (r.tx_querier.search_transactions s)
    pub stop :
        (s : Bytes) (w : W) (found : List Transaction × Option Error)
        → (r.tx_querier.search_transactions s w).0 ≡ ok found
        → Stop found.1

  module _ (u : Uncritical) where
    save_fails :
        (q h : ℕ)
        → Fails P (
            wrapping
              (codes "failed to save last height of query")
              (r.storage.set_last_query_height q h))
    save_fails q h = Fails-wrapping P _ _ (Fails-mono P _ (u.set_height q h))

    process_tx_fails : (q : ℕ) (tx : Transaction) → Fails P (process_tx r q tx)
    unfolding process_tx
    process_tx_fails q tx =
        Fails-bind P _ _ (Fails-wrapping P _ _ (Fails-mono P _ (u.exists q _))) (λ b.
          Fails-if P b _ _ (λ _. Fails-pure P tt) (λ _. Fails-wrapping P _ _ (u.process q tx)))

    process_txs_fails : (q last : ℕ) (txs : List Transaction) → Fails P (process_txs r q last txs)
    unfolding process_txs close_block
    process_txs_fails q last [] = Fails-pure P last
    process_txs_fails q last (tx ∷ txs) =
        Fails-bind P _ _
          (Fails-if P (ltb last tx.height && ltb 0 last) _ _ (λ _. save_fails q last)
            (λ _. Fails-pure P tt))
          (λ _. Fails-bind P _ _ (process_tx_fails q tx) (λ _. process_txs_fails q tx.height txs))

    stopped_fails : (stop : Option Error) → Stop stop → Fails P (stopped r stop)
    unfolding stopped
    stopped_fails none h = Fails-pure P tt
    stopped_fails (some e) h =
        Fails-mono P _ (Fails-raise (λ _. ⊥) (wrap (codes "failed to query txs") e) h)

    get_last_query_height_fails : (q : ℕ) → Fails P (get_last_query_height r q)
    unfolding get_last_query_height initial_height
    get_last_query_height_fails q =
        Fails-bind P _ _ (Fails-wrapping P _ _ (Fails-mono P _ (u.get_height q))) (λ stored.
          Fails-if P stored.1 _ _ (λ _. Fails-pure P stored.0)
            (λ _.
              Fails-bind P _ _
                (Fails-if P (r.initial_tx_search_offset == 0) _ _ (λ _. Fails-pure P 0)
                  (λ _.
                    Fails-bind P _ _ (Fails-wrapping P _ _ (Fails-mono P _ u.latest))
                      (λ latest. Fails-pure P _)))
                (λ height.
                  Fails-bind P _ _ (Fails-wrapping P _ _ (Fails-mono P _ (u.set_height q height)))
                    (λ _. Fails-pure P height))))

    build_tx_query_fails : (m : MessageTx) → Fails P (build_tx_query r m)
    unfolding build_tx_query
    build_tx_query_fails m =
        Fails-bind P _ _ (Fails-wrapping P _ _ (get_last_query_height_fails m.query_id)) (λ height.
          Fails-bind P _ _ (Fails-wrapping P _ _ (Fails-mono P _ (u.filter m.transactions_filter)))
            (λ params. Fails-wrapping P _ _ (
              Fails-mono P _ (
                Fails-lift (λ _. ⊥)
                  (query_from_tx_filter r.floats (params ++ height_item height ∷ []))
                  (query_from_tx_filter_plain r.floats (params ++ height_item height ∷ []))))))

    finish_fails : (q last : ℕ) → Fails P (finish r q last)
    unfolding finish
    finish_fails q last =
        Fails-if P (ltb 0 last) _ _ (λ _. save_fails q last) (λ _. Fails-pure P tt)

    process_message_tx_fails : (m : MessageTx) → Fails P (process_message_tx r m)
    unfolding process_message_tx process_stream
    process_message_tx_fails m =
        Fails-bind P _ _ (Fails-wrapping P _ _ (build_tx_query_fails m)) (λ query.
          Fails-bind_eq P _ _ (Fails-mono P _ (u.search query)) (λ w found e.
            Fails-bind P _ _ (process_txs_fails m.query_id 0 found.0) (λ last.
              Fails-bind P _ _ (stopped_fails found.1 (u.stop query w found e))
                (λ _. finish_fails m.query_id last))))

    -- What stops `Run` is critical, and about an error that has the property.
    abbrev pub Stops : Option Error → Type 0
    Stops none = Unit
    Stops (some e) = (is_critical e ≡ true) × CriticalIs P e

    abbrev pub Returns : Result (Unit {0}) → Type 0
    Returns (ok a) = Unit
    Returns (err e) = (is_critical e ≡ true) × CriticalIs P e

    after_query-Stops :
        (query : RegisteredQuery) (n : Requests) (res : Result (Unit {0})) (w : W)
        → (bytes_eq query.query_type (codes "kv") ≡ false
            → bytes_eq query.query_type (codes "tx") ≡ true
            → FailsAs P res)
        → Stops (after_query r query n (res, w)).0
    unfolding after_query stops
    after_query-Stops query n (ok a) w h = tt
    after_query-Stops query n (err e) w h = elim (Bool-cases (stops r query e)) [
      | inr goes_on ↦ rw goes_on tt
      | inl stop ↦ rw stop (ground arith, h (ground arith) (ground arith))
    ]

    dispatch_fails :
        (query : RegisteredQuery) (w : W)
        → bytes_eq query.query_type (codes "kv") ≡ false
        → bytes_eq query.query_type (codes "tx") ≡ true
        → FailsAs P (dispatch r query w).0
    unfolding dispatch
    dispatch_fails query w kv tx = rw (kv, tx) ((process_message_tx_fails _).at w)

    run_query-Stops : (query : RegisteredQuery) (s : W × Requests) → Stops (run_query r query s).0
    unfolding run_query
    run_query-Stops query (w, n) =
        after_query-Stops query n (dispatch r query w).0 (dispatch r query w).1
          (dispatch_fails query w)

    -- If only the TXProcessor returns critical errors, and those are about errors of some
    -- property: an error of `Run` is critical and about an error of that property.
    pub run-Returns :
        (queries : List RegisteredQuery) (s : W × Requests) → Returns (run r queries s).0
    unfolding run
    run-Returns [] s = tt
    run-Returns (query ∷ queries) s =
        next (run_query r query s).0 refl (run_query-Stops query s)
          (run-Returns queries (run_query r query s).1)
      where
        next :
            (o : Option Error)
            → (run_query r query s).0 ≡ o
            → Stops o
            → Returns (run r queries (run_query r query s).1).0
            → Returns (run r (query ∷ queries) s).0
        next none e h rest = rw (e, run) rest
        next (some x) e h rest = rw (e, run) h
