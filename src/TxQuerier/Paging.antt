-- ===== src/TxQuerier/Paging.antt =====
-- The loop over the pages of SearchTransactions (internal/txquerier/txquerier.go).
use mathlib.Core.Path.{subst}
use neutron_query_relayer.Prelude.{
  ℕ, ◌+◌, ◌-◌, ◌*◌, ◌<◌, ◌≤◌, ◌≡◌, ◌≢◌, inl, inr, refl, none, List, [], Bytes, leb, ◌==◌, arith,
  Bool-cases, length,
}
use neutron_query_relayer.Errors.{Result, ok, err}
use neutron_query_relayer.Exec.{pure, bind_rule}
use neutron_query_relayer.Loop.{Step, more, done, loop-returns}
use neutron_query_relayer.Relay.{Transaction}
use neutron_query_relayer.TxQuerier.{
  ChainClient, SearchResult, Sent, per_page, prove_all, next_page, serve_page, search_page,
  search_transactions,
}

-- No answer of the node to the query counts more transactions than the bound.
pub record CountsAtMost {W : Type 0} (t : ChainClient W) (query : Bytes) (bound : ℕ) : Type 0 where
  pub total :
      (page limit : ℕ) (w : W) (res : SearchResult)
      → (t.tx_search query page limit w).0 ≡ ok res
      → res.total_count ≤ bound

module _ {W : Type 0} (t : ChainClient W) (query : Bytes) (bound : ℕ)
    (counts : CountsAtMost t query bound) where
  -- the loop only goes on to the next page, while transactions are left
  abbrev Next : ℕ → Result (Step (ℕ × List Transaction) Sent) → Type 0
  Next page (ok (more s)) = (s.0 ≡ page + 1) × (page * per_page < bound)
  Next page (ok (done r)) = Unit
  Next page (err e) = Unit

  next_page-Next :
      (page total : ℕ) (sent : Step (List Transaction) Sent)
      → total ≤ bound
      → Next page (ok (next_page t page total sent))
  unfolding next_page
  next_page-Next page total (done sent) h = tt
  next_page-Next page total (more sent) h = elim (Bool-cases (leb total (page * per_page))) [
    | inl e ↦ rw e tt
    | inr n ↦ rw n (refl, ground (arith, h, n))
  ]

  serve_page-Next :
      (page : ℕ) (sent : List Transaction) (r : Result SearchResult) (w : W)
      → ((res : SearchResult) → r ≡ ok res → res.total_count ≤ bound)
      → Next page (serve_page t page sent r w).0
  unfolding serve_page
  serve_page-Next page sent (err e) w h = tt
  serve_page-Next page sent (ok res) w h = elim (Bool-cases (length res.txs == 0)) [
    | inl e ↦ rw e tt
    | inr n ↦ rw n (
        bind_rule (λ r _. Next page r) (prove_all t res.txs sent)
          (λ sent'. pure (next_page t page res.total_count sent')) w
          (λ sent' _. next_page-Next page res.total_count sent' (h res refl)) (λ x _. tt))
  ]

  search_page-Next : (s : ℕ × List Transaction) (w : W) → Next s.0 (search_page t query s w).0
  unfolding search_page
  search_page-Next (page, sent) w =
      serve_page-Next page sent (t.tx_search query page per_page w).0 _
        (λ res e. counts.total page per_page w res e)

  lowers :
      (page : ℕ) (s' : ℕ × List Transaction)
      → Next page (ok (more s'))
      → bound - s'.0 * per_page < bound - page * per_page
  lowers page s' h = omega (arith, h.0, h.1)

  -- When no answer of the node counts more transactions than a bound, the search ends on any fuel
  -- above the bound.
  pub search_transactions-returns :
      (fuel : ℕ) (w : W) → bound < fuel → (search_transactions t fuel query w).0 ≢ ok none
  unfolding search_transactions
  search_transactions-returns fuel w h =
      loop-returns (search_page t query) (λ s. bound - s.0 * per_page)
        (λ s w' s' e. lowers s.0 s' (subst (Next s.0) e (search_page-Next s w'))) fuel (1, []) w
        (omega (arith, h))
