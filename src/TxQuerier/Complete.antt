-- ===== src/TxQuerier/Complete.antt =====
-- SearchTransactions (internal/txquerier/txquerier.go): which transactions are sent, and in which
-- order.
use mathlib.Core.Path.{subst}
use neutron_query_relayer.Prelude.{
  ℕ, suc, ◌+◌, ◌-◌, ◌*◌, ◌<◌, ◌≤◌, ◌≡◌, ◌≢◌, ◌∙◌, sym, ap, ◌⊎◌, inl, inr, refl, true, false, Option,
  none, some, List, [], ◌∷◌, ◌++◌, append_assoc, append-nil, Bytes, leb, ◌==◌, arith, Bool-cases,
  length, length-append, take, drop, take-drop, drop-append, length-take, drop-nil,
}
use neutron_query_relayer.Errors.{Result, ok, err}
use neutron_query_relayer.Exec.{pure, bind_rule}
use neutron_query_relayer.Loop.{Step, more, done, loop_rule}
use neutron_query_relayer.Relay.{Transaction}
use neutron_query_relayer.TxQuerier.{
  ChainClient, FoundTx, SearchResult, Sent, per_page, prove_all, next_page, serve_page, search_page,
  search_transactions,
}
use neutron_query_relayer.TxQuerier.Paging.{search_transactions-returns}
use neutron_query_relayer.TxQuerier.Sending.{
  Sends, SendsFirst, IsCancelled, Proved, prove_all-Proved,
}

-- What the node's answers to a query are: the pages of one list of transactions, with its length.
pub record Serves {W : Type 0} (t : ChainClient W) (query : Bytes) (all : List FoundTx)
    : Type 0 where
  pub page_of :
      (page : ℕ) (w : W) (res : SearchResult)
      → (t.tx_search query page per_page w).0 ≡ ok res
      → res.txs ≡ take per_page (drop ((page - 1) * per_page) all)
  pub counted :
      (page limit : ℕ) (w : W) (res : SearchResult)
      → (t.tx_search query page limit w).0 ≡ ok res
      → res.total_count ≡ length all

module _ {W : Type 0} (t : ChainClient W) where
  -- All the transactions are sent, or, with an error or when a send took `ctx.Done()`, the first
  -- ones.
  abbrev pub Complete : List FoundTx → Sent → Type 0
  Complete all (sent, none) = Sends all sent ⊎ (IsCancelled t × SendsFirst t all sent)
  Complete all (sent, some e) = SendsFirst t all sent

  module _ (query : Bytes) (all : List FoundTx) where
    -- before a page: the transactions of the pages before it were sent
    abbrev Reached : ℕ × List Transaction → Type 0
    Reached (page, sent) =
        (n : ℕ) × (before : List FoundTx) × (rest : List FoundTx) × (page ≡ n + 1)
        × (all ≡ before ++ rest)
        × (length before ≡ n * per_page)
        × Sends before sent

    abbrev After : Result (Step (ℕ × List Transaction) Sent) → Type 0
    After (err e) = ⊥
    After (ok (more s)) = Reached s
    After (ok (done r)) = Complete all r

    -- the lists of a page that is not the last one
    split_page :
        (before rest : List FoundTx)
        → all ≡ before ++ rest
        → all ≡ (before ++ take per_page rest) ++ drop per_page rest
    split_page before rest a =
        a
        ∙ ap (λ fs. before ++ fs) (take-drop per_page rest)
        ∙ sym (append_assoc before (take per_page rest) (drop per_page rest))

    length_all :
        (n : ℕ) (before rest : List FoundTx)
        → all ≡ before ++ rest
        → length before ≡ n * per_page
        → length all ≡ n * per_page + length rest
    length_all n before rest a l = ap length a ∙ omega (arith, length-append before rest, l)

    rest_lem :
        (n total : ℕ) (before rest : List FoundTx)
        → all ≡ before ++ rest
        → length before ≡ n * per_page
        → total ≡ length all
        → leb total ((n + 1) * per_page) ≡ true
        → length rest ≤ per_page
    rest_lem n total before rest a l c e = ground (arith, length_all n before rest a l, c, e)

    left_lem :
        (n total : ℕ) (before rest : List FoundTx)
        → all ≡ before ++ rest
        → length before ≡ n * per_page
        → total ≡ length all
        → leb total ((n + 1) * per_page) ≡ false
        → per_page < length rest
    left_lem n total before rest a l c e = ground (arith, length_all n before rest a l, c, e)

    last_page :
        (n : ℕ) (before rest : List FoundTx)
        → all ≡ before ++ rest
        → length rest ≤ per_page
        → all ≡ before ++ take per_page rest
    last_page n before rest a h =
        split_page before rest a
        ∙ ap (λ fs. (before ++ take per_page rest) ++ fs) (drop-nil per_page rest h)
        ∙ append-nil (before ++ take per_page rest)

    length_page :
        (n : ℕ) (before rest : List FoundTx)
        → length before ≡ n * per_page
        → per_page < length rest
        → length (before ++ take per_page rest) ≡ (n + 1) * per_page
    length_page n before rest l h =
        omega (arith, length-append before (take per_page rest), length-take per_page rest h, l)

    -- the first ones of a page, and with it of the whole list
    first_of_all :
        (before rest : List FoundTx) (sent : List Transaction)
        → all ≡ before ++ rest
        → SendsFirst t (before ++ take per_page rest) sent
        → SendsFirst t all sent
    first_of_all before rest sent a (first, others, q, h) = (
      first,
      others ++ drop per_page rest,
      split_page before rest a
          ∙ ap (λ fs. fs ++ drop per_page rest) q
          ∙ append_assoc first others (drop per_page rest),
      h,
    )

    next_page-After :
        (n total : ℕ) (before rest : List FoundTx) (sent : Step (List Transaction) Sent)
        → all ≡ before ++ rest
        → length before ≡ n * per_page
        → total ≡ length all
        → Proved t before (take per_page rest) (ok sent)
        → After (ok (next_page t (n + 1) total sent))
    unfolding next_page
    next_page-After n total before rest (done (sent, some e)) a l c h =
        first_of_all before rest sent a h
    next_page-After n total before rest (done (sent, none)) a l c (d, h) =
        inr (d, first_of_all before rest sent a h)
    next_page-After n total before rest (more sent) a l c h =
        elim (Bool-cases (leb total ((n + 1) * per_page))) [
          | inl e ↦ rw e (
              inl (
                subst (λ fs. Sends fs sent)
                  (sym (last_page n before rest a (rest_lem n total before rest a l c e))) h))
          | inr e ↦ rw e (
            n + 1,
            before ++ take per_page rest,
            drop per_page rest,
            refl,
            split_page before rest a,
            length_page n before rest l (left_lem n total before rest a l c e),
            h,
          )
        ]

    -- what an answer of the node is, from the state before its page
    abbrev Answer : ℕ → Result SearchResult → Type 0
    Answer n (err e) = Unit
    Answer n (ok res) =
        (res.txs ≡ take per_page (drop (n * per_page) all)) × (res.total_count ≡ length all)

    rest_page :
        (n : ℕ) (before rest : List FoundTx)
        → all ≡ before ++ rest
        → length before ≡ n * per_page
        → drop (n * per_page) all ≡ rest
    rest_page n before rest a l =
        ap (λ k. drop k all) (sym l) ∙ ap (drop (length before)) a ∙ drop-append before rest

    -- a page without transactions has nothing behind it
    no_rest : (n : ℕ) (xs : List FoundTx) → length (take (suc n) xs) ≡ 0 → xs ≡ []
    no_rest n [] h = refl
    no_rest n (x ∷ xs) h = absurd (omega (arith, h))

    nothing_left : (before rest : List FoundTx) → all ≡ before ++ rest → rest ≡ [] → all ≡ before
    nothing_left before rest a r = a ∙ ap (λ fs. before ++ fs) r ∙ append-nil before

    serve_page-After :
        (n : ℕ) (before rest : List FoundTx) (sent : List Transaction) (r : Result SearchResult)
        (w : W)
        → all ≡ before ++ rest
        → length before ≡ n * per_page
        → Sends before sent
        → Answer n r
        → After (serve_page t (n + 1) sent r w).0
    unfolding serve_page
    serve_page-After n before rest sent (err e) w a l h k = (before, rest, a, h)
    serve_page-After n before rest sent (ok res) w a l h (x, c) =
        let page = x ∙ ap (take per_page) (rest_page n before rest a l) in
        elim (Bool-cases (length res.txs == 0)) [
          | inl e ↦ rw e (
              inl (
                subst (λ fs. Sends fs sent)
                  (sym (
                    nothing_left before rest a
                      (no_rest 99 rest (ap length (sym page) ∙ ground (arith, e)))))
                  h))
          | inr e ↦ rw e (
              bind_rule (λ r _. After r) (prove_all t res.txs sent)
                (λ sent'. pure (next_page t (n + 1) res.total_count sent')) w
                (λ sent' p. next_page-After n res.total_count before rest sent' a l c (
                  subst (λ fs. Proved t before fs (ok sent')) page
                    (subst (Proved t before res.txs) p
                      (prove_all-Proved t before res.txs sent w h))))
                (λ x p.
                  subst (Proved t before res.txs) p (prove_all-Proved t before res.txs sent w h)))
        ]

    module _ (law : Serves t query all) where
      tx_search-Answer : (n : ℕ) (w : W) → Answer n (t.tx_search query (n + 1) per_page w).0
      tx_search-Answer n w = answered ((t.tx_search query (n + 1) per_page w).0) (λ res e. (
        law.page_of (n + 1) w res e
            ∙ ap (λ k. take per_page (drop (k * per_page) all)) (omega arith),
        law.counted (n + 1) per_page w res e,
      ))
        where
          answered :
              (r : Result SearchResult)
              → ((res : SearchResult) → r ≡ ok res → Answer n (ok res))
              → Answer n r
          answered (err e) k = tt
          answered (ok res) k = k res refl

      search_page-After :
          (s : ℕ × List Transaction) (w : W) → Reached s → After (search_page t query s w).0
      unfolding search_page
      search_page-After (page, sent) w (n, before, rest, q, a, l, h) =
          subst (λ k. After (search_page t query (k, sent) w).0) (sym q)
            (serve_page-After n before rest sent (t.tx_search query (n + 1) per_page w).0
              (t.tx_search query (n + 1) per_page w).1 a l h (tx_search-Answer n w))

      abbrev Ended : Result (Option Sent) → Type 0
      Ended (err e) = ⊥
      Ended (ok none) = Unit
      Ended (ok (some sent)) = Complete all sent

      search_transactions-Ended : (fuel : ℕ) (w : W) → Ended (search_transactions t fuel query w).0
      unfolding search_transactions
      search_transactions-Ended fuel w =
          loop_rule (search_page t query) (λ s _. Reached s) (λ r _. Ended r)
            (λ s w s' h e. subst After e (search_page-After s w h))
            (λ s w r h e. subst After e (search_page-After s w h))
            (λ s w e h q. subst After q (search_page-After s w h)) (λ s w h. tt) fuel (1, []) w
            (0, [], all, refl, refl, refl, tt)

      result_lem :
          (r : Result (Option Sent))
          → Ended r
          → r ≢ ok none
          → (sent : Sent) × (r ≡ ok (some sent)) × Complete all sent
      result_lem (err e) h n = absurd h
      result_lem (ok none) h n = absurd (n refl)
      result_lem (ok (some sent)) h n = (sent, refl, h)

      -- If the node's answers to the query are the pages of one list of transactions, each with
      -- the length of the list, and the fuel is greater than that length: the search ends, and it
      -- has sent one transaction for each of the list in its order, with its data, its height and
      -- its proof of inclusion; or, with an error, one for each of the first ones; or, without an
      -- error, one for each of the first ones, where a send took the end of the context.
      pub search_transactions-Complete :
          (fuel : ℕ) (w : W)
          → length all < fuel
          → (sent : Sent) × ((search_transactions t fuel query w).0 ≡ ok (some sent))
            × Complete all sent
      search_transactions-Complete fuel w h = result_lem _ (search_transactions-Ended fuel w) (
          search_transactions-returns t query (length all)
            (record {
              total = λ page limit w' res e. omega (arith, law.counted page limit w' res e);
            })
            fuel w h)
