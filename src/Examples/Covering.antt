-- ===== src/Examples/Covering.antt =====
-- A search and the processing of what it finds, at a node with two transactions.
use neutron_query_relayer.Prelude.{
  ◌≡◌, refl, some, List, [], ◌∷◌, codes, length, ◌==◌, bytes_eq, arith,
}
use neutron_query_relayer.Errors.{ok}
use neutron_query_relayer.Exec.{pure}
use neutron_query_relayer.Registry.{has_key}
use neutron_query_relayer.TxQuerier.{ChainClient, FoundTx, Sent, search_transactions}
use neutron_query_relayer.Relayer.{process_stream}
use neutron_query_relayer.Relayer.Coverage.{Covered, search_transactions-Covered}
use neutron_query_relayer.Examples.Fixtures.{World, initial}
use neutron_query_relayer.Examples.Chain.{chain, found, client, serves}
use neutron_query_relayer.Examples.Relaying.{relayer, handling}

search_transactions-Covered_example :
    (sent : Sent) × ((search_transactions (client World) 3 (codes "tx.height>4") initial).0
      ≡ ok (some sent))
    × Covered relayer 7 handling chain
        (process_stream relayer 7 sent
          (search_transactions (client World) 3 (codes "tx.height>4") initial).1).0
        (process_stream relayer 7 sent
          (search_transactions (client World) 3 (codes "tx.height>4") initial).1).1
unfolding search_transactions
search_transactions-Covered_example =
    search_transactions-Covered relayer 7 handling (client World) (codes "tx.height>4") chain 3
      initial (serves World) (record { goes_on = λ w. refl }) (omega arith)
      ((omega arith, tt), (tt, tt)) ((λ h e. ground (arith, e)), ((λ h e. ground (arith, e)), tt))

-- two transactions of one block, with the context cancelled after the first one was sent
abbrev one_block : List FoundTx
one_block = found ∷ record found { tx = codes "two"; index = 1 } ∷ []

abbrev cancelled_client : ChainClient World
cancelled_client = record (client World) {
  tx_search = λ query page limit. pure (record { txs = one_block; total_count = 2 });
  block_results = λ height w.
      (ok (codes "result" ∷ codes "result" ∷ []), record w { done = codes "asked" ∷ w.done });
  takes_done = λ w. length w.done == 2;
}

-- the search sends the first one and has no error, and the height of their block is saved
cancelled_run :
    (stream : Sent) × ((search_transactions cancelled_client 3 (codes "tx.height>4") initial).0
      ≡ ok (some stream))
    × (process_stream relayer 7 stream initial).1.saved ≡ some 5
unfolding search_transactions process_stream has_key bytes_eq
cancelled_run = (_, refl, refl)
