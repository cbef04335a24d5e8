-- ===== src/TxQuerier.antt =====
-- internal/txquerier/txquerier.go: finds transactions of the target chain and proves them.
pub mod Complete
pub mod Paging
pub mod Sending
use neutron_query_relayer.Prelude.{
  ℕ, ◌+◌, ◌*◌, Bool, Option, none, some, List, [], ◌∷◌, ◌++◌, Bytes, codes, leb, ◌==◌,
  if◌then◌else◌, length, get_elem?,
}
use neutron_query_relayer.Errors.{Error, Result, ok, err, plain, wrap, context, ◌>>=◌ as ◌>>=r◌}
use neutron_query_relayer.Exec.{Exec, pure, lift, wrapping, attempt, ◌>>=◌}
use neutron_query_relayer.Loop.{Step, more, done, loop}
use neutron_query_relayer.Relay.{Proof, TxValue, Transaction}

-- merkle.Proof of cometbft
pub record MerkleProof : Type 0 where
  pub total : ℕ
  pub index : ℕ
  pub leaf_hash : Bytes
  pub aunts : List Bytes

-- an element of ResultTxSearch.Txs, with the merkle proof of its inclusion
pub record FoundTx : Type 0 where
  pub height : ℕ
  pub index : ℕ
  pub tx : Bytes
  pub proof : MerkleProof

pub record SearchResult : Type 0 where
  pub txs : List FoundTx
  pub total_count : ℕ

-- relay.ChainClient, the merkle proof of a result among the results of its block, and whether the
-- `select` that sends a transaction takes `ctx.Done()`, which it may once the context is cancelled
pub record ChainClient (W : Type 0) : Type 0 where
  pub tx_search : Bytes → ℕ → ℕ → Exec W SearchResult
  pub block_results : ℕ → Exec W (List Bytes)
  pub prove_result : List Bytes → ℕ → MerkleProof
  pub takes_done : W → Bool

abbrev pub per_page : ℕ
per_page = 100

-- what the two channels carry when the producer has closed them: the transactions, and its error
abbrev pub Sent : Type 0
Sent = List Transaction × Option Error

unfoldable pub crypto_proof_from_merkle_proof : MerkleProof → Proof
crypto_proof_from_merkle_proof mp = record {
  total = mp.total;
  index = mp.index;
  leaf_hash = mp.leaf_hash;
  aunts = mp.aunts;
}

module _ {W : Type 0} (t : ChainClient W) where
  -- txsResults[txIndexInBlock], which ends the process when it is out of range
  nth_result : List Bytes → ℕ → Result Bytes
  nth_result txs_results idx = elim (get_elem? txs_results idx) [
    | none ↦ err (plain (codes "panic: index out of range"))
    | some r ↦ ok r
  ]

  pub proof_delivery : ℕ → ℕ → Exec W (Proof × Bytes)
  unfolding nth_result crypto_proof_from_merkle_proof
  proof_delivery block_height tx_index_in_block = do
    txs_results ←
        wrapping (codes "failed to fetch block results for height") (t.block_results block_height)
    tx_result ← lift (nth_result txs_results tx_index_in_block)
    pure (crypto_proof_from_merkle_proof (t.prove_result txs_results tx_index_in_block), tx_result)

  -- the transaction that is sent for a found one
  proven : FoundTx → Proof × Bytes → Transaction
  unfolding crypto_proof_from_merkle_proof
  proven tx (delivery_proof, delivery_result) = record {
    tx = record {
      inclusion_proof = crypto_proof_from_merkle_proof tx.proof;
      delivery_proof = delivery_proof;
      response = delivery_result;
      tx_data = tx.tx;
    };
    height = tx.height;
  }

  prove_one : FoundTx → Exec W Transaction
  unfolding proven proof_delivery
  prove_one tx = do
    delivery ←
        wrapping (codes "could not proof transaction with hash") (proof_delivery tx.height tx.index)
    pure (proven tx delivery)

  takes_done : Exec W Bool
  takes_done w = (ok (t.takes_done w), w)

  -- the loop over the transactions of a page: what was sent when it is through, or when the
  -- producer returns with an error or without one
  pub prove_all : List FoundTx → List Transaction → Exec W (Step (List Transaction) Sent)
  unfolding prove_one takes_done
  prove_all [] sent = pure (more sent)
  prove_all (tx ∷ txs) sent = do
    res ← attempt (prove_one tx)
    elim res [
      | ok transaction ↦ takes_done >>= λ is_done.
          let rest = prove_all txs (sent ++ transaction ∷ []) in
          if is_done then pure (done (sent, none)) else rest
      | err e ↦ pure (done (sent, some e))
    ]

  -- where the loop over the pages goes after a page
  next_page : ℕ → ℕ → Step (List Transaction) Sent → Step (ℕ × List Transaction) Sent
  next_page page total_count (done sent) = done sent
  next_page page total_count (more sent) =
      if leb total_count (page * per_page) then done (sent, none) else more (page + 1, sent)

  serve_page :
      ℕ → List Transaction → Result SearchResult → Exec W (Step (ℕ × List Transaction) Sent)
  unfolding prove_all next_page
  serve_page page sent (err e) =
      pure (done (sent, some (wrap (codes "could not query new transactions to proof") e)))
  serve_page page sent (ok search_result) =
      if length search_result.txs == 0
      then pure (done (sent, none))
      else prove_all search_result.txs sent >>= λ sent'.
          pure (next_page page search_result.total_count sent')

  search_page : Bytes → ℕ × List Transaction → Exec W (Step (ℕ × List Transaction) Sent)
  unfolding serve_page
  search_page query (page, sent) = do
    search_result ← attempt (t.tx_search query page per_page)
    serve_page page sent search_result

  -- the goroutine, the producer of both channels
  unfoldable pub search_transactions : ℕ → Bytes → Exec W (Option Sent)
  unfolding search_page loop
  search_transactions fuel query = loop (search_page query) fuel (1, [])
