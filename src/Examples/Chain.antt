-- ===== src/Examples/Chain.antt =====
-- A node that finds two transactions, for the tests.
use neutron_query_relayer.Prelude.{
  ℕ, ◌-◌, ◌*◌, ◌≡◌, false, List, [], ◌∷◌, codes, length, take, drop,
}
use neutron_query_relayer.Errors.{ok}
use neutron_query_relayer.Exec.{pure}
use neutron_query_relayer.TxQuerier.{ChainClient, MerkleProof, FoundTx, SearchResult}
use neutron_query_relayer.TxQuerier.Complete.{Serves}

abbrev merkle : MerkleProof
merkle = record { total = 1; index = 0; leaf_hash = codes "leaf"; aunts = [] }

abbrev pub found : FoundTx
found = record { height = 5; index = 0; tx = codes "one"; proof = merkle }

-- a transaction of the next block
abbrev later : FoundTx
later = record { height = 6; index = 0; tx = codes "two"; proof = merkle }

abbrev pub chain : List FoundTx
chain = found ∷ later ∷ []

-- a node with these two
abbrev pub client : (W : Type 0) → ChainClient W
client W = record {
  tx_search = λ query page limit.
      pure
        (record { txs = take limit (drop ((page - 1) * limit) chain); total_count = length chain });
  block_results = λ height. pure (codes "result" ∷ []);
  prove_result = λ results index. merkle;
  takes_done = λ w. false;
}

answer_lem :
    (xs : List FoundTx) (n : ℕ) (res : SearchResult)
    → ok (record { txs = xs; total_count = n }) ≡ ok res
    → (res.txs ≡ xs) × (res.total_count ≡ n)
answer_lem xs n res e = (cc, cc)

pub serves : (W : Type 0) → Serves (client W) (codes "tx.height>4") chain
serves W = record {
  page_of = λ page w res e. (answer_lem _ _ res e).0;
  counted = λ page limit w res e. (answer_lem _ _ res e).1;
}
