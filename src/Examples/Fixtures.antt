-- ===== src/Examples/Fixtures.antt =====
-- A world of three facts, and a storage and a processor over it.
use neutron_query_relayer.Prelude.{
  ℕ, Bool, true, false, Option, none, some, List, [], ◌∷◌, Bytes, bytes_eq, codes, if◌then◌else◌,
}
use neutron_query_relayer.Errors.{Error, Result, ok, err, plain, wrap, critical, not_found}
use neutron_query_relayer.Exec.{Exec, pure, raise}
use neutron_query_relayer.Registry.{has_key}
use neutron_query_relayer.Relay.{Proof, Transaction, PendingSubmittedTxInfo, SubmittedTxInfo}
use neutron_query_relayer.Interfaces.{Storage, TxProcessor, TxQuerier, KvProcessor}

-- The data of the transactions that were processed, the saved height, and the statuses that were
-- recorded.
pub record World : Type 0 where
  pub done : List Bytes
  pub saved : Option ℕ
  pub statuses : List SubmittedTxInfo

abbrev pub initial : World
initial = record { done = []; saved = some 4; statuses = [] }

abbrev no_proof : Proof
no_proof = record { total = 0; index = 0; leaf_hash = []; aunts = [] }

abbrev pub transaction_at : ℕ → Bytes → Transaction
transaction_at height bytes = record {
  tx = record {
    inclusion_proof = no_proof;
    delivery_proof = no_proof;
    response = [];
    tx_data = bytes;
  };
  height = height;
}

abbrev pub a_pending : PendingSubmittedTxInfo
a_pending = record { query_id = 7; submitted_tx_hash = codes "aa"; neutron_hash = codes "0f" }

abbrev pub saved_height : Option ℕ → Result (ℕ × Bool)
saved_height none = ok (0, false)
saved_height (some h) = ok (h, true)

abbrev pub storage : Storage World
storage = record {
  get_all_pending_txs = pure (a_pending ∷ []);
  get_all_unsuccessful_txs = pure [];
  get_cached_tx = λ q hash w.
      (if bytes_eq hash (codes "aa") then ok (transaction_at 9 hash) else err not_found, w);
  get_last_query_height = λ q w. (saved_height w.saved, w);
  set_last_query_height = λ q h w. (ok tt, record w { saved = some h });
  set_tx_status = λ q hash nhash info t w. (ok tt, record w { statuses = info ∷ w.statuses });
  tx_exists = λ q hash w. (ok (has_key bytes_eq w.done hash), w);
}

abbrev pub record_done : Transaction → Exec World (Unit {0})
record_done tx w = (ok tt, record w { done = tx.tx.tx_data ∷ w.done })

abbrev pub bad : Error
bad = wrap (codes "failed to submit block") (critical (plain (codes "bad")))

-- a processor that fails on one transaction
abbrev pub tx_processor : TxProcessor World
tx_processor = record {
  process_and_submit =
      λ q tx. if bytes_eq tx.tx.tx_data (codes "bad") then raise bad else record_done tx;
}

abbrev pub kv_processor : KvProcessor World
kv_processor = record { process_and_submit = λ m. raise (plain (codes "too soon")) }

abbrev pub tx_querier : TxQuerier World
tx_querier = record {
  search_transactions =
      λ query. pure (transaction_at 5 (codes "one") ∷ transaction_at 6 (codes "bad") ∷ [], none);
}
