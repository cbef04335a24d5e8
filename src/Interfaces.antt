-- ===== src/Interfaces.antt =====
-- The Go interfaces by which the parts use one another (internal/relay), over the state `W` of
-- the process and of everything that it talks to.
use neutron_query_relayer.Prelude.{ℕ, Bool, Option, List, Bytes}
use neutron_query_relayer.Errors.{Error}
use neutron_query_relayer.Exec.{Exec}
use neutron_query_relayer.Relay.{
  Transaction, PendingSubmittedTxInfo, SubmittedTxInfo, UnsuccessfulTxInfo, MessageKv,
}

-- relay.Storage
pub record Storage (W : Type 0) : Type 0 where
  pub get_all_pending_txs : Exec W (List PendingSubmittedTxInfo)
  pub get_all_unsuccessful_txs : Exec W (List UnsuccessfulTxInfo)
  pub get_cached_tx : ℕ → Bytes → Exec W Transaction
  pub get_last_query_height : ℕ → Exec W (ℕ × Bool)
  pub set_last_query_height : ℕ → ℕ → Exec W (Unit {0})
  pub set_tx_status : ℕ → Bytes → Bytes → SubmittedTxInfo → Option Transaction → Exec W (Unit {0})
  pub tx_exists : ℕ → Bytes → Exec W Bool

-- relay.TXQuerier: what the channel of transactions yields until it is closed, and the error
-- that the channel of errors then holds. The searches that the producer makes ahead of the
-- consumer touch nothing of the relayer's state.
pub record TxQuerier (W : Type 0) : Type 0 where
  pub search_transactions : Bytes → Exec W (List Transaction × Option Error)

-- relay.TXProcessor and relay.KVProcessor
pub record TxProcessor (W : Type 0) : Type 0 where
  pub process_and_submit : ℕ → Transaction → Exec W (Unit {0})

pub record KvProcessor (W : Type 0) : Type 0 where
  pub process_and_submit : MessageKv → Exec W (Unit {0})
