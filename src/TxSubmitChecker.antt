-- ===== src/TxSubmitChecker.antt =====
-- internal/txsubmitchecker/txsubmitchecker.go: turns submitted transactions into committed or
-- failed ones.
pub mod Statuses
use neutron_query_relayer.Prelude.{
  ℕ, ◌≡◌, Bool, Option, none, some, List, [], ◌∷◌, ◌++◌, Bytes, codes, ◌==◌, if◌then◌else◌,
}
use neutron_query_relayer.Errors.{Error, Result, ok, err, wrap}
use neutron_query_relayer.Exec.{Exec, pure, raise, lift, wrapping, attempt, ◌>>=◌, ◌>>◌}
use neutron_query_relayer.Hex.{decode_string}
use neutron_query_relayer.Strconv.{format_uint}
use neutron_query_relayer.Relay.{
  PendingSubmittedTxInfo, SubmittedTxInfo, committed, error_on_commit,
}
use neutron_query_relayer.Interfaces.{Storage}

-- What is read of coretypes.ResultTx.
pub record TxResult : Type 0 where
  pub code : ℕ
  pub log : Bytes

-- The storage, the RPC client's `Tx`, and `retry.Do`.
pub record TxSubmitChecker (W : Type 0) : Type 0 where
  pub storage : Storage W
  pub tx : Bytes → Exec W TxResult
  pub retry : Exec W TxResult → Exec W TxResult

-- abci.CodeTypeOK
abbrev pub code_type_ok : ℕ
code_type_ok = 0

-- the outcome that a result of the chain stands for
unfoldable pub outcome : TxResult → SubmittedTxInfo
outcome res =
    if res.code == code_type_ok then record { status = committed; message = [] } else record {
      status = error_on_commit;
      message = codes "Code: " ++ (format_uint res.code ++ (codes ", Log: " ++ res.log));
    }

module _ {W : Type 0} (tc : TxSubmitChecker W) where
  -- an error of the storage is logged and dropped
  pub update_tx_status : PendingSubmittedTxInfo → SubmittedTxInfo → Exec W (Unit {0})
  update_tx_status tx status = do
    attempt (tc.storage.set_tx_status tx.query_id tx.submitted_tx_hash tx.neutron_hash status none)
    pure tt

  pub retry_get_tx_status : Bytes → Exec W TxResult
  retry_get_tx_status neutron_hash = tc.retry (tc.tx neutron_hash)

  pub process_submitted_tx : PendingSubmittedTxInfo → Exec W (Unit {0})
  unfolding outcome retry_get_tx_status
  process_submitted_tx tx = do
    neutron_hash ← wrapping (codes "failed to DecodeString") (lift (decode_string tx.neutron_hash))
    tx_response ← wrapping (codes "failed to retryGetTxStatus") (retry_get_tx_status neutron_hash)
    update_tx_status tx (outcome tx_response)

  -- both loops of `Run` log an error of a transaction and go on
  pub process_all : List PendingSubmittedTxInfo → Exec W (Unit {0})
  process_all [] = pure tt
  process_all (tx ∷ txs) = do attempt (process_submitted_tx tx); process_all txs

  -- `Run`, over the tasks that the queue yields until the context is cancelled
  pub run : List PendingSubmittedTxInfo → Exec W (Unit {0})
  unfolding process_all
  run tasks = do
    pending ←
        wrapping (codes "failed to read pending txs from storage") tc.storage.get_all_pending_txs
    process_all pending
    process_all tasks
