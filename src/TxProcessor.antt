-- ===== src/TxProcessor.antt =====
-- internal/txprocessor/txprocessor.go: proves a transaction of the target chain to Neutron.
pub mod Escalation
use neutron_query_relayer.Prelude.{
  ℕ, ◌+◌, ◌%◌, Bool, not, Option, none, some, List, [], ◌∷◌, ◌++◌, Bytes, codes, if◌then◌else◌, u64,
}
use neutron_query_relayer.Errors.{Error, Result, ok, err, wrap, critical, message}
use neutron_query_relayer.Exec.{Exec, pure, raise, lift, wrapping, attempt, ◌>>=◌, ◌>>◌}
use neutron_query_relayer.Relay.{
  Transaction, TxValue, PendingSubmittedTxInfo, SubmittedTxInfo, submitted, error_on_submit,
}
use neutron_query_relayer.Interfaces.{Storage}
use neutron_query_relayer.Interfaces

-- neutrontypes.Block; `Any` is a packed header
pub record Block (Any : Type 0) : Type 0 where
  pub header : Any
  pub next_block_header : Any
  pub tx : TxValue

-- The fields of the struct that its methods use, with what they call of other code: the packing
-- of a header and the hex print of a transaction's hash. `spawn` is the `go` statement that starts
-- a delayed check. A submission that fails returns no hash.
pub record TxProcessor (W Header Any : Type 0) : Type 0 where
  pub fetch : ℕ → Exec W Header
  pub storage : Storage W
  pub submit_tx_proof : ℕ → Block Any → Exec W Bytes
  pub ignore_errors : Bytes → Bool
  pub pack_client_message : Header → Result Any
  pub tx_hash : Bytes → Bytes
  pub spawn : PendingSubmittedTxInfo → W → W

-- What ends the wait of a delayed check.
pub data Wake : Type 0 where
  timer : Wake
  context_done : Wake

-- the queue of tasks for the TxSubmitChecker
unfoldable pub delayed_tx_status_check :
    Wake → PendingSubmittedTxInfo → List PendingSubmittedTxInfo → List PendingSubmittedTxInfo
delayed_tx_status_check timer tx queue =
    queue
    ++ record {
      query_id = tx.query_id;
      submitted_tx_hash = tx.submitted_tx_hash;
      neutron_hash = tx.neutron_hash;
    }
      ∷ []
delayed_tx_status_check context_done tx queue = queue

module _ {W Header Any : Type 0} (r : TxProcessor W Header Any) where
  pub get_trusted_header : ℕ → Exec W Any
  get_trusted_header height = do
    header ← wrapping (codes "failed to get header with trusted height") (r.fetch height)
    wrapping (codes "failed to pack header") (lift (r.pack_client_message header))

  pub prepare_headers : Transaction → Exec W (Any × Any)
  unfolding get_trusted_header
  prepare_headers tx_struct = do
    packed_header ←
        wrapping (codes "failed to get header with trusted height")
          (get_trusted_header tx_struct.height)
    packed_next_header ←
        wrapping (codes "failed to get next header with trusted height")
          (get_trusted_header ((tx_struct.height + 1) % u64))
    pure (packed_header, packed_next_header)

  unfoldable pub tx_to_block : Transaction → Exec W (Block Any)
  unfolding prepare_headers
  tx_to_block tx = do
    headers ← wrapping (codes "failed to prepare headers") (prepare_headers tx)
    pure (record { header = headers.0; next_block_header = headers.1; tx = tx.tx })

  go : PendingSubmittedTxInfo → Exec W (Unit {0})
  go info w = (ok tt, r.spawn info w)

  pub process_successful_tx_submission : ℕ → Bytes → Bytes → Transaction → Exec W (Unit {0})
  unfolding go
  process_successful_tx_submission query_id hash neutron_tx_hash tx = do
    wrapping (codes "failed to store tx submit status") (
        r.storage.set_tx_status query_id hash neutron_tx_hash
          (record { status = submitted; message = [] }) (some tx))
    go (record { query_id = query_id; submitted_tx_hash = hash; neutron_hash = neutron_tx_hash })

  pub process_failed_tx_submission : Error → ℕ → Bytes → Bytes → Transaction → Exec W (Unit {0})
  process_failed_tx_submission e query_id hash neutron_tx_hash tx =
      if not (r.ignore_errors (message e))
      then raise (critical e)
      else wrapping (codes "failed to store tx submit status") (
          r.storage.set_tx_status query_id hash neutron_tx_hash
            (record { status = error_on_submit; message = message e }) (some tx))

  pub after_submission : ℕ → Bytes → Transaction → Result Bytes → Exec W (Unit {0})
  after_submission query_id hash tx (ok neutron_tx_hash) =
      process_successful_tx_submission query_id hash neutron_tx_hash tx
  after_submission query_id hash tx (err e) = process_failed_tx_submission e query_id hash [] tx

  pub submit_tx_with_proofs : ℕ → ℕ → Block Any → Exec W (Unit {0})
  unfolding after_submission process_successful_tx_submission process_failed_tx_submission
  submit_tx_with_proofs query_id tx_height block = do
    result ← attempt (r.submit_tx_proof query_id block)
    after_submission query_id (r.tx_hash block.tx.tx_data)
        (record { tx = block.tx; height = tx_height }) result

  pub process_and_submit : ℕ → Transaction → Exec W (Unit {0})
  unfolding tx_to_block prepare_headers get_trusted_header submit_tx_with_proofs
  process_and_submit query_id tx = do
    block ← wrapping (codes "failed to prepare block") (tx_to_block tx)
    wrapping (codes "failed to submit block") (submit_tx_with_proofs query_id tx.height block)

  -- the struct as the interface that its clients use
  abbrev pub tx_processor : Interfaces.TxProcessor W
  tx_processor = record { process_and_submit = process_and_submit }
