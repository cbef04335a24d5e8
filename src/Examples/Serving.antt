-- ===== src/Examples/Serving.antt =====
-- The theorems on the web server and on the checker, at requests.
use neutron_query_relayer.Prelude.{◌≡◌, refl, [], ◌∷◌, bytes_eq, codes}
use neutron_query_relayer.Errors.{ok}
use neutron_query_relayer.Exec.{pure}
use neutron_query_relayer.Webserver.{Server, ResubmitRequest, resubmit_failed_txs}
use neutron_query_relayer.Webserver.Resubmission.{Told, resubmit_failed_txs-Told}
use neutron_query_relayer.TxSubmitChecker.{TxSubmitChecker, process_submitted_tx}
use neutron_query_relayer.TxSubmitChecker.Statuses.{Resolved, process_submitted_tx-Resolved}
use neutron_query_relayer.Examples.Fixtures.{World, initial, a_pending, storage, tx_processor}

abbrev request : ResubmitRequest
request = record {
  txs =
      record { query_id = 7; hash = codes "aa" } ∷ record { query_id = 7; hash = codes "bb" } ∷ [];
}

abbrev server : Server World
server = record {
  storage = storage;
  tx_processor = tx_processor;
  decode_request = λ body. ok request;
  encode_txs = λ txs. ok [];
}

resubmit_failed_txs-Told_example :
    Told server request.txs initial (resubmit_failed_txs server [] initial)
resubmit_failed_txs-Told_example = resubmit_failed_txs-Told server [] request initial refl

-- the same request, run: its second transaction is not in the storage
resubmit_run : (resubmit_failed_txs server [] initial).0.status_code ≡ 400
unfolding resubmit_failed_txs bytes_eq
resubmit_run = refl

abbrev checker : TxSubmitChecker World
checker = record {
  storage = storage;
  tx = λ hash. pure (record { code = 0; log = [] });
  retry = λ m. m;
}

process_submitted_tx-Resolved_example :
    Resolved checker a_pending initial
      (process_submitted_tx checker a_pending initial).0
      (process_submitted_tx checker a_pending initial).1
process_submitted_tx-Resolved_example = process_submitted_tx-Resolved checker a_pending initial
