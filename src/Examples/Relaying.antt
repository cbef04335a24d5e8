-- ===== src/Examples/Relaying.antt =====
-- The relayer's theorems at a stream with a transaction that fails.
use neutron_query_relayer.Prelude.{
  ℕ, ◌≡◌, refl, Bool, true, false, Option, none, some, List, [], ◌∷◌, Bytes, bytes_eq,
  bytes_eq_refl, codes, if◌then◌else◌, arith,
}
use neutron_query_relayer.Errors.{Error, Result, ok, plain}
use neutron_query_relayer.Exec.{Exec, pure, raise}
use neutron_query_relayer.Fails.{FailsAs, Fails, Fails-if, Fails-raise}
use neutron_query_relayer.Registry.{has_key}
use neutron_query_relayer.Relay.{Transaction, RegisteredQuery}
use neutron_query_relayer.Relayer.{Relayer, Requests, process_stream, run}
use neutron_query_relayer.Relayer.Checkpoint.{Handling, Processed, process_stream-checkpoint}
use neutron_query_relayer.Relayer.Critical.{Uncritical, Returns, run-Returns}
use neutron_query_relayer.TxProcessor.{TxProcessor, process_and_submit}
use neutron_query_relayer.TxProcessor.Escalation
use neutron_query_relayer.TxProcessor.Escalation.{
  IsUnignored, process_and_submit_fails, process_and_submit-escalates,
}
use neutron_query_relayer.Examples.Fixtures.{
  World, initial, transaction_at, saved_height, storage, record_done, bad, tx_processor,
  kv_processor, tx_querier,
}

abbrev pub relayer : Relayer World ℕ
relayer = record {
  initial_tx_search_offset = 0;
  tx_querier = tx_querier;
  storage = storage;
  tx_processor = tx_processor;
  kv_processor = kv_processor;
  query_latest_height = pure 100;
  floats = record { to_uint64 = λ x. x };
  unmarshal_filter = λ s. ok [];
  tx_hash = λ x. x;
}

-- the storage of the world knows the transaction
abbrev pub Handled : Transaction → World → Type 0
Handled tx w = has_key bytes_eq w.done tx.tx.tx_data ≡ true

if_lem :
    (P : Result (Unit {0}) × World → Type 0) (b : Bool) (m n : Exec World (Unit {0})) (w : World)
    → P (m w)
    → P (n w)
    → P ((if b then m else n) w)
if_lem P true m n w h k = h
if_lem P false m n w h k = k

process_kept_lem :
    (tx : Transaction) (w : World) (u : Transaction)
    → Handled u w
    → Handled u (tx_processor.process_and_submit 7 tx w).1
unfolding has_key
process_kept_lem tx w u h =
    if_lem (λ r. Handled u r.1) (bytes_eq tx.tx.tx_data (codes "bad")) (raise bad) (record_done tx)
      w h (ground (arith, h))

process_handled_lem :
    (tx : Transaction) (w : World)
    → (tx_processor.process_and_submit 7 tx w).0 ≡ ok tt
    → Handled tx (tx_processor.process_and_submit 7 tx w).1
unfolding has_key
process_handled_lem tx w =
    if_lem (λ r. r.0 ≡ ok tt → Handled tx r.1) (bytes_eq tx.tx.tx_data (codes "bad")) (raise bad)
      (record_done tx) w (λ h. cc) (λ _. ground (arith, bytes_eq_refl tx.tx.tx_data))

pub handling : Handling relayer 7 Handled (λ w. w.saved)
handling = record {
  set_kept = λ h w u k. k;
  set_saved = λ h w _. refl;
  set_failed = λ h w e k. absurd (ground (arith, k));
  exists_kept = λ h w u k. k;
  exists_saved = λ h w. refl;
  exists_handled = λ tx w k. ground (arith, k);
  process_kept = process_kept_lem;
  process_saved = λ tx w.
      if_lem (λ r. r.1.saved ≡ w.saved) (bytes_eq tx.tx.tx_data (codes "bad")) (raise bad)
        (record_done tx) w refl refl;
  process_handled = process_handled_lem;
}

abbrev stream : List Transaction
stream =
    transaction_at 5 (codes "one")
    ∷ transaction_at 6 (codes "two")
    ∷ transaction_at 6 (codes "bad")
    ∷ transaction_at 8 (codes "four")
    ∷ []

process_stream-checkpoint_example :
    Processed relayer 7 handling stream
      (process_stream relayer 7 (stream, none) initial).0
      (process_stream relayer 7 (stream, none) initial).1
process_stream-checkpoint_example =
    process_stream-checkpoint relayer 7 handling stream none initial
      (
        (omega arith, (omega arith, (omega arith, tt))),
        ((omega arith, (omega arith, tt)), ((omega arith, tt), (tt, tt))),
      )
      (λ h e. ground (arith, e))

-- the run of that stream: the error comes at height 6, and 5 stays saved
process_stream_run : (process_stream relayer 7 (stream, none) initial).1.saved ≡ some 5
unfolding process_stream has_key bytes_eq
process_stream_run = refl

-- the processor's critical errors are about the bad transaction
abbrev IsBad : Error → Type 0
IsBad e = e ≡ plain (codes "bad")

process_fails : (q : ℕ) (tx : Transaction) → Fails IsBad (tx_processor.process_and_submit q tx)
process_fails q tx =
    Fails-if IsBad (bytes_eq tx.tx.tx_data (codes "bad")) (raise bad) (record_done tx)
      (λ _. Fails-raise IsBad bad refl) (λ _. record { at = λ w. tt })

saved_plain : (o : Option ℕ) → FailsAs (λ _. ⊥) (saved_height o)
saved_plain none = tt
saved_plain (some h) = tt

abbrev uncritical : Uncritical relayer IsBad
uncritical = record {
  process = process_fails;
  get_height = λ q. record { at = λ w. saved_plain w.saved };
  set_height = λ q h. record { at = λ w. tt };
  exists = λ q h. record { at = λ w. tt };
  latest = record { at = λ w. tt };
  filter = λ s. record { at = λ w. tt };
  search = λ s. record { at = λ w. tt };
  stop = λ s w found e. ground (arith, e);
}

abbrev query_of : Bytes → RegisteredQuery
query_of query_type = record {
  id = 7;
  owner = [];
  query_type = query_type;
  keys = [];
  transactions_filter = [];
  connection_id = [];
  update_period = 10;
  last_submitted_result_local_height = 0;
  remote_revision_number = 0;
  remote_revision_height = 0;
}

abbrev queries : List RegisteredQuery
queries = query_of (codes "kv") ∷ query_of (codes "tx") ∷ query_of (codes "kv") ∷ []

abbrev no_requests : Requests
no_requests = record { failed = 0; succeeded = 0 }

run-Returns_example :
    Returns relayer IsBad uncritical (run relayer queries (initial, no_requests)).0
run-Returns_example = run-Returns relayer IsBad uncritical queries (initial, no_requests)

-- a TXProcessor whose submissions fail
abbrev processor : TxProcessor World ℕ ℕ
processor = record {
  fetch = λ h. pure h;
  storage = storage;
  submit_tx_proof = λ q block. raise (plain (codes "out of gas"));
  ignore_errors = λ message. bytes_eq message (codes "duplicate");
  pack_client_message = λ header. ok header;
  tx_hash = λ x. x;
  spawn = λ info w. w;
}

abbrev processor_uncritical : Escalation.Uncritical processor
processor_uncritical = record {
  fetch_plain = λ h. record { at = λ w. tt };
  pack_plain = λ h. record { at = λ w. tt };
  status_plain = λ q h n i t. record { at = λ w. tt };
}

process_and_submit_fails_example :
    Fails
      (IsUnignored processor 7 (transaction_at 5 (codes "one")))
      (process_and_submit processor 7 (transaction_at 5 (codes "one")))
process_and_submit_fails_example =
    process_and_submit_fails processor processor_uncritical 7 (transaction_at 5 (codes "one"))
