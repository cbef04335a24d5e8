-- ===== src/Examples/Querying.antt =====
-- The theorems on what is asked of the target chain, at small chains.
use mathlib.Core.Path.{subst}
use neutron_query_relayer.Prelude.{
  ℕ, ◌+◌, ◌<◌, ◌≡◌, ◌≢◌, refl, true, false, none, some, [], ◌∷◌, Bytes, bytes_eq, codes,
  if◌then◌else◌, arith,
}
use neutron_query_relayer.Errors.{ok}
use neutron_query_relayer.Exec.{pure}
use neutron_query_relayer.Relay.{MessageKv}
use neutron_query_relayer.TxQuerier.{Sent, search_transactions}
use neutron_query_relayer.TxQuerier.Complete.{Complete, search_transactions-Complete}
use neutron_query_relayer.TrustedHeaders.{TrustedHeaderFetcher, Page, get_trusted_height, fetch}
use neutron_query_relayer.TrustedHeaders.Paging.{Advances, get_trusted_height-returns}
use neutron_query_relayer.TrustedHeaders.Suitable.{Verifiable, fetch-Verifiable}
use neutron_query_relayer.KvProcessor.{KvProcessor, is_query_on_time, process_and_submit}
use neutron_query_relayer.KvProcessor.Period.{OnTime, is_query_on_time-OnTime}
use neutron_query_relayer.KvProcessor.Submission.{Submitted, process_and_submit-Submitted}
use neutron_query_relayer.Examples.Chain.{chain, client, serves}
use neutron_query_relayer.Examples.Fixtures.{World, initial, storage}

search_transactions-Complete_example :
    (sent : Sent) × ((search_transactions (client ℕ) 3 (codes "tx.height>4") 0).0 ≡ ok (some sent))
    × Complete (client ℕ) chain sent
search_transactions-Complete_example =
    search_transactions-Complete (client ℕ) (codes "tx.height>4") chain (serves ℕ) 3 0 (omega arith)

-- two pages of consensus states: one that is too high, and then one that is right
abbrev pages : Bytes → Page
pages key =
    if bytes_eq key []
    then record {
      consensus_states =
          record {
            height = record { revision_number = 1; revision_height = 30 };
            timestamp = some 50;
          }
          ∷ [];
      next_key = codes "second";
    }
    else record {
      consensus_states =
          record {
            height = record { revision_number = 1; revision_height = 10 };
            timestamp = some 40;
          }
          ∷ [];
      next_key = [];
    }

-- headers are their heights
abbrev fetcher : TrustedHeaderFetcher ℕ ℕ ℕ
fetcher = record {
  revision_number = 1;
  is_cosmos_provider = true;
  query_client_state = pure (some 1000000000000);
  consensus_states = λ key. pure (pages key);
  query_ibc_header = λ height. pure (some (ok height));
  retry = λ m. m;
  validator_set = λ header. header;
  inject = λ header height validators. header + validators;
  now = λ w. w;
}

fetch-Verifiable_example : Verifiable fetcher 100 20 (fetch fetcher 2 20 100).0
fetch-Verifiable_example = fetch-Verifiable fetcher (record { last = λ m w a e. (w, e) }) 2 20 100

-- the same fetch, run: the header 20 with the validators of the header 11
fetch_run : (fetch fetcher 2 20 100).0 ≡ ok (some 31)
unfolding fetch bytes_eq
fetch_run = refl

abbrev processor : KvProcessor World ℕ ℕ
processor = record {
  fetch = λ height. pure height;
  abci_query = λ path key height. pure (record { value = key; proof_ops = []; height = height });
  min_kv_update_period = 5;
  submit_kv_proof = λ height revision query_id proof update. pure tt;
  storage = storage;
  query_latest_height = pure 20;
  msg_update_client = λ header. pure (some header);
  retry_header = λ m. m;
  retry_message = λ m. m;
  revision_number_of = λ header. 1;
}

abbrev a_message : MessageKv
a_message = record { query_id = 7; kv_keys = record { path = codes "bank"; key = codes "k" } ∷ [] }

is_query_on_time-OnTime_example :
    OnTime processor 7 20 initial
      (is_query_on_time processor 7 20 initial).0
      (is_query_on_time processor 7 20 initial).1
is_query_on_time-OnTime_example = is_query_on_time-OnTime processor 7 20 initial

process_and_submit-Submitted_example :
    Submitted processor a_message (process_and_submit processor a_message initial).0
process_and_submit-Submitted_example =
    process_and_submit-Submitted processor (record { last = λ m w a e. (w, e) })
      (record { last = λ m w a e. (w, e) }) a_message initial

-- the same message, run: the height of the update is saved
process_run :
    ((process_and_submit processor a_message initial).0 ≡ ok tt)
    × ((process_and_submit processor a_message initial).1.saved ≡ some 20)
unfolding process_and_submit
process_run = (refl, refl)

-- the first page has one state behind it
abbrev remaining : Bytes → ℕ
remaining key = if bytes_eq key [] then 1 else 0

pages_advance :
    (key : Bytes)
    → bytes_eq (pages key).next_key [] ≡ false
    → remaining (pages key).next_key < remaining key
unfolding bytes_eq
pages_advance [] n = omega arith
pages_advance (c ∷ key) n = absurd (ground (arith, n))

page_of : {a b : Page} → ok a ≡ ok b → a ≡ b
page_of e = cc

abbrev fetcher_advances : Advances fetcher remaining
fetcher_advances = record {
  next = λ key w page e.
      subst (λ page. bytes_eq page.next_key [] ≡ false → remaining page.next_key < remaining key)
        (page_of e) (pages_advance key);
}

get_trusted_height-returns_example : (get_trusted_height fetcher 2 20 100).0 ≢ ok none
unfolding bytes_eq
get_trusted_height-returns_example =
    get_trusted_height-returns fetcher remaining fetcher_advances 2 20 100 (omega arith)
