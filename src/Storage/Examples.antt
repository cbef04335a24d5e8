-- ===== src/Storage/Examples.antt =====
-- The storage's theorems at inputs, and tests of its methods.
use neutron_query_relayer.Prelude.{
  ◌≡◌, refl, inr, true, none, some, [], ◌∷◌, Bytes, codes, bytes_eq, arith,
}
use neutron_query_relayer.Errors.{ok}
use neutron_query_relayer.Strconv.{format_uint, parse_uint}
use neutron_query_relayer.Storage.Keys.{uint_to_bytes, bytes_to_uint}
use neutron_query_relayer.Storage.Keys.Injective.{
  status, pending, unsuccessful, cached, encode, encode-injective,
}
use neutron_query_relayer.Storage.Spec.{Store, with_status, with_height}
use neutron_query_relayer.Storage.Refinement.{Represents, Outcome}
use neutron_query_relayer.Storage.Contract.{set_tx_status-refines, set_last_query_height-refines}
use neutron_query_relayer.Storage.Keys.{construct_cache_tx_key}
use neutron_query_relayer.Storage.Keys.Ambiguity.{construct_cache_tx_key-snoc}
use neutron_query_relayer.Storage.Lifecycle.{
  was_submitted, was_committed, has_failed, set_tx_status-committed, set_tx_status-failed,
}
use neutron_query_relayer.Storage.Pending.{Writes, Listed, get_all_pending_txs-Listed}
use neutron_query_relayer.Storage.Memory.{memory_visits, Memory, find, memory_db, memory_laws}
use neutron_query_relayer.Storage.MemoryCodecs.{memory_codecs, memory_unmarshals, a_transaction}
use neutron_query_relayer.Storage.{
  status_eq, set_tx_status, set_last_query_height, get_last_query_height, get_all_pending_txs,
}

abbrev a_hash : Bytes
a_hash = codes "00112233445566778899aabbccddeeff00112233445566778899aabbccddeeff"

abbrev empty : Memory
empty = []

abbrev empty_store : Store
empty_store k = none

empty_lem : Represents memory_db memory_laws empty empty_store
unfolding find
empty_lem k wk = refl

set_tx_status-refines_example :
    Outcome memory_db memory_laws
      (with_status memory_codecs 5 7 a_hash
        (codes "ab")
        was_submitted
        (some (a_transaction 9 (codes "tx")))
        empty_store)
      empty
      (set_tx_status memory_db memory_codecs 5 7 a_hash
        (codes "ab")
        was_submitted
        (some (a_transaction 9 (codes "tx")))
        empty)
set_tx_status-refines_example =
    set_tx_status-refines memory_db memory_laws memory_codecs 5 7 a_hash (codes "ab") was_submitted
      (some (a_transaction 9 (codes "tx"))) empty empty_store (omega arith) refl empty_lem

set_last_query_height-refines_example :
    Outcome memory_db memory_laws
      (with_height empty_store 7 (uint_to_bytes 100))
      empty
      (set_last_query_height memory_db memory_codecs 7 100 empty)
set_last_query_height-refines_example =
    set_last_query_height-refines memory_db memory_laws memory_codecs 7 100 empty empty_store
      (omega arith) empty_lem

-- a saved height, read back
read_back :
    get_last_query_height memory_db memory_codecs ((codes "7", some (codes "100")) ∷ []) 7
    ≡ ok (100, true)
unfolding get_last_query_height find uint_to_bytes bytes_to_uint bytes_eq format_uint parse_uint
read_back = refl

abbrev recorded : Memory
recorded =
    (set_tx_status memory_db memory_codecs 5 7 a_hash (codes "ab") was_submitted none empty).1

encode-injective_example : status 1 a_hash ≡ status 1 a_hash
encode-injective_example =
    encode-injective (status 1 a_hash) (status 1 a_hash) (omega arith, refl) (omega arith, refl)
      refl

abbrev committed_later : Memory
committed_later =
    (set_tx_status memory_db memory_codecs 6 7 a_hash (codes "ab") was_committed none empty).1

set_tx_status-committed_example :
    (find committed_later (encode (pending (codes "ab"))) ≡ none)
    × (find committed_later (encode (unsuccessful 7 a_hash)) ≡ none)
    × (find committed_later (encode (cached 7 a_hash)) ≡ none)
unfolding set_tx_status status_eq
set_tx_status-committed_example =
    set_tx_status-committed memory_db memory_laws memory_codecs 6 7 a_hash (codes "ab") empty
      committed_later empty_store (omega arith) refl empty_lem refl

abbrev submitted_first : Memory
submitted_first =
    (set_tx_status memory_db memory_codecs 5 7 a_hash (codes "ab") was_submitted
      (some (a_transaction 9 (codes "tx"))) empty).1

abbrev failed_later : Memory
failed_later =
    (set_tx_status memory_db memory_codecs 6 7 a_hash (codes "ab") (has_failed (codes "Code: 5"))
      none submitted_first).1

set_tx_status-failed_example :
    (b : Bytes) × (memory_codecs.transaction.marshal (a_transaction 9 (codes "tx")) ≡ ok b)
    × (find failed_later (encode (cached 7 a_hash)) ≡ some b)
    × (find failed_later (encode (pending (codes "ab"))) ≡ none)
unfolding set_tx_status status_eq
set_tx_status-failed_example =
    set_tx_status-failed memory_db memory_laws memory_codecs 5 6 7 a_hash (codes "ab")
      (codes "Code: 5") (a_transaction 9 (codes "tx")) empty submitted_first failed_later
      empty_store (omega arith) refl empty_lem refl refl

-- Between a submission and a restart: the height of the query, the outcome of another transaction,
-- and a failed submission of a third one.
abbrev height_saved : Memory
height_saved = (set_last_query_height memory_db memory_codecs 7 100 submitted_first).1

abbrev other_committed : Memory
other_committed =
    (set_tx_status memory_db memory_codecs 6 8 a_hash (codes "cd") was_committed none
      height_saved).1

some-Writes :
    Writes memory_db memory_laws memory_codecs (codes "ab") submitted_first other_committed
unfolding bytes_eq
some-Writes =
    Writes.status (Writes.height Writes.nothing 7 100 (omega arith) refl) 6 8 a_hash (codes "cd")
      was_committed none (omega arith) refl (inr refl) refl

get_all_pending_txs-Listed_example :
    Listed memory_db memory_laws memory_codecs
      (record { query_id = 7; submitted_tx_hash = a_hash; neutron_hash = codes "ab" })
      (get_all_pending_txs memory_db memory_codecs other_committed)
unfolding set_tx_status status_eq
get_all_pending_txs-Listed_example =
    get_all_pending_txs-Listed memory_db memory_laws memory_codecs
      (record { visits = memory_visits }) (record { unmarshals = memory_unmarshals }) 5 7 a_hash
      (codes "ab") (a_transaction 9 (codes "tx")) empty submitted_first other_committed empty_store
      (omega arith) refl empty_lem refl some-Writes

-- query 71 with a hash, and query 7 with the digit 1 in front of the hash
construct_cache_tx_key-snoc_example :
    construct_cache_tx_key 71 (codes "ab") ≡ construct_cache_tx_key 7 (codes "1ab")
construct_cache_tx_key-snoc_example =
    construct_cache_tx_key-snoc 7 1 (codes "ab") (omega arith) (omega arith) (omega arith)
