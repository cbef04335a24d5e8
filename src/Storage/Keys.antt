-- ===== src/Storage/Keys.antt =====
-- The database keys of internal/storage/leveldb.go.
pub mod Ambiguity
pub mod Injective
use neutron_query_relayer.Prelude.{ℕ, ◌++◌, Bytes, codes}
use neutron_query_relayer.Errors.{Result}
use neutron_query_relayer.Strconv.{format_uint, parse_uint}

abbrev pub submitted_tx_status_prefix : Bytes
submitted_tx_status_prefix = codes "submitted_txs"

abbrev pub unsuccessful_tx_status_prefix : Bytes
unsuccessful_tx_status_prefix = codes "unsuccessful_txs"

abbrev pub cached_txs : Bytes
cached_txs = codes "cached_txs"

unfoldable pub uint_to_bytes : ℕ → Bytes
uint_to_bytes num = format_uint num

unfoldable pub bytes_to_uint : Bytes → Result ℕ
bytes_to_uint bytes = parse_uint bytes

unfoldable pub construct_tx_status_key : ℕ → Bytes → Bytes
construct_tx_status_key num str = uint_to_bytes num ++ str

unfoldable pub construct_cache_tx_key : ℕ → Bytes → Bytes
construct_cache_tx_key query_id tx_hash = cached_txs ++ construct_tx_status_key query_id tx_hash

unfoldable pub construct_unsuccessful_queue_key : ℕ → Bytes → Bytes
construct_unsuccessful_queue_key query_id tx_hash =
    unsuccessful_tx_status_prefix ++ construct_tx_status_key query_id tx_hash

unfoldable pub construct_pending_queue_key : Bytes → Bytes
construct_pending_queue_key neutron_tx_hash = submitted_tx_status_prefix ++ neutron_tx_hash
