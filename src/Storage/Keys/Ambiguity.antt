-- ===== src/Storage/Keys/Ambiguity.antt =====
-- The keys of internal/storage/leveldb.go for hashes that do not have 64 bytes.
use neutron_query_relayer.Prelude.{
  ℕ, ◌+◌, ◌*◌, ◌<◌, ◌≡◌, ◌∙◌, ap, [], ◌∷◌, ◌++◌, append_assoc, Bytes, u64,
}
use neutron_query_relayer.Strconv.{format_uint}
use neutron_query_relayer.Strconv.Digits.{format_uint-snoc}
use neutron_query_relayer.Storage.Keys.{
  cached_txs, uint_to_bytes, construct_tx_status_key, construct_cache_tx_key,
}

-- For hashes of other lengths: the key of the cached transaction of the uint64 query id 10 q + d,
-- with q above 0 and a digit d, is the one of the id q and the hash with that digit in front.
pub construct_cache_tx_key-snoc :
    (q d : ℕ) (hash : Bytes)
    → 0 < q
    → d < 10
    → q * 10 + d < u64
    → construct_cache_tx_key (q * 10 + d) hash ≡ construct_cache_tx_key q ((b'0' + d) ∷ hash)
unfolding construct_cache_tx_key construct_tx_status_key uint_to_bytes
construct_cache_tx_key-snoc q d hash p l h =
    ap (λ s. cached_txs ++ s)
      (ap (λ s. s ++ hash) (format_uint-snoc q d p l h)
        ∙ append_assoc (format_uint q) ((b'0' + d) ∷ []) hash)
