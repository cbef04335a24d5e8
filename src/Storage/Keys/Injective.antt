-- ===== src/Storage/Keys/Injective.antt =====
-- The five families of database keys of internal/storage/leveldb.go.
use mathlib.Core.Path.{ap₂}
use mathlib.Core.List.{append_cancel_left}
use neutron_query_relayer.Prelude.{
  ℕ, ◌≤◌, ◌<◌, ◌≡◌, ◌≢◌, sym, ap, ◌∙◌, inl, inr, Bool, true, false, ◌&&◌, ◌==◌, Bool-cases,
  bytes_eq, bytes_eq_iff, bytes_eq_refl, [], ◌∷◌, arith, Bytes, length, length-append, append_inj,
  u64,
}
use neutron_query_relayer.Strconv.{format_uint}
use neutron_query_relayer.Strconv.RoundTrip.{
  format_uint-first, format_uint-injective, length-format_uint-le,
}
use neutron_query_relayer.Storage.Keys.{
  submitted_tx_status_prefix, unsuccessful_tx_status_prefix, cached_txs, uint_to_bytes,
  construct_tx_status_key, construct_cache_tx_key, construct_unsuccessful_queue_key,
  construct_pending_queue_key,
}

-- What a database key stands for.
pub data Key : Type 0 where
  height : ℕ → Key
  status : ℕ → Bytes → Key
  pending : Bytes → Key
  unsuccessful : ℕ → Bytes → Key
  cached : ℕ → Bytes → Key

unfoldable pub encode : Key → Bytes
encode (height q) = uint_to_bytes q
encode (status q h) = construct_tx_status_key q h
encode (pending n) = construct_pending_queue_key n
encode (unsuccessful q h) = construct_unsuccessful_queue_key q h
encode (cached q h) = construct_cache_tx_key q h

-- The hex print of a sha256 hash.
abbrev pub IsHash : Bytes → Type 0
IsHash h = length h ≡ 64

abbrev pub IsWellFormed : Key → Type 0
IsWellFormed (height q) = q < u64
IsWellFormed (status q h) = (q < u64) × IsHash h
IsWellFormed (pending n) = Unit
IsWellFormed (unsuccessful q h) = (q < u64) × IsHash h
IsWellFormed (cached q h) = (q < u64) × IsHash h

-- The first byte; a decimal digit is at most 57.
abbrev tag : Bytes → ℕ
tag [] = 0
tag (c ∷ s) = c

tag-height : (q : ℕ) → tag (uint_to_bytes q) ≤ 57
unfolding uint_to_bytes
tag-height q = let (c, t, e, d) = format_uint-first q in rw e (omega arith)

tag-status : (q : ℕ) (h : Bytes) → tag (construct_tx_status_key q h) ≤ 57
unfolding construct_tx_status_key uint_to_bytes
tag-status q h = let (c, t, e, d) = format_uint-first q in rw e (omega arith)

status-injective :
    (q r : ℕ) (h g : Bytes)
    → q < u64
    → r < u64
    → IsHash h
    → IsHash g
    → construct_tx_status_key q h ≡ construct_tx_status_key r g
    → (q ≡ r) × (h ≡ g)
unfolding construct_tx_status_key uint_to_bytes
status-injective q r h g lq lr lh lg e =
    let p = append_inj (format_uint q) h (format_uint r) g (omega (arith, lh, lg)) e in
    (format_uint-injective q r lq lr p.0, p.1)

status-ne-height : (q r : ℕ) (h : Bytes) → IsHash h → construct_tx_status_key q h ≢ uint_to_bytes r
unfolding construct_tx_status_key uint_to_bytes
status-ne-height q r h lh e =
    omega (arith, ap length e, length-append {0} (format_uint q) h, length-format_uint-le r)

-- Two kinds of entries, ids or hashes never share a key of the database, for uint64 ids and hashes
-- of 64 bytes.
pub encode-injective : (k j : Key) → IsWellFormed k → IsWellFormed j → encode k ≡ encode j → k ≡ j
unfolding encode uint_to_bytes construct_cache_tx_key construct_unsuccessful_queue_key
    construct_pending_queue_key
encode-injective (height q) (height r) lq lr e = ap height (format_uint-injective q r lq lr e)
encode-injective (status q h) (status r g) wq wr e =
    let p = status-injective q r h g wq.0 wr.0 wq.1 wr.1 e in ap₂ status p.0 p.1
encode-injective (pending n) (pending m) wq wr e =
    ap pending (append_cancel_left submitted_tx_status_prefix n m e)
encode-injective (unsuccessful q h) (unsuccessful r g) wq wr e =
    let p =
      status-injective q r h g wq.0 wr.0 wq.1 wr.1
        (append_cancel_left unsuccessful_tx_status_prefix _ _ e) in
    ap₂ unsuccessful p.0 p.1
encode-injective (cached q h) (cached r g) wq wr e =
    let p = status-injective q r h g wq.0 wr.0 wq.1 wr.1 (append_cancel_left cached_txs _ _ e) in
    ap₂ cached p.0 p.1
encode-injective (height q) (status r g) wq wr e = absurd (status-ne-height r q g wr.1 (sym e))
encode-injective (status q h) (height r) wq wr e = absurd (status-ne-height q r h wq.1 e)
encode-injective (height q) _ wq wr e = absurd (omega (arith, ap tag e, tag-height q))
encode-injective (status q h) _ wq wr e = absurd (omega (arith, ap tag e, tag-status q h))
encode-injective _ (height r) wq wr e = absurd (omega (arith, ap tag e, tag-height r))
encode-injective _ (status r g) wq wr e = absurd (omega (arith, ap tag e, tag-status r g))
encode-injective _ _ wq wr e = absurd (omega (arith, ap tag e))

-- Equality of keys, family by family.
unfoldable pub key_eq : Key → Key → Bool
key_eq (height q) (height r) = q == r
key_eq (status q h) (status r g) = q == r && bytes_eq h g
key_eq (pending n) (pending m) = bytes_eq n m
key_eq (unsuccessful q h) (unsuccessful r g) = q == r && bytes_eq h g
key_eq (cached q h) (cached r g) = q == r && bytes_eq h g
key_eq _ _ = false

key_eq_refl : (k : Key) → key_eq k k ≡ true
unfolding key_eq
key_eq_refl (height q) = ground arith
key_eq_refl (status q h) = ground (arith, bytes_eq_refl h)
key_eq_refl (pending n) = bytes_eq_refl n
key_eq_refl (unsuccessful q h) = ground (arith, bytes_eq_refl h)
key_eq_refl (cached q h) = ground (arith, bytes_eq_refl h)

key_eq_sound : (k j : Key) → key_eq k j ≡ true → k ≡ j
unfolding key_eq
key_eq_sound (height q) (height r) e = ground arith
key_eq_sound (status q h) (status r g) e = ground (arith, bytes_eq_iff h g)
key_eq_sound (pending n) (pending m) e = ground (arith, bytes_eq_iff n m)
key_eq_sound (unsuccessful q h) (unsuccessful r g) e = ground (arith, bytes_eq_iff h g)
key_eq_sound (cached q h) (cached r g) e = ground (arith, bytes_eq_iff h g)
key_eq_sound (height q) _ e = cc
key_eq_sound (status q h) _ e = cc
key_eq_sound (pending n) _ e = cc
key_eq_sound (unsuccessful q h) _ e = cc
key_eq_sound (cached q h) _ e = cc

-- The database's test on byte strings is the test on keys.
pub bytes_eq-encode :
    (k j : Key) → IsWellFormed k → IsWellFormed j → bytes_eq (encode k) (encode j) ≡ key_eq k j
bytes_eq-encode k j wk wj = elim (Bool-cases (bytes_eq (encode k) (encode j))) [
  | inl e ↦
      rw (encode-injective k j wk wj ((bytes_eq_iff (encode k) (encode j)).0 e))
        (bytes_eq_refl (encode j) ∙ sym (key_eq_refl j))
  | inr e ↦ elim (Bool-cases (key_eq k j)) [
    | inl t ↦ absurd (cc (key_eq_sound k j t, bytes_eq_refl (encode j)))
    | inr f ↦ e ∙ sym f
  ]
]
