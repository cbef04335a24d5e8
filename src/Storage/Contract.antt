-- ===== src/Storage/Contract.antt =====
-- What internal/storage/leveldb.go is for its clients.
use mathlib.Core.Path.{subst}
use neutron_query_relayer.Prelude.{
  ℕ, ◌<◌, ◌≡◌, ◌≢◌, refl, Bool, true, false, Option, some, Bytes, arith, u64, bytes_eq_refl,
}
use neutron_query_relayer.Errors.{context-ok, Result, ok, err, not_found}
use neutron_query_relayer.Strconv.RoundTrip.{parse_uint-format_uint}
use neutron_query_relayer.Relay.{Transaction, SubmittedTxInfo}
use neutron_query_relayer.Storage.Interface.{LevelDb, Codecs, Laws}
use neutron_query_relayer.Storage.Keys.{uint_to_bytes, bytes_to_uint, construct_tx_status_key}
use neutron_query_relayer.Storage.Keys.Injective.{
  height, status, encode, IsHash, key_eq, bytes_eq-encode,
}
use neutron_query_relayer.Storage.Spec.{Store, with_height, with_status}
use neutron_query_relayer.Storage.Refinement.{Represents, Outcome, keep_lem, transaction_lem}
use neutron_query_relayer.Storage.{
  write_tx_status, set_tx_status, set_last_query_height, get_last_query_height, keep, found_height,
  tx_exists, status_step,
}

module _ {Db Batch : Type 0} (ldb : LevelDb Db Batch) (laws : Laws ldb) (js : Codecs) where
  -- Recording a status, for a uint64 query id and a hash of 64 bytes, fails with the database as
  -- it was, or leaves a database that represents the abstract store in which exactly the entries
  -- of the transaction and of the neutron hash have changed.
  pub set_tx_status-refines :
      (now q : ℕ) (hash nhash : Bytes) (info : SubmittedTxInfo) (p : Option Transaction) (db : Db)
      (m : Store)
      → q < u64
      → IsHash hash
      → Represents ldb laws db m
      → Outcome ldb laws
          (with_status js now q hash nhash info p m)
          db
          (set_tx_status ldb js now q hash nhash info p db)
  unfolding set_tx_status
  set_tx_status-refines now q hash nhash info p db m lq lh r =
      keep_lem ldb laws js _ db _
        (λ d. transaction_lem ldb laws js now q hash nhash info p db d m lq lh r)

  -- Saving a height for a uint64 query id fails with the database as it was, or changes the entry
  -- of that query alone.
  pub set_last_query_height-refines :
      (q block : ℕ) (db : Db) (m : Store)
      → q < u64
      → Represents ldb laws db m
      → Outcome ldb laws
          (with_height m q (uint_to_bytes block))
          db
          (set_last_query_height ldb js q block db)
  unfolding set_last_query_height encode uint_to_bytes
  set_last_query_height-refines q block db m lq r = keep_lem ldb laws js _ db _ λ d h k wk. ground (
    arith,
    laws.put_ok db d (encode (height q)) (uint_to_bytes block) (encode k) (context-ok _ _ h),
    bytes_eq-encode (height q) k lq wk,
    r k wk,
  )

  -- What a read of a height that is there gives, if the database does not fail.
  abbrev pub Reads : ℕ → Result (ℕ × Bool) → Type 0
  Reads block (ok r) = r ≡ (block, true)
  Reads block (err e) = e ≢ not_found

  found_height_lem :
      (block : ℕ) (g : Result Bytes)
      → block < u64
      → ((v : Bytes) → g ≡ ok v → v ≡ uint_to_bytes block)
      → g ≢ err not_found
      → Reads block (found_height ldb js g)
  unfolding found_height bytes_to_uint uint_to_bytes
  found_height_lem block (ok v) lb f n = rw (f v refl, parse_uint-format_uint block lb)
  found_height_lem block (err not_found) lb f n = absurd (n refl)
  found_height_lem block (err e) lb f n = λ h. cc

  -- After a uint64 height is saved for a uint64 query id, a read that does not fail gives that
  -- height and says that it is found.
  pub get_last_query_height-set_last_query_height :
      (q block : ℕ) (db d : Db) (m : Store)
      → q < u64
      → block < u64
      → Represents ldb laws db m
      → set_last_query_height ldb js q block db ≡ (ok tt, d)
      → Reads block (get_last_query_height ldb js d q)
  unfolding get_last_query_height encode key_eq
  get_last_query_height-set_last_query_height q block db d m lq lb r h =
      let after : Outcome ldb laws (with_height m q (uint_to_bytes block)) db (ok tt, d) =
        subst (Outcome ldb laws (with_height m q (uint_to_bytes block)) db) h
          (set_last_query_height-refines q block db m lq r) in
      let at : laws.contents d (uint_to_bytes q) ≡ some (uint_to_bytes block) =
        ground (arith, after (height q) lq) in
      found_height_lem block _ lb (λ v e. cc (at, laws.get_ok d _ v e))
        (λ e. cc (at, laws.get_missing d _ e))

  -- the marshalled status, from a recording that succeeded
  marshalled_lem :
      (now q : ℕ) (hash nhash : Bytes) (info : SubmittedTxInfo) (p : Option Transaction) (db : Db)
      {d : Db}
      → set_tx_status ldb js now q hash nhash info p db ≡ (ok tt, d)
      → (b : Bytes) × (js.tx_info.marshal info ≡ ok b)
  unfolding set_tx_status keep write_tx_status status_step
  marshalled_lem now q hash nhash info p db h = ground arith

  -- After a status is recorded for a uint64 query id and a hash of 64 bytes, the transaction does
  -- not count as unknown.
  pub tx_exists-set_tx_status :
      (now q : ℕ) (hash nhash : Bytes) (info : SubmittedTxInfo) (p : Option Transaction) (db d : Db)
      (m : Store)
      → q < u64
      → IsHash hash
      → Represents ldb laws db m
      → set_tx_status ldb js now q hash nhash info p db ≡ (ok tt, d)
      → tx_exists ldb js d q hash ≢ ok false
  unfolding tx_exists encode with_status key_eq
  tx_exists-set_tx_status now q hash nhash info p db d m lq lh r h e =
      let after : Outcome ldb laws (with_status js now q hash nhash info p m) db (ok tt, d) =
        subst (Outcome ldb laws (with_status js now q hash nhash info p m) db) h
          (set_tx_status-refines now q hash nhash info p db m lq lh r) in
      let (v, marshalled) = marshalled_lem now q hash nhash info p db h in
      let k : Bytes = construct_tx_status_key q hash in
      ground (
        arith,
        after (status q hash) (lq, lh),
        marshalled,
        laws.has_ok d k false (context-ok _ _ e),
        bytes_eq_refl hash,
      )
