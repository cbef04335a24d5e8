-- ===== src/Storage/Lifecycle.antt =====
-- SetTxStatus (internal/storage/leveldb.go), from a submission to its end.
use mathlib.Core.Path.{subst}
use neutron_query_relayer.Prelude.{
  ℕ, ◌<◌, ◌≡◌, ◌∙◌, Option, none, some, [], Bytes, bytes_eq_refl, arith, u64,
}
use neutron_query_relayer.Errors.{ok}
use neutron_query_relayer.Relay.{
  Transaction, SubmittedTxInfo, submitted, committed, error_on_commit,
}
use neutron_query_relayer.Storage.Interface.{LevelDb, Codecs, Laws}
use neutron_query_relayer.Storage.Keys.Injective.{
  pending, unsuccessful, cached, encode, IsHash, key_eq,
}
use neutron_query_relayer.Storage.Spec.{Store, with_status}
use neutron_query_relayer.Storage.Refinement.{Represents, Outcome}
use neutron_query_relayer.Storage.Contract.{set_tx_status-refines}
use neutron_query_relayer.Storage.{
  status_eq, cache_processed_tx, cache_step, status_step, write_tx_status, set_tx_status, keep,
}

-- the statuses that the TXProcessor and the TxSubmitChecker record
abbrev pub was_submitted : SubmittedTxInfo
was_submitted = record { status = submitted; message = [] }

abbrev pub was_committed : SubmittedTxInfo
was_committed = record { status = committed; message = [] }

abbrev pub has_failed : Bytes → SubmittedTxInfo
has_failed message = record { status = error_on_commit; message = message }

module _ {Db Batch : Type 0} (ldb : LevelDb Db Batch) (laws : Laws ldb) (js : Codecs) where
  after_lem :
      (now q : ℕ) (hash nhash : Bytes) (info : SubmittedTxInfo) (p : Option Transaction) (db d : Db)
      (m : Store)
      → q < u64
      → IsHash hash
      → Represents ldb laws db m
      → set_tx_status ldb js now q hash nhash info p db ≡ (ok tt, d)
      → Represents ldb laws d (with_status js now q hash nhash info p m)
  after_lem now q hash nhash info p db d m lq lh r h =
      subst (Outcome ldb laws (with_status js now q hash nhash info p m) db) h
        (set_tx_status-refines ldb laws js now q hash nhash info p db m lq lh r)

  -- When a transaction (a uint64 query id, a hash of 64 bytes) is recorded as committed without an
  -- error, it is in neither queue and not in the cache.
  pub set_tx_status-committed :
      (now q : ℕ) (hash nhash : Bytes) (db d : Db) (m : Store)
      → q < u64
      → IsHash hash
      → Represents ldb laws db m
      → set_tx_status ldb js now q hash nhash was_committed none db ≡ (ok tt, d)
      → (laws.contents d (encode (pending nhash)) ≡ none)
        × (laws.contents d (encode (unsuccessful q hash)) ≡ none)
        × (laws.contents d (encode (cached q hash)) ≡ none)
  unfolding with_status key_eq
  set_tx_status-committed now q hash nhash db d m lq lh r h =
      let after = after_lem now q hash nhash was_committed none db d m lq lh r h in
      (
        after (pending nhash) tt ∙ ground (arith, bytes_eq_refl nhash),
        after (unsuccessful q hash) (lq, lh) ∙ ground (arith, bytes_eq_refl hash),
        after (cached q hash) (lq, lh) ∙ ground (arith, bytes_eq_refl hash),
      )

  -- the marshalled transaction, from a submission that was recorded
  marshalled_lem :
      (now q : ℕ) (hash nhash : Bytes) (tx : Transaction) (db d : Db)
      → set_tx_status ldb js now q hash nhash was_submitted (some tx) db ≡ (ok tt, d)
      → (b : Bytes) × (js.transaction.marshal tx ≡ ok b)
  unfolding set_tx_status keep write_tx_status status_step cache_step cache_processed_tx status_eq
  marshalled_lem now q hash nhash tx db d h = ground arith

  -- When a transaction (a uint64 query id, a hash of 64 bytes) is recorded as submitted with its
  -- data and then as failed on commit, both without an error: its marshalled data is still under
  -- its key in the cache, and it is not in the queue of submitted transactions.
  pub set_tx_status-failed :
      (now now' q : ℕ) (hash nhash message : Bytes) (tx : Transaction) (db d d' : Db) (m : Store)
      → q < u64
      → IsHash hash
      → Represents ldb laws db m
      → set_tx_status ldb js now q hash nhash was_submitted (some tx) db ≡ (ok tt, d)
      → set_tx_status ldb js now' q hash nhash (has_failed message) none d ≡ (ok tt, d')
      → (b : Bytes) × (js.transaction.marshal tx ≡ ok b)
        × (laws.contents d' (encode (cached q hash)) ≡ some b)
        × (laws.contents d' (encode (pending nhash)) ≡ none)
  unfolding with_status key_eq
  set_tx_status-failed now now' q hash nhash message tx db d d' m lq lh r h h' =
      let after = after_lem now q hash nhash was_submitted (some tx) db d m lq lh r h in
      let after' =
        after_lem now' q hash nhash (has_failed message) none d d'
          (with_status js now q hash nhash was_submitted (some tx) m) lq lh after h' in
      let (b, e) = marshalled_lem now q hash nhash tx db d h in
      (
        b,
        e,
        after' (cached q hash) (lq, lh) ∙ ground (arith, bytes_eq_refl hash, e),
        after' (pending nhash) tt ∙ ground (arith, bytes_eq_refl nhash),
      )
