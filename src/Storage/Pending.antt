-- ===== src/Storage/Pending.antt =====
-- The queue of submitted transactions of internal/storage/leveldb.go under the writes of the relayer,
-- the web server and the checker, in whatever order they come: each is one call under the mutex.
use mathlib.Core.Path.{subst}
use mathlib.Core.List.{Memᴰ}
use neutron_query_relayer.Prelude.{
  ℕ, ◌<◌, ◌≡◌, sym, ◌∙◌, ◌⊎◌, inl, inr, false, Option, some, List, [], ◌∷◌, ◌++◌, Bytes, bytes_eq,
  bytes_eq_refl, codes, arith, u64,
}
use neutron_query_relayer.Errors.{Result, ok, err, context, context-ok, result_rule}
use neutron_query_relayer.Relay.{
  Transaction, PendingSubmittedTxInfo, SubmittedTxInfo, SubmittedTxStatus, error_on_submit,
}
use neutron_query_relayer.Storage.Interface.{LevelDb, Codecs, Laws}
use neutron_query_relayer.Storage.Keys.{
  uint_to_bytes, submitted_tx_status_prefix, construct_pending_queue_key,
}
use neutron_query_relayer.Storage.Keys.Injective.{pending, encode, IsHash, key_eq}
use neutron_query_relayer.Storage.Spec.{Store, pending_info, with_height, with_status}
use neutron_query_relayer.Storage.Refinement.{Represents, Outcome}
use neutron_query_relayer.Storage.Contract.{set_tx_status-refines, set_last_query_height-refines}
use neutron_query_relayer.Storage.Lifecycle.{was_submitted}
use neutron_query_relayer.Storage.{
  set_tx_status, set_last_query_height, decode_pending, get_all_pending_txs,
  save_into_pending_queue, pending_step, write_tx_status, keep, status_eq,
}

module _ {ℓ} {A : Type ℓ} (a : A) where
  Mem-left : (xs ys : List A) → Memᴰ a xs → Memᴰ a (xs ++ ys)
  Mem-left [] ys h = elim h [ ]
  Mem-left (x ∷ xs) ys (Memᴰ.head e) = Memᴰ.head e
  Mem-left (x ∷ xs) ys (Memᴰ.tail h) = Memᴰ.tail (Mem-left xs ys h)

  Mem-right : (xs ys : List A) → Memᴰ a ys → Memᴰ a (xs ++ ys)
  Mem-right [] ys h = h
  Mem-right (x ∷ xs) ys h = Memᴰ.tail (Mem-right xs ys h)

module _ {Db Batch : Type 0} (ldb : LevelDb Db Batch) (laws : Laws ldb) (js : Codecs) where
  -- A status that is no outcome of the neutron hash.
  abbrev pub Spares : Bytes → Bytes → SubmittedTxStatus → Type 0
  Spares n neutron_hash status = (status ≡ error_on_submit) ⊎ (bytes_eq neutron_hash n ≡ false)

  -- What the parts write in some order, whether it succeeds or not: statuses that are no outcome of
  -- the neutron hash `n`, and heights.
  pub data Writes (n : Bytes) (db : Db) : Db → Type 0 where
    nothing : Writes n db db
    status :
        {d d' : Db} {r : Result (Unit {0})}
        → Writes n db d
        → (now q : ℕ) (hash neutron_hash : Bytes) (info : SubmittedTxInfo) (p : Option Transaction)
        → q < u64
        → IsHash hash
        → Spares n neutron_hash info.status
        → set_tx_status ldb js now q hash neutron_hash info p d ≡ (r, d')
        → Writes n db d'
    height :
        {d d' : Db} {r : Result (Unit {0})}
        → Writes n db d
        → (q block : ℕ) → q < u64
        → set_last_query_height ldb js q block d ≡ (r, d')
        → Writes n db d'

  -- The database represents a store with this entry in the queue.
  abbrev Holds : Bytes → Bytes → Db → Type 0
  Holds n b d = (m : Store) × Represents ldb laws d m × (m (pending n) ≡ some b)

  Outcome-Holds :
      (n b : Bytes) (m m' : Store) (d d' : Db) (r : Result (Unit {0}))
      → Represents ldb laws d m
      → m (pending n) ≡ some b
      → m' (pending n) ≡ some b
      → Outcome ldb laws m' d (r, d')
      → Holds n b d'
  Outcome-Holds n b m m' d d' (ok u) rep e e' out = (m', out, e')
  Outcome-Holds n b m m' d d' (err x) rep e e' out =
      (m, subst (λ c. Represents ldb laws c m) (sym out) rep, e)

  with_status-pending :
      (now q : ℕ) (hash neutron_hash n b : Bytes) (info : SubmittedTxInfo) (p : Option Transaction)
      (m : Store)
      → Spares n neutron_hash info.status
      → m (pending n) ≡ some b
      → with_status js now q hash neutron_hash info p m (pending n) ≡ some b
  unfolding with_status
  with_status-pending now q hash neutron_hash n b info p m (inl s) e = ground arith
  with_status-pending now q hash neutron_hash n b info p m (inr f) e = ground arith

  with_height-pending :
      (q : ℕ) (n b v : Bytes) (m : Store)
      → m (pending n) ≡ some b
      → with_height m q v (pending n) ≡ some b
  unfolding key_eq
  with_height-pending q n b v m e = e

  Writes-Holds : (n b : Bytes) (db : Db) {d : Db} → Holds n b db → Writes n db d → Holds n b d
  Writes-Holds n b db h nothing = h
  Writes-Holds n b db h (status {d} {d'} {r} before now q hash neutron_hash info p lq lh s e) =
      let (m, rep, at) = Writes-Holds n b db h before in
      Outcome-Holds n b m (with_status js now q hash neutron_hash info p m) d d' r rep at
        (with_status-pending now q hash neutron_hash n b info p m s at)
        (subst (Outcome ldb laws (with_status js now q hash neutron_hash info p m) d) e
          (set_tx_status-refines ldb laws js now q hash neutron_hash info p d m lq lh rep))
  Writes-Holds n b db h (height {d} {d'} {r} before q block lq e) =
      let (m, rep, at) = Writes-Holds n b db h before in
      Outcome-Holds n b m (with_height m q (uint_to_bytes block)) d d' r rep at
        (with_height-pending q n b _ m at)
        (subst (Outcome ldb laws (with_height m q (uint_to_bytes block)) d) e
          (set_last_query_height-refines ldb laws js q block d m lq rep))

  -- What an iterator over a prefix promises: it comes to every entry under the prefix.
  pub record Scans : Type 0 where
    pub visits :
        (d : Db) (prefix rest v : Bytes)
        → laws.contents d (prefix ++ rest) ≡ some v
        → Memᴰ v (ldb.values d prefix)

  -- An entry of the queue is read as it was written.
  pub record ReadsBack : Type 0 where
    pub unmarshals :
        (info : PendingSubmittedTxInfo) (b : Bytes)
        → js.pending_info.marshal info ≡ ok b
        → js.pending_info.unmarshal b ≡ ok info

  -- The transaction is in the list, if there is one.
  abbrev pub Listed : PendingSubmittedTxInfo → Result (List PendingSubmittedTxInfo) → Type 0
  Listed info (ok txs) = Memᴰ info txs
  Listed info (err e) = Unit

  -- what the loop over the values does with one of them
  decode_rule :
      (info : PendingSubmittedTxInfo) (v : Bytes) (values : List Bytes)
      (txs : List PendingSubmittedTxInfo)
      → ((tx_info : PendingSubmittedTxInfo)
          → js.pending_info.unmarshal v ≡ ok tx_info
          → Listed info (decode_pending ldb js values (txs ++ tx_info ∷ [])))
      → Listed info (decode_pending ldb js (v ∷ values) txs)
  unfolding decode_pending
  decode_rule info v values txs h =
      result_rule (Listed info)
        (context (codes "failed to unmarshal data into PendingSubmittedTxInfo")
          (js.pending_info.unmarshal v))
        _ (λ tx_info e. h tx_info (context-ok _ _ e)) (λ x _. tt)

  decode_pending-acc :
      (info : PendingSubmittedTxInfo) (values : List Bytes) (txs : List PendingSubmittedTxInfo)
      → Memᴰ info txs
      → Listed info (decode_pending ldb js values txs)
  unfolding decode_pending
  decode_pending-acc info [] txs h = h
  decode_pending-acc info (v ∷ values) txs h = decode_rule info v values txs λ tx_info _.
      decode_pending-acc info values (txs ++ tx_info ∷ []) (Mem-left info txs (tx_info ∷ []) h)

  decode_pending-Listed :
      (info : PendingSubmittedTxInfo) (b : Bytes) (values : List Bytes)
      (txs : List PendingSubmittedTxInfo)
      → js.pending_info.unmarshal b ≡ ok info
      → Memᴰ b values
      → Listed info (decode_pending ldb js values txs)
  decode_pending-Listed info b [] txs u h = elim h [ ]
  decode_pending-Listed info b (v ∷ values) txs u (Memᴰ.head e) =
      decode_rule info v values txs λ tx_info w.
        decode_pending-acc info values (txs ++ tx_info ∷ [])
          (Mem-right info txs (tx_info ∷ []) (Memᴰ.head (ground (arith, u, w, e))))
  decode_pending-Listed info b (v ∷ values) txs u (Memᴰ.tail h) =
      decode_rule info v values txs
        λ tx_info _. decode_pending-Listed info b values (txs ++ tx_info ∷ []) u h

  -- the marshalled entry of the queue, from a submission that was recorded
  entry_lem :
      (now q : ℕ) (hash nhash : Bytes) (tx : Transaction) (db d : Db)
      → set_tx_status ldb js now q hash nhash was_submitted (some tx) db ≡ (ok tt, d)
      → (b : Bytes) × (js.pending_info.marshal (pending_info js now q hash nhash was_submitted)
          ≡ ok b)
  unfolding set_tx_status keep write_tx_status pending_step save_into_pending_queue status_eq
  entry_lem now q hash nhash tx db d h = ground arith

  recorded-Holds :
      (now q : ℕ) (hash nhash b : Bytes) (tx : Transaction) (db d : Db) (m : Store)
      → q < u64
      → IsHash hash
      → Represents ldb laws db m
      → set_tx_status ldb js now q hash nhash was_submitted (some tx) db ≡ (ok tt, d)
      → js.pending_info.marshal (pending_info js now q hash nhash was_submitted) ≡ ok b
      → Holds nhash b d
  unfolding with_status
  recorded-Holds now q hash nhash b tx db d m lq lh rep h e = (
    with_status js now q hash nhash was_submitted (some tx) m,
    subst (Outcome ldb laws (with_status js now q hash nhash was_submitted (some tx) m) db) h
        (set_tx_status-refines ldb laws js now q hash nhash was_submitted (some tx) db m lq lh rep),
    ground (arith, bytes_eq_refl nhash, e),
  )

  -- If an iterator comes to every entry under its prefix and an entry of the queue is read as it
  -- was written: a transaction (a uint64 query id, a hash of 64 bytes) that was recorded as
  -- submitted is among the pending ones whenever they can be read, whatever heights and statuses
  -- were written since, as long as none of them was an outcome or another submission under its
  -- neutron hash.
  pub get_all_pending_txs-Listed :
      Scans
      → ReadsBack
      → (now q : ℕ) (hash nhash : Bytes) (tx : Transaction) (db d d' : Db) (m : Store) → q < u64
      → IsHash hash
      → Represents ldb laws db m
      → set_tx_status ldb js now q hash nhash was_submitted (some tx) db ≡ (ok tt, d)
      → Writes nhash d d'
      → Listed
          (record { query_id = q; submitted_tx_hash = hash; neutron_hash = nhash })
          (get_all_pending_txs ldb js d')
  unfolding get_all_pending_txs encode construct_pending_queue_key
  get_all_pending_txs-Listed scans json now q hash nhash tx db d d' m lq lh rep h writes =
      let (b, e) = entry_lem now q hash nhash tx db d h in
      let (m', rep', at) =
        Writes-Holds nhash b d (recorded-Holds now q hash nhash b tx db d m lq lh rep h e) writes in
      decode_pending-Listed _ b _ [] (json.unmarshals _ b e)
        (scans.visits d' submitted_tx_status_prefix nhash b (rep' (pending nhash) tt ∙ at))
