-- ===== src/Storage/Refinement.antt =====
-- `set_tx_status` and `set_last_query_height` against a description by key families.
use mathlib.Core.Path.{subst}
use neutron_query_relayer.Prelude.{
  ℕ, ◌<◌, ◌≡◌, refl, ◌∙◌, Bool, true, false, ◌||◌, Option, none, some, Bytes, codes, if◌then◌else◌,
  arith, u64,
}
use neutron_query_relayer.Errors.{context-ok, >>=-ok, Result, ok, err, context, ◌>>=◌}
use neutron_query_relayer.Relay.{
  Transaction, SubmittedTxInfo, SubmittedTxStatus, submitted, error_on_submit, committed,
  error_on_commit,
}
use neutron_query_relayer.Storage.Interface.{LevelDb, Codecs, Laws, write}
use neutron_query_relayer.Storage.Keys.Injective.{
  Key, height, status, pending, unsuccessful, cached, encode, IsHash, IsWellFormed, key_eq,
  bytes_eq-encode,
}
use neutron_query_relayer.Storage.Spec.{
  Store, value_of, update, pending_info, unsuccessful_info, pending_after, with_status,
}
use neutron_query_relayer.Storage.{
  status_eq, save_into_pending_queue, remove_from_pending_queue, save_into_unsuccessful_queue,
  remove_from_unsuccessful_queue, remove_cached_tx, cache_processed_tx, status_step, cache_step,
  pending_step, unsuccessful_step, committed_step, write_tx_status, keep,
}

if_taken {ℓ} :
    {A : Type ℓ} (b : Bool) (x y : A) {z : A} → b ≡ true → (if b then x else y) ≡ z → x ≡ z
if_taken true x y e h = h
if_taken false x y e h = cc

module _ {Db Batch : Type 0} (ldb : LevelDb Db Batch) (laws : Laws ldb) where
  -- The database holds the store at every key that the program forms.
  abbrev pub Represents : Db → Store → Type 0
  Represents db m = (k : Key) → IsWellFormed k → laws.contents db (encode k) ≡ m k

  put_encoded :
      (a b : Bytes) (r : Result Bytes) (t t' : Batch) (k j : Bytes)
      → (do v ← context a r; context b (ldb.batch_put t k v)) ≡ ok t'
      → laws.staged t' j ≡ write (laws.staged t) k (value_of r) j
  put_encoded a b (err e) t t' k j h = cc
  put_encoded a b (ok v) t t' k j h = ground (arith, laws.batch_put_ok t t' k v j)

  -- An open transaction will give the store.
  abbrev pub Stages : Batch → Store → Type 0
  Stages t m = (k : Key) → IsWellFormed k → laws.staged t (encode k) ≡ m k

  stage_put :
      (a b : Bytes) (r : Result Bytes) (t t' : Batch) (k : Key) (m : Store)
      → IsWellFormed k
      → Stages t m
      → (do v ← context a r; context b (ldb.batch_put t (encode k) v)) ≡ ok t'
      → Stages t' (update m k (value_of r))
  stage_put a b r t t' k m wk st h j wj =
      ground
        (arith, put_encoded a b r t t' (encode k) (encode j) h, st j wj, bytes_eq-encode k j wk wj)

  stage_delete :
      (b : Bytes) (t t' : Batch) (k : Key) (m : Store)
      → IsWellFormed k
      → Stages t m
      → context b (ldb.batch_delete t (encode k)) ≡ ok t'
      → Stages t' (update m k none)
  stage_delete b t t' k m wk st h j wj =
      ground
        (arith, laws.batch_delete_ok t t' (encode k) (encode j), st j wj, bytes_eq-encode k j wk wj)

  stage_same : (t t' : Batch) (m : Store) → Stages t m → ok t ≡ ok t' → Stages t' m
  stage_same t t' m st h = subst (λ u. Stages u m) (cc) st

  module _ (js : Codecs) (now q : ℕ) (hash nhash : Bytes) (lq : q < u64) (lh : IsHash hash) where
    abbrev cache_effect : Option Transaction → Store → Store
    cache_effect none m = m
    cache_effect (some tx) m = update m (cached q hash) (value_of (js.transaction.marshal tx))

    cache_step_lem :
        (p : Option Transaction) (t t' : Batch) (m : Store)
        → Stages t m
        → cache_step ldb js t q hash p ≡ ok t'
        → Stages t' (cache_effect p m)
    unfolding cache_step cache_processed_tx encode
    cache_step_lem none t t' m st h = stage_same t t' m st h
    cache_step_lem (some tx) t t' m st h =
        stage_put _ _ (js.transaction.marshal tx) t t' (cached q hash) m (lq, lh) st
          (context-ok _ _ h)

    module _ (info : SubmittedTxInfo) where
      abbrev pending_effect : SubmittedTxStatus → Store → Store
      pending_effect error_on_submit m = m
      pending_effect s m = update m (pending nhash) (pending_after js now q hash nhash info s none)

      pending_step_lem :
          (s : SubmittedTxStatus) (e : info.status ≡ s) (t t' : Batch) (m : Store)
          → Stages t m
          → pending_step ldb js t q hash nhash info ≡ ok t'
          → Stages t' (pending_effect s m)
      unfolding pending_step save_into_pending_queue remove_from_pending_queue encode status_eq
      pending_step_lem submitted e t t' m st h =
          stage_put _ _ (js.pending_info.marshal (pending_info js now q hash nhash info)) t t'
            (pending nhash) m tt st (context-ok _ _ (rw e at h))
      pending_step_lem error_on_submit e t t' m st h = stage_same t t' m st (rw e at h)
      pending_step_lem committed e t t' m st h =
          stage_delete _ t t' (pending nhash) m tt st (context-ok _ _ (rw e at h))
      pending_step_lem error_on_commit e t t' m st h =
          stage_delete _ t t' (pending nhash) m tt st (context-ok _ _ (rw e at h))

      abbrev unsuccessful_effect : SubmittedTxStatus → Store → Store
      unsuccessful_effect error_on_submit m =
          update m (unsuccessful q hash)
            (value_of (js.unsuccessful_info.marshal (unsuccessful_info js now q hash nhash info)))
      unsuccessful_effect error_on_commit m =
          update m (unsuccessful q hash)
            (value_of (js.unsuccessful_info.marshal (unsuccessful_info js now q hash nhash info)))
      unsuccessful_effect _ m = m

      unsuccessful_step_lem :
          (s : SubmittedTxStatus) (e : info.status ≡ s) (t t' : Batch) (m : Store)
          → Stages t m
          → unsuccessful_step ldb js t now q hash nhash info ≡ ok t'
          → Stages t' (unsuccessful_effect s m)
      unfolding unsuccessful_step save_into_unsuccessful_queue encode status_eq
      unsuccessful_step_lem submitted e t t' m st h = stage_same t t' m st (rw e at h)
      unsuccessful_step_lem committed e t t' m st h = stage_same t t' m st (rw e at h)
      unsuccessful_step_lem error_on_submit e t t' m st h =
          stage_put _ _ (js.unsuccessful_info.marshal (unsuccessful_info js now q hash nhash info))
            t t' (unsuccessful q hash) m (lq, lh) st
            (context-ok _ _ (
              if_taken
                (status_eq info.status error_on_commit || status_eq info.status error_on_submit) _ _
                (rw e) h))
      unsuccessful_step_lem error_on_commit e t t' m st h =
          stage_put _ _ (js.unsuccessful_info.marshal (unsuccessful_info js now q hash nhash info))
            t t' (unsuccessful q hash) m (lq, lh) st
            (context-ok _ _ (
              if_taken
                (status_eq info.status error_on_commit || status_eq info.status error_on_submit) _ _
                (rw e) h))

      abbrev committed_effect : SubmittedTxStatus → Store → Store
      committed_effect committed m =
          update (update m (unsuccessful q hash) none) (cached q hash) none
      committed_effect _ m = m

      committed_step_lem :
          (s : SubmittedTxStatus) (e : info.status ≡ s) (t t' : Batch) (m : Store)
          → Stages t m
          → committed_step ldb js t q hash info ≡ ok t'
          → Stages t' (committed_effect s m)
      unfolding committed_step remove_from_unsuccessful_queue remove_cached_tx encode status_eq
      committed_step_lem committed e t t' m st h =
          let (t1, h1, h2) = >>=-ok _ _ (rw e at h) in
          stage_delete _ t1 t' (cached q hash) (update m (unsuccessful q hash) none) (lq, lh)
            (stage_delete _ t t1 (unsuccessful q hash) m (lq, lh) st (context-ok _ _ h1))
            (context-ok _ _ h2)
      committed_step_lem submitted e t t' m st h = stage_same t t' m st (rw e at h)
      committed_step_lem error_on_submit e t t' m st h = stage_same t t' m st (rw e at h)
      committed_step_lem error_on_commit e t t' m st h = stage_same t t' m st (rw e at h)

      -- The four steps in order give the description by families.
      effects-with_status :
          (p : Option Transaction) (s : SubmittedTxStatus) (e : info.status ≡ s) (m : Store)
          (k : Key)
          → committed_effect s
              (unsuccessful_effect s (
                pending_effect s
                  (cache_effect p (update m (status q hash) (value_of (js.tx_info.marshal info))))))
              k
            ≡ with_status js now q hash nhash info p m k
      unfolding with_status key_eq
      effects-with_status none submitted e m (height r) = ground arith
      effects-with_status _ _ e m _ = ground arith

      status_step_lem :
          (t t' : Batch) (m : Store)
          → Stages t m
          → status_step ldb js t q hash info ≡ ok t'
          → Stages t' (update m (status q hash) (value_of (js.tx_info.marshal info)))
      unfolding status_step encode
      status_step_lem t t' m st h =
          stage_put _ _ (js.tx_info.marshal info) t t' (status q hash) m (lq, lh) st h

      steps_lem :
          (p : Option Transaction) (t t' : Batch) (m : Store)
          → Stages t m
          → (do
            t1 ← status_step ldb js t q hash info
            t2 ← cache_step ldb js t1 q hash p
            t3 ← pending_step ldb js t2 q hash nhash info
            t4 ← unsuccessful_step ldb js t3 now q hash nhash info
            committed_step ldb js t4 q hash info)
            ≡ ok t'
          → Stages t' (with_status js now q hash nhash info p m)
      steps_lem p t t' m st h k wk =
          let (t1, h1, g1) = >>=-ok _ _ h in
          let (t2, h2, g2) = >>=-ok _ _ g1 in
          let (t3, h3, g3) = >>=-ok _ _ g2 in
          let (t4, h4, g4) = >>=-ok _ _ g3 in
          let s = info.status in
          committed_step_lem s refl t4 t' _
            (unsuccessful_step_lem s refl t3 t4 _
              (pending_step_lem s refl t2 t3 _
                (cache_step_lem p t1 t2 _ (status_step_lem t t1 m st h1) h2) h3)
              h4)
            g4 k wk
          ∙ effects-with_status p s refl m k

      pub write_tx_status_lem :
          (p : Option Transaction) (t t' : Batch) (m : Store)
          → Stages t m
          → write_tx_status ldb js t now q hash nhash info p ≡ ok t'
          → Stages t' (with_status js now q hash nhash info p m)
      unfolding write_tx_status
      write_tx_status_lem = steps_lem

  -- A method that writes either did, or failed and left the database as it was.
  abbrev pub Outcome : Store → Db → Result (Unit {0}) × Db → Type 0
  Outcome m db (ok u, db') = Represents db' m
  Outcome m db (err e, db') = db' ≡ db

  pub keep_lem :
      (js : Codecs) (m : Store) (db : Db) (r : Result Db)
      → ((d : Db) → r ≡ ok d → Represents d m)
      → Outcome m db (keep ldb js db r)
  unfolding keep
  keep_lem js m db (ok d) f = f d refl
  keep_lem js m db (err e) f = refl

  pub committed_lem :
      (t : Batch) (d : Db) (m : Store) → Stages t m → ldb.commit t ≡ ok d → Represents d m
  committed_lem t d m st h k wk = laws.commit_ok t d (encode k) h ∙ st k wk

  pub transaction_lem :
      (js : Codecs) (now q : ℕ) (hash nhash : Bytes) (info : SubmittedTxInfo)
      (p : Option Transaction) (db d : Db) (m : Store)
      → q < u64
      → IsHash hash
      → Represents db m
      → (do
        t ← context (codes "failed to open leveldb transaction") (ldb.open_transaction db)
        t' ← write_tx_status ldb js t now q hash nhash info p
        ldb.commit t')
        ≡ ok d
      → Represents d (with_status js now q hash nhash info p m)
  transaction_lem js now q hash nhash info p db d m lq lh r h =
      let (t, opened, h1) = >>=-ok _ _ h in
      let (t', written, done) = >>=-ok _ _ h1 in
      committed_lem t' d _
        (write_tx_status_lem js now q hash nhash lq lh info p t t' m
          (λ k wk. laws.open_ok db t (encode k) (context-ok _ _ opened) ∙ r k wk) written)
        done
