-- ===== src/Relayer/Checkpoint.antt =====
-- The height that processMessageTX (internal/relay/relayer.go) saves, as a checkpoint.
use neutron_query_relayer.Prelude.{
  ℕ, ◌≤◌, ◌<◌, ◌≡◌, true, false, Option, none, some, List, [], ◌∷◌, Bytes, codes, ◌∙◌, sym, ◌⊎◌,
  ◌&&◌, arith, ltb, All, All-map, if◌then◌else◌, Bool-cases, inl, inr,
}
use neutron_query_relayer.Errors.{Error, Result, ok, err, context-ok, Result-cases}
use neutron_query_relayer.Exec.{pure, wrapping, bind_rule, ◌>>◌}
use neutron_query_relayer.Relay.{Transaction}
use neutron_query_relayer.Relayer.{
  Relayer, process_tx, close_block, process_txs, stopped, finish, process_stream,
}

-- Ascending heights, as the search returns them.
abbrev pub IsAscending : List Transaction → Type 0
IsAscending [] = Unit
IsAscending (tx ∷ txs) = All (λ u. tx.height ≤ u.height) txs × IsAscending txs

module _ {W Float : Type 0} (r : Relayer W Float) (q : ℕ) where
  -- What the relayer relies on: the height that the storage holds for the query changes only when
  -- it is set, and a transaction counts as handled once the storage knows it or the processor
  -- returned without an error, and stays so.
  pub record Handling (Handled : Transaction → W → Type 0) (saved : W → Option ℕ) : Type 0 where
    pub set_kept :
        (h : ℕ) (w : W) (u : Transaction)
        → Handled u w
        → Handled u (r.storage.set_last_query_height q h w).1
    pub set_saved :
        (h : ℕ) (w : W)
        → (r.storage.set_last_query_height q h w).0 ≡ ok tt
        → saved (r.storage.set_last_query_height q h w).1 ≡ some h
    pub set_failed :
        (h : ℕ) (w : W) (e : Error)
        → (r.storage.set_last_query_height q h w).0 ≡ err e
        → saved (r.storage.set_last_query_height q h w).1 ≡ saved w
    pub exists_kept :
        (h : Bytes) (w : W) (u : Transaction)
        → Handled u w
        → Handled u (r.storage.tx_exists q h w).1
    pub exists_saved : (h : Bytes) (w : W) → saved (r.storage.tx_exists q h w).1 ≡ saved w
    pub exists_handled :
        (tx : Transaction) (w : W)
        → (r.storage.tx_exists q (r.tx_hash tx.tx.tx_data) w).0 ≡ ok true
        → Handled tx (r.storage.tx_exists q (r.tx_hash tx.tx.tx_data) w).1
    pub process_kept :
        (tx : Transaction) (w : W) (u : Transaction)
        → Handled u w
        → Handled u (r.tx_processor.process_and_submit q tx w).1
    pub process_saved :
        (tx : Transaction) (w : W) → saved (r.tx_processor.process_and_submit q tx w).1 ≡ saved w
    pub process_handled :
        (tx : Transaction) (w : W)
        → (r.tx_processor.process_and_submit q tx w).0 ≡ ok tt
        → Handled tx (r.tx_processor.process_and_submit q tx w).1

  module _ {Handled : Transaction → W → Type 0} {saved : W → Option ℕ}
      (laws : Handling Handled saved) where
    -- every transaction at or below the saved height is handled
    abbrev pub IsCheckpoint : List Transaction → W → Type 0
    IsCheckpoint txs w = (h : ℕ) → saved w ≡ some h → All (λ tx. tx.height ≤ h → Handled tx w) txs

    -- the saved height is below all that is still to come
    abbrev pub IsBelow : List Transaction → W → Type 0
    IsBelow txs w = (h : ℕ) → saved w ≡ some h → All (λ tx. h < tx.height) txs

    -- one transaction: what was handled stays so, the saved height stays, and the transaction is
    -- handled if no error came back
    abbrev pub Treated : Transaction → W → Result (Unit {0}) → W → Type 0
    Treated tx w res w' =
        ((u : Transaction) → Handled u w → Handled u w')
        × (saved w' ≡ saved w)
        × (res ≡ ok tt → Handled tx w')

    pub process_tx_lem :
        (tx : Transaction) (w : W) → Treated tx w (process_tx r q tx w).0 (process_tx r q tx w).1
    unfolding process_tx
    process_tx_lem tx w =
        let known = r.storage.tx_exists q (r.tx_hash tx.tx.tx_data) in
        bind_rule (Treated tx w) (wrapping (codes "failed to check tx existence") known)
          (λ b.
            if b
            then pure tt
            else wrapping (codes "failed to process txs") (r.tx_processor.process_and_submit q tx))
          w
          (elim [
            | true ↦ λ e. (
              laws.exists_kept _ w,
              laws.exists_saved _ w,
              λ _. laws.exists_handled tx w (context-ok _ _ e),
            )
            | false ↦ λ e. (
              λ u h. laws.process_kept tx _ u (laws.exists_kept _ w u h),
              laws.process_saved tx _ ∙ laws.exists_saved _ w,
              λ h. laws.process_handled tx _ (context-ok _ _ h),
            )
          ])
          (λ x e. (laws.exists_kept _ w, laws.exists_saved _ w, λ h. cc))

    abbrev Keeps : W → W → Type 0
    Keeps w w' = (u : Transaction) → Handled u w → Handled u w'

    pub set_height_lem :
        (h : ℕ) (w : W)
        → (saved (r.storage.set_last_query_height q h w).1 ≡ some h)
          ⊎ (saved (r.storage.set_last_query_height q h w).1 ≡ saved w)
    set_height_lem h w = elim (Result-cases (r.storage.set_last_query_height q h w).0) [
      | inl (u, e) ↦ inl (laws.set_saved h w e)
      | inr (x, e) ↦ inr (laws.set_failed h w x e)
    ]

    -- the height of the block before is saved only when a transaction above it has come
    close_block_lem :
        (last : ℕ) (tx : Transaction) (txs : List Transaction) (w : W)
        → IsAscending (tx ∷ txs)
        → IsBelow (tx ∷ txs) w
        → Keeps w (close_block r q last tx.height w).1
          × IsBelow (tx ∷ txs) (close_block r q last tx.height w).1
    unfolding close_block
    close_block_lem last tx txs w asc below = elim (Bool-cases (ltb last tx.height && ltb 0 last)) [
      | inr later ↦ rw later ((λ u h. h), below)
      | inl now ↦ rw now (
        λ u h. laws.set_kept last w u h,
        λ h e. elim (set_height_lem last w) [
          | inl set ↦
              let lt : h < tx.height = ground arith in
              (lt, All-map _ _ txs (λ u le. omega arith) asc.0)
          | inr same ↦ below h (sym same ∙ e)
        ],
      )
    ]

    -- the loop: handled stays handled, the saved height stays a checkpoint, and without an error
    -- all is handled
    abbrev Ended : List Transaction → W → Result ℕ → W → Type 0
    Ended txs w res w' =
        Keeps w w' × IsCheckpoint txs w' × ((l : ℕ) → res ≡ ok l → All (λ tx. Handled tx w') txs)

    below-IsCheckpoint : (txs : List Transaction) (w : W) → IsBelow txs w → IsCheckpoint txs w
    below-IsCheckpoint txs w b h e = All-map _ _ txs (λ u lt le. absurd (omega arith)) (b h e)

    process_txs_lem :
        (last : ℕ) (txs : List Transaction) (w : W)
        → IsAscending txs
        → IsBelow txs w
        → Ended txs w (process_txs r q last txs w).0 (process_txs r q last txs w).1
    unfolding process_txs
    process_txs_lem last [] w asc below = ((λ u h. h), (λ h e. tt), (λ l e. tt))
    process_txs_lem last (tx ∷ txs) w asc below =
        let (kept, below1) = close_block_lem last tx txs w asc below in
        let w1 = (close_block r q last tx.height w).1 in
        let (kept2, same, done) = process_tx_lem tx w1 in
        let w2 = (process_tx r q tx w1).1 in
        let below2 : IsBelow (tx ∷ txs) w2 = λ h e. below1 h (sym same ∙ e) in
        let (kept3, checked, all) =
          process_txs_lem tx.height txs w2 asc.1 (λ h e. (below2 h e).1) in
        bind_rule (Ended (tx ∷ txs) w) (close_block r q last tx.height)
          (λ _. process_tx r q tx >> process_txs r q tx.height txs) w
          (λ _ _.
            bind_rule (Ended (tx ∷ txs) w) (process_tx r q tx) (λ _. process_txs r q tx.height txs)
              w1
              (λ a e. (
                (λ u h. kept3 u (kept2 u (kept u h))),
                (λ h e'. ((λ _. kept3 tx (done e)), checked h e')),
                (λ l e'. (kept3 tx (done e), all l e')),
              ))
              (λ x e. (
                (λ u h. kept2 u (kept u h)),
                below-IsCheckpoint (tx ∷ txs) w2 below2,
                (λ l e'. cc),
              )))
          (λ x e. (kept, below-IsCheckpoint (tx ∷ txs) w1 below1, (λ l e'. cc)))

    All-IsCheckpoint :
        (txs : List Transaction) (w : W) → All (λ tx. Handled tx w) txs → IsCheckpoint txs w
    All-IsCheckpoint txs w a h e = All-map _ _ txs (λ u d _. d) a

    -- what the processing of a stream leaves
    abbrev pub Processed : List Transaction → Result (Unit {0}) → W → Type 0
    Processed txs res w' = IsCheckpoint txs w' × (res ≡ ok tt → All (λ tx. Handled tx w') txs)

    finish_lem :
        (last : ℕ) (txs : List Transaction) (w : W)
        → All (λ tx. Handled tx w) txs
        → Processed txs (finish r q last w).0 (finish r q last w).1
    unfolding finish
    finish_lem last txs w a = elim (Bool-cases (ltb 0 last)) [
      | inr none_came ↦ rw none_came (All-IsCheckpoint txs w a, λ _. a)
      | inl some_came ↦
          let a' = All-map _ _ txs (λ u d. laws.set_kept last w u d) a in
          rw some_came (All-IsCheckpoint txs _ a', λ _. a')
    ]

    ended_lem :
        (last : ℕ) (txs : List Transaction) (stop : Option Error) (w : W)
        → All (λ tx. Handled tx w) txs
        → Processed txs
            ((stopped r stop >> finish r q last) w).0
            ((stopped r stop >> finish r q last) w).1
    unfolding stopped
    ended_lem last txs none w a = finish_lem last txs w a
    ended_lem last txs (some e) w a = (All-IsCheckpoint txs w a, λ h. cc)

    -- For a stream of transactions of ascending heights, all above the height saved when it
    -- starts, and parts that keep what was handled: however the processing ends, every transaction
    -- at or below the height then saved was handled, and if no error came, all were.
    pub process_stream-checkpoint :
        (txs : List Transaction) (stop : Option Error) (w : W)
        → IsAscending txs
        → IsBelow txs w
        → Processed txs (process_stream r q (txs, stop) w).0 (process_stream r q (txs, stop) w).1
    unfolding process_stream
    process_stream-checkpoint txs stop w asc below =
        let (kept, checked, all) = process_txs_lem 0 txs w asc below in
        bind_rule (Processed txs) (process_txs r q 0 txs)
          (λ last. stopped r stop >> finish r q last) w
          (λ last e. ended_lem last txs stop (process_txs r q 0 txs w).1 (all last e))
          (λ x e. (checked, λ h. cc))
