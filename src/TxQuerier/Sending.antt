-- ===== src/TxQuerier/Sending.antt =====
-- The loop over the transactions of a page in SearchTransactions (internal/txquerier/txquerier.go):
-- what it sends.
use mathlib.Core.Path.{subst}
use neutron_query_relayer.Prelude.{
  ◌≡◌, sym, refl, Bool, true, false, none, some, List, [], ◌∷◌, ◌++◌, append_assoc, append-nil,
  codes, if◌then◌else◌,
}
use neutron_query_relayer.Errors.{Result, ok, err}
use neutron_query_relayer.Exec.{Exec, pure, wrapping, bind_rule, ◌>>=◌}
use neutron_query_relayer.Loop.{Step, more, done}
use neutron_query_relayer.Relay.{Transaction}
use neutron_query_relayer.TxQuerier.{
  proof_delivery, ChainClient, FoundTx, Sent, crypto_proof_from_merkle_proof, proven, prove_one,
  takes_done, prove_all,
}

-- The data, the height and the proof of inclusion of a found transaction.
abbrev pub SentFor : FoundTx → Transaction → Type 0
SentFor found transaction =
    (transaction.tx.tx_data ≡ found.tx)
    × (transaction.height ≡ found.height)
    × (transaction.tx.inclusion_proof ≡ crypto_proof_from_merkle_proof found.proof)

-- One transaction for each found one, in their order.
abbrev pub Sends : List FoundTx → List Transaction → Type 0
Sends [] [] = Unit
Sends [] (x ∷ xs) = ⊥
Sends (f ∷ fs) [] = ⊥
Sends (f ∷ fs) (x ∷ xs) = SentFor f x × Sends fs xs

Sends-append :
    (fs : List FoundTx) (xs : List Transaction) (f : FoundTx) (x : Transaction)
    → Sends fs xs
    → SentFor f x
    → Sends (fs ++ f ∷ []) (xs ++ x ∷ [])
Sends-append [] [] f x h k = (k, tt)
Sends-append [] (y ∷ ys) f x h k = absurd h
Sends-append (g ∷ gs) [] f x h k = absurd h
Sends-append (g ∷ gs) (y ∷ ys) f x (h, hs) k = (h, Sends-append gs ys f x hs k)

abbrev OneFor : FoundTx → Result Transaction → Type 0
OneFor found (err e) = Unit
OneFor found (ok x) = SentFor found x

module _ {W : Type 0} (t : ChainClient W) where
  -- The first ones were sent.
  abbrev pub SendsFirst : List FoundTx → List Transaction → Type 0
  SendsFirst all sent =
      (before : List FoundTx) × (after : List FoundTx) × (all ≡ before ++ after) × Sends before sent

  -- The `select` of some send took `ctx.Done()`.
  abbrev pub IsCancelled : Type 0
  IsCancelled = (w : W) × (t.takes_done w ≡ true)

  -- What the loop over a page's transactions sends, when those before were sent.
  abbrev pub Proved : List FoundTx → List FoundTx → Result (Step (List Transaction) Sent) → Type 0
  Proved before txs (err e) = ⊥
  Proved before txs (ok (more sent)) = Sends (before ++ txs) sent
  Proved before txs (ok (done (sent, none))) = IsCancelled × SendsFirst (before ++ txs) sent
  Proved before txs (ok (done (sent, some e))) = SendsFirst (before ++ txs) sent

  Proved-cons :
      (before : List FoundTx) (tx : FoundTx) (txs : List FoundTx)
      (r : Result (Step (List Transaction) Sent))
      → Proved (before ++ tx ∷ []) txs r
      → Proved before (tx ∷ txs) r
  Proved-cons before tx txs (err e) h = absurd h
  Proved-cons before tx txs (ok (more sent)) h =
      subst (λ fs. Sends fs sent) (append_assoc before (tx ∷ []) txs) h
  Proved-cons before tx txs (ok (done (sent, none))) (c, h) =
      (c, subst (λ fs. SendsFirst fs sent) (append_assoc before (tx ∷ []) txs) h)
  Proved-cons before tx txs (ok (done (sent, some e))) h =
      subst (λ fs. SendsFirst fs sent) (append_assoc before (tx ∷ []) txs) h

  prove_one-OneFor : (found : FoundTx) (w : W) → OneFor found (prove_one t found w).0
  unfolding prove_one proven
  prove_one-OneFor found w =
      bind_rule (λ r _. OneFor found r)
        (wrapping (codes "could not proof transaction with hash")
          (proof_delivery t found.height found.index))
        (λ delivery. pure (proven t found delivery)) w (λ delivery _. (refl, refl, refl))
        (λ x _. tt)

  after_take :
      (before : List FoundTx) (tx : FoundTx) (txs : List FoundTx) (sent : List Transaction) (s : W)
      (b : Bool) (rest : Exec W (Step (List Transaction) Sent))
      → t.takes_done s ≡ b
      → Sends before sent
      → Proved before (tx ∷ txs) (rest s).0
      → Proved before (tx ∷ txs) ((if b then pure (done (sent, none)) else rest) s).0
  after_take before tx txs sent s true rest d h k = ((s, d), (before, tx ∷ txs, refl, h))
  after_take before tx txs sent s false rest d h k = k

  after_one :
      (before : List FoundTx) (tx : FoundTx) (txs : List FoundTx) (sent : List Transaction) (s : W)
      (res : Result Transaction)
      → OneFor tx res
      → Sends before sent
      → ((x : Transaction)
          → Sends (before ++ tx ∷ []) (sent ++ x ∷ [])
          → Proved (before ++ tx ∷ []) txs (prove_all t txs (sent ++ x ∷ []) s).0)
      → Proved before
          (tx ∷ txs)
          (elim res as (λ _. Exec W (Step (List Transaction) Sent)) [
            | ok transaction ↦ takes_done t >>= λ is_done.
                let rest = prove_all t txs (sent ++ transaction ∷ []) in
                if is_done then pure (done (sent, none)) else rest
            | err e ↦ pure (done (sent, some e))
          ]
            s).0
  unfolding takes_done
  after_one before tx txs sent s (err e) o h k = (before, tx ∷ txs, refl, h)
  after_one before tx txs sent s (ok x) o h k =
      after_take before tx txs sent s (t.takes_done s) (prove_all t txs (sent ++ x ∷ [])) refl h
        (Proved-cons before tx txs _ (k x (Sends-append before sent tx x h o)))

  pub prove_all-Proved :
      (before txs : List FoundTx) (sent : List Transaction) (w : W)
      → Sends before sent
      → Proved before txs (prove_all t txs sent w).0
  unfolding prove_all takes_done
  prove_all-Proved before [] sent w h = subst (λ fs. Sends fs sent) (sym (append-nil before)) h
  prove_all-Proved before (tx ∷ txs) sent w h =
      after_one before tx txs sent (prove_one t tx w).1 (prove_one t tx w).0 (prove_one-OneFor tx w)
        h (λ x k. prove_all-Proved (before ++ tx ∷ []) txs (sent ++ x ∷ []) _ k)
