-- ===== src/Relayer/Coverage.antt =====
-- The search for transactions (internal/txquerier/txquerier.go) with the processing of what it
-- sends (processMessageTX of internal/relay/relayer.go).
use mathlib.Core.Path.{subst}
use neutron_query_relayer.Prelude.{
  ℕ, ◌≤◌, ◌<◌, ◌≡◌, ◌≢◌, ◌∙◌, sym, false, ◌&&◌, Option, none, some, List, [], ◌∷◌, ◌++◌, Bytes, ltb,
  All, All-map, All-append, inl, inr, Bool-cases, length, arith,
}
use neutron_query_relayer.Errors.{Error, Result, ok}
use neutron_query_relayer.Exec.{bind_rule, ◌>>◌}
use neutron_query_relayer.Relay.{Transaction}
use neutron_query_relayer.TxQuerier.{ChainClient, FoundTx, Sent, search_transactions}
use neutron_query_relayer.TxQuerier.Sending.{SentFor, Sends}
use neutron_query_relayer.TxQuerier.Complete.{Serves, Complete, search_transactions-Complete}
use neutron_query_relayer.Relayer.{
  Relayer, process_tx, close_block, process_txs, stopped, finish, process_stream,
}
use neutron_query_relayer.Relayer.Checkpoint.{
  IsAscending, Handling, Processed, set_height_lem, process_tx_lem, process_stream-checkpoint,
}

-- The context is not cancelled during the search: no `select` of a send takes `ctx.Done()`.
pub record Uncancelled {W : Type 0} (t : ChainClient W) : Type 0 where
  pub goes_on : (w : W) → t.takes_done w ≡ false

-- Ascending heights of what the node finds.
abbrev pub IsOrdered : List FoundTx → Type 0
IsOrdered [] = Unit
IsOrdered (f ∷ fs) = All (λ g. f.height ≤ g.height) fs × IsOrdered fs

module _ {A : Type 0} (P : A → Type 0) where
  All-left : (xs ys : List A) → All P (xs ++ ys) → All P xs
  All-left [] ys h = tt
  All-left (x ∷ xs) ys (h, hs) = (h, All-left xs ys hs)

  All-right : (xs ys : List A) → All P (xs ++ ys) → All P ys
  All-right [] ys h = h
  All-right (x ∷ xs) ys (h, hs) = All-right xs ys hs

  All-both : (Q : A → Type 0) (xs : List A) → All P xs → All Q xs → All (λ x. P x × Q x) xs
  All-both Q [] h k = tt
  All-both Q (x ∷ xs) (h, hs) (k, ks) = ((h, k), All-both Q xs hs ks)

All-any : {A : Type 0} {P : A → Type 0} → ((x : A) → P x) → (xs : List A) → All P xs
All-any k [] = tt
All-any k (x ∷ xs) = (k x, All-any k xs)

-- what is in front of the others is not above them
IsOrdered-append :
    (xs ys : List FoundTx)
    → IsOrdered (xs ++ ys)
    → IsOrdered xs × All (λ u. All (λ v. v.height ≤ u.height) xs) ys
IsOrdered-append [] ys h = (tt, All-any (λ u. tt) ys)
IsOrdered-append (x ∷ xs) ys (h, hs) =
    let (o, a) = IsOrdered-append xs ys hs in
    ((All-left _ xs ys h, o), All-both (λ u. x.height ≤ u.height) _ ys (All-right _ xs ys h) a)

module _ (P : Transaction → Type 0) (Q : FoundTx → Type 0) where
  to_found :
      ((f : FoundTx) (x : Transaction) → SentFor f x → P x → Q f)
      → (fs : List FoundTx) (xs : List Transaction) → Sends fs xs
      → All P xs
      → All Q fs
  to_found k [] xs s h = tt
  to_found k (f ∷ fs) [] s h = absurd s
  to_found k (f ∷ fs) (x ∷ xs) (s, ss) (h, hs) = (k f x s h, to_found k fs xs ss hs)

  to_sent :
      ((f : FoundTx) (x : Transaction) → SentFor f x → Q f → P x)
      → (fs : List FoundTx) (xs : List Transaction) → Sends fs xs
      → All Q fs
      → All P xs
  to_sent k fs [] s h = tt
  to_sent k [] (x ∷ xs) s h = absurd s
  to_sent k (f ∷ fs) (x ∷ xs) (s, ss) (h, hs) = (k f x s h, to_sent k fs xs ss hs)

Sends-IsAscending :
    (fs : List FoundTx) (xs : List Transaction) → Sends fs xs → IsOrdered fs → IsAscending xs
Sends-IsAscending [] [] s o = tt
Sends-IsAscending [] (x ∷ xs) s o = absurd s
Sends-IsAscending (f ∷ fs) [] s o = absurd s
Sends-IsAscending (f ∷ fs) (x ∷ xs) (s, ss) (o, os) = (
  to_sent (λ u. x.height ≤ u.height) (λ g. f.height ≤ g.height)
      (λ g u k le. omega (arith, s.1, k.1, le)) fs xs ss o,
  Sends-IsAscending fs xs ss os,
)

module _ {W Float : Type 0} (r : Relayer W Float) (q : ℕ) {Handled : Transaction → W → Type 0}
    {saved : W → Option ℕ} (laws : Handling r q Handled saved) where
  abbrev IsUnder : ℕ → W → Type 0
  IsUnder b w = (h : ℕ) → saved w ≡ some h → h < b

  close_block-IsUnder :
      (last next b : ℕ) (w : W) → next ≤ b → IsUnder b w → IsUnder b (close_block r q last next w).1
  unfolding close_block
  close_block-IsUnder last next b w le u = elim (Bool-cases (ltb last next && ltb 0 last)) [
    | inr n ↦ rw n u
    | inl now ↦ rw now (λ h e. elim (set_height_lem r q laws last w) [
      | inl set ↦ let lt : h < next = ground arith in omega (arith, lt, le)
      | inr same ↦ u h (sym same ∙ e)
    ])
  ]

  process_txs-IsUnder :
      (last b : ℕ) (txs : List Transaction) (w : W)
      → All (λ tx. tx.height ≤ b) txs
      → IsUnder b w
      → IsUnder b (process_txs r q last txs w).1
  unfolding process_txs
  process_txs-IsUnder last b [] w a u = u
  process_txs-IsUnder last b (tx ∷ txs) w (le, a) u =
      let w1 = (close_block r q last tx.height w).1 in
      let u1 : IsUnder b w1 = close_block-IsUnder last tx.height b w le u in
      bind_rule (λ _ s. IsUnder b s) (close_block r q last tx.height)
        (λ _. process_tx r q tx >> process_txs r q tx.height txs) w
        (λ _ _.
          bind_rule (λ _ s. IsUnder b s) (process_tx r q tx) (λ _. process_txs r q tx.height txs) w1
            (λ _ _. process_txs-IsUnder tx.height b txs _ a (after_tx tx b w1 u1))
            (λ _ _. after_tx tx b w1 u1))
        (λ _ _. u1)
    where
      after_tx :
          (tx : Transaction) (b : ℕ) (w : W) → IsUnder b w → IsUnder b (process_tx r q tx w).1
      after_tx tx b w u h e =
          let (kept, same, done) = process_tx_lem r q laws tx w in u h (sym same ∙ e)

  -- a search that failed leaves the saved height below what was not sent
  failed-IsUnder :
      (b : ℕ) (txs : List Transaction) (x : Error) (w : W)
      → All (λ tx. tx.height ≤ b) txs
      → IsUnder b w
      → IsUnder b (process_stream r q (txs, some x) w).1
  unfolding process_stream stopped
  failed-IsUnder b txs x w a u =
      bind_rule (λ _ s. IsUnder b s) (process_txs r q 0 txs)
        (λ last. stopped r (some x) >> finish r q last) w
        (λ last _. process_txs-IsUnder 0 b txs w a u) (λ _ _. process_txs-IsUnder 0 b txs w a u)

  -- A transaction was sent for the found one, and it is handled.
  abbrev pub HandledFor : FoundTx → W → Type 0
  HandledFor f w = (x : Transaction) × SentFor f x × Handled x w

  -- Every found transaction at or below the saved height is handled, and all are if there was no
  -- error.
  abbrev pub Covered : List FoundTx → Result (Unit {0}) → W → Type 0
  Covered fs res w =
      ((h : ℕ) → saved w ≡ some h → All (λ f. f.height ≤ h → HandledFor f w) fs)
      × (res ≡ ok tt → All (λ f. HandledFor f w) fs)

  -- Every found transaction is above the saved height.
  abbrev pub Below : List FoundTx → W → Type 0
  Below fs w = All (λ f. IsUnder f.height w) fs

  Processed-Covered :
      (fs : List FoundTx) (xs : List Transaction) (res : Result (Unit {0})) (w : W)
      → Sends fs xs
      → Processed r q laws xs res w
      → Covered fs res w
  Processed-Covered fs xs res w s (up_to, all) = (
    λ h e.
        to_found (λ x. x.height ≤ h → Handled x w) (λ f. f.height ≤ h → HandledFor f w)
          (λ f x k d le. (x, k, d (omega (arith, k.1, le)))) fs xs s (up_to h e),
    λ e. to_found (λ x. Handled x w) (λ f. HandledFor f w) (λ f x k d. (x, k, d)) fs xs s (all e),
  )

  stream-Covered :
      (fs : List FoundTx) (xs : List Transaction) (stop : Option Error) (w : W)
      → Sends fs xs
      → IsOrdered fs
      → Below fs w
      → Covered fs (process_stream r q (xs, stop) w).0 (process_stream r q (xs, stop) w).1
  stream-Covered fs xs stop w s o b = Processed-Covered fs xs _ _ s (
      process_stream-checkpoint r q laws xs stop w (Sends-IsAscending fs xs s o) (λ h e.
        to_sent (λ x. h < x.height) (λ f. IsUnder f.height w) (λ f x k u. omega (arith, k.1, u h e))
          fs xs s b))

  failed-fails :
      (xs : List Transaction) (x : Error) (w : W) → (process_stream r q (xs, some x) w).0 ≢ ok tt
  unfolding process_stream stopped
  failed-fails xs x w =
      bind_rule (λ res _. res ≢ ok tt) (process_txs r q 0 xs)
        (λ last. stopped r (some x) >> finish r q last) w (λ last _ h. cc) (λ y _ h. cc)

  -- what was not sent is above the saved height
  not_sent :
      (before after : List FoundTx) (xs : List Transaction) (x : Error) (w : W) (h : ℕ)
      → saved (process_stream r q (xs, some x) w).1 ≡ some h
      → Sends before xs
      → All (λ u. All (λ v. v.height ≤ u.height) before) after
      → Below after w
      → All (λ f. f.height ≤ h → HandledFor f (process_stream r q (xs, some x) w).1) after
  not_sent before after xs x w h e s le b =
      All-map _ _ after
        (λ u k at_most.
          let lt : h < u.height =
            failed-IsUnder u.height xs x w
              (to_sent (λ y. y.height ≤ u.height) (λ v. v.height ≤ u.height)
                (λ v y p m. omega (arith, p.1, m)) before xs s k.0)
              k.1 h e in
          absurd (omega (arith, lt, at_most)))
        (All-both _ _ after le b)

  sent-Covered :
      (t : ChainClient W) (all : List FoundTx) (sent : Sent) (w : W)
      → Uncancelled t
      → Complete t all sent
      → IsOrdered all
      → Below all w
      → Covered all (process_stream r q sent w).0 (process_stream r q sent w).1
  sent-Covered t all (xs, none) w un (inl c) o b = stream-Covered all xs none w c o b
  sent-Covered t all (xs, none) w un (inr ((s, d), _)) o b = let never = un.goes_on s in absurd (cc)
  sent-Covered t all (xs, some x) w un (before, after, a, s) o b =
      let (o1, le) = IsOrdered-append before after (subst IsOrdered a o) in
      let b' = subst (λ fs. Below fs w) a b in
      let (up_to, _) = stream-Covered before xs (some x) w s o1 (All-left _ before after b') in
      (
        λ h e.
            subst (All (λ f. f.height ≤ h → HandledFor f (process_stream r q (xs, some x) w).1))
              (sym a)
              (All-append _ before after (up_to h e)
                (not_sent before after xs x w h e s le (All-right _ before after b'))),
        λ e. absurd (failed-fails xs x w e),
      )

  -- If the node's answers are the pages of one list of transactions, each with its length, of
  -- ascending heights above the height saved when the processing starts, no send of the search
  -- takes the end of its context, the parts keep what was handled, and the fuel is greater than
  -- the length: the search ends, and after what it sent was processed, every transaction of the
  -- list at or below the height then saved was sent and handled, also when the search failed in
  -- the middle; if the processing gave no error, all of the list were.
  pub search_transactions-Covered :
      (t : ChainClient W) (query : Bytes) (all : List FoundTx) (fuel : ℕ) (w : W)
      → Serves t query all
      → Uncancelled t
      → length all < fuel
      → IsOrdered all
      → Below all (search_transactions t fuel query w).1
      → (sent : Sent) × ((search_transactions t fuel query w).0 ≡ ok (some sent))
        × Covered all
            (process_stream r q sent (search_transactions t fuel query w).1).0
            (process_stream r q sent (search_transactions t fuel query w).1).1
  search_transactions-Covered t query all fuel w law un enough o b =
      let (sent, e, c) = search_transactions-Complete t query all law fuel w enough in
      (sent, e, sent-Covered t all sent _ un c o b)
