-- ===== src/Storage/Spec.antt =====
-- What recording a transaction's status means, key family by key family.
use neutron_query_relayer.Prelude.{ℕ, Option, none, some, Bytes, bytes_eq, if◌then◌else◌}
use neutron_query_relayer.Errors.{Result, ok, err}
use neutron_query_relayer.Relay.{
  Transaction, PendingSubmittedTxInfo, UnsuccessfulTxInfo, SubmittedTxInfo, SubmittedTxStatus,
  submitted, error_on_submit, committed, error_on_commit,
}
use neutron_query_relayer.Storage.Interface.{Codecs}
use neutron_query_relayer.Storage.Keys.Injective.{
  Key, height, status, pending, unsuccessful, cached, key_eq,
}

-- A store as the program means it: a value for each key of each family.
abbrev pub Store : Type 0
Store = Key → Option Bytes

abbrev pub value_of : Result Bytes → Option Bytes
value_of (ok b) = some b
value_of (err e) = none

abbrev pub update : Store → Key → Option Bytes → Store
update m k v j = if key_eq k j then v else m j

-- The last height of a query.
abbrev pub with_height : Store → ℕ → Bytes → Store
with_height m q b = update m (height q) (some b)

module _ (js : Codecs) (now q : ℕ) (hash neutron_hash : Bytes) (info : SubmittedTxInfo) where
  abbrev pub pending_info : PendingSubmittedTxInfo
  pending_info = record { query_id = q; submitted_tx_hash = hash; neutron_hash = neutron_hash }

  abbrev pub unsuccessful_info : UnsuccessfulTxInfo
  unsuccessful_info = record {
    query_id = q;
    submitted_tx_hash = hash;
    neutron_hash = neutron_hash;
    error_time = now;
    status = info.status;
    message = info.message;
  }

  -- the entry of the queue of submitted transactions, from the one that was there
  abbrev pub pending_after : SubmittedTxStatus → Option Bytes → Option Bytes
  pending_after submitted old = value_of (js.pending_info.marshal pending_info)
  pending_after error_on_submit old = old
  pending_after committed old = none
  pending_after error_on_commit old = none

  abbrev pub unsuccessful_after : SubmittedTxStatus → Option Bytes → Option Bytes
  unsuccessful_after submitted old = old
  unsuccessful_after committed old = none
  unsuccessful_after error_on_submit old = value_of (js.unsuccessful_info.marshal unsuccessful_info)
  unsuccessful_after error_on_commit old = value_of (js.unsuccessful_info.marshal unsuccessful_info)

  abbrev pub cached_after : Option Transaction → SubmittedTxStatus → Option Bytes → Option Bytes
  cached_after processed committed old = none
  cached_after none submitted old = old
  cached_after none error_on_submit old = old
  cached_after none error_on_commit old = old
  cached_after (some tx) submitted old = value_of (js.transaction.marshal tx)
  cached_after (some tx) error_on_submit old = value_of (js.transaction.marshal tx)
  cached_after (some tx) error_on_commit old = value_of (js.transaction.marshal tx)

  -- The store after the status of `(q, hash)` is recorded: only the entries of that pair and of
  -- that neutron hash change.
  unfoldable pub with_status : Option Transaction → Store → Store
  unfolding key_eq
  with_status processed m (height r) = m (height r)
  with_status processed m (status r g) =
      if key_eq (status q hash) (status r g)
      then value_of (js.tx_info.marshal info)
      else m (status r g)
  with_status processed m (pending n) =
      if bytes_eq neutron_hash n then pending_after info.status (m (pending n)) else m (pending n)
  with_status processed m (unsuccessful r g) =
      if key_eq (unsuccessful q hash) (unsuccessful r g)
      then unsuccessful_after info.status (m (unsuccessful r g))
      else m (unsuccessful r g)
  with_status processed m (cached r g) =
      if key_eq (cached q hash) (cached r g)
      then cached_after processed info.status (m (cached r g))
      else m (cached r g)
