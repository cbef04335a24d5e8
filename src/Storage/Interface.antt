-- ===== src/Storage/Interface.antt =====
-- What internal/storage/leveldb.go relies on: the goleveldb database, and encoding/json at the
-- types that it stores. Both are parameters of the model; `Laws` is what their documentation says.
use neutron_query_relayer.Prelude.{
  ◌≡◌, Bool, true, false, Option, none, some, List, Bytes, bytes_eq, if◌then◌else◌,
}
use neutron_query_relayer.Errors.{Result, ok, err, not_found}
use neutron_query_relayer.Relay.{
  Transaction, PendingSubmittedTxInfo, SubmittedTxInfo, UnsuccessfulTxInfo,
}

-- `Db` is a `*leveldb.DB`, `Batch` an open `*leveldb.Transaction` on it.
pub record LevelDb (Db Batch : Type 0) : Type 0 where
  pub get : Db → Bytes → Result Bytes
  pub has : Db → Bytes → Result Bool
  pub put : Db → Bytes → Bytes → Result Db
  pub open_transaction : Db → Result Batch
  pub batch_put : Batch → Bytes → Bytes → Result Batch
  pub batch_delete : Batch → Bytes → Result Batch
  pub commit : Batch → Result Db
  -- the values that an iterator over `util.BytesPrefix(prefix)` yields, in key order
  pub values : Db → Bytes → List Bytes

pub record Json (A : Type 0) : Type 0 where
  pub marshal : A → Result Bytes
  pub unmarshal : Bytes → Result A

pub record Codecs : Type 0 where
  pub tx_info : Json SubmittedTxInfo
  pub pending_info : Json PendingSubmittedTxInfo
  pub unsuccessful_info : Json UnsuccessfulTxInfo
  pub transaction : Json Transaction
  -- decoding into a `map[string]interface{}`, whose result is not used
  pub unmarshal_map : Bytes → Result (Unit {0})

abbrev pub write : (Bytes → Option Bytes) → Bytes → Option Bytes → Bytes → Option Bytes
write m k v j = if bytes_eq k j then v else m j

-- A database holds a map from keys to values, and so does an open transaction: the state that
-- its commit gives.
pub record Laws {Db Batch : Type 0} (ldb : LevelDb Db Batch) : Type 0 where
  pub contents : Db → Bytes → Option Bytes
  pub staged : Batch → Bytes → Option Bytes
  pub get_ok : (d : Db) (k v : Bytes) → ldb.get d k ≡ ok v → contents d k ≡ some v
  pub get_missing : (d : Db) (k : Bytes) → ldb.get d k ≡ err not_found → contents d k ≡ none
  pub has_ok :
      (d : Db) (k : Bytes) (b : Bool)
      → ldb.has d k ≡ ok b
      → b ≡ elim (contents d k) [ none ↦ false | some v ↦ true ]
  pub put_ok :
      (d d' : Db) (k v j : Bytes)
      → ldb.put d k v ≡ ok d'
      → contents d' j ≡ write (contents d) k (some v) j
  pub open_ok :
      (d : Db) (t : Batch) (j : Bytes) → ldb.open_transaction d ≡ ok t → staged t j ≡ contents d j
  pub batch_put_ok :
      (t t' : Batch) (k v j : Bytes)
      → ldb.batch_put t k v ≡ ok t'
      → staged t' j ≡ write (staged t) k (some v) j
  pub batch_delete_ok :
      (t t' : Batch) (k j : Bytes)
      → ldb.batch_delete t k ≡ ok t'
      → staged t' j ≡ write (staged t) k none j
  pub commit_ok : (t : Batch) (d : Db) (j : Bytes) → ldb.commit t ≡ ok d → contents d j ≡ staged t j
