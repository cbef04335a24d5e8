-- ===== src/Relay.antt =====
-- The data that the parts exchange: internal/relay/storage.go, txprocessor.go and subscriber.go,
-- with the fields that the relayer reads or writes of the types of other repositories.
use neutron_query_relayer.Prelude.{ℕ, List, Bytes}

-- crypto.Proof of cometbft, as internal/txquerier fills it
pub record Proof : Type 0 where
  pub total : ℕ
  pub index : ℕ
  pub leaf_hash : Bytes
  pub aunts : List Bytes

-- neutrontypes.TxValue; the execution result is carried along unread
pub record TxValue : Type 0 where
  pub inclusion_proof : Proof
  pub delivery_proof : Proof
  pub response : Bytes
  pub tx_data : Bytes

pub record Transaction : Type 0 where
  pub tx : TxValue
  pub height : ℕ

pub record PendingSubmittedTxInfo : Type 0 where
  pub query_id : ℕ
  pub submitted_tx_hash : Bytes
  pub neutron_hash : Bytes

pub data SubmittedTxStatus : Type 0 where
  submitted error_on_submit committed error_on_commit : SubmittedTxStatus

pub record SubmittedTxInfo : Type 0 where
  pub status : SubmittedTxStatus
  pub message : Bytes

pub record UnsuccessfulTxInfo : Type 0 where
  pub query_id : ℕ
  pub submitted_tx_hash : Bytes
  pub neutron_hash : Bytes
  pub error_time : ℕ
  pub status : SubmittedTxStatus
  pub message : Bytes

-- neutrontypes.KVKey
pub record KvKey : Type 0 where
  pub path : Bytes
  pub key : Bytes

-- neutrontypes.RegisteredQuery
pub record RegisteredQuery : Type 0 where
  pub id : ℕ
  pub owner : Bytes
  pub query_type : Bytes
  pub keys : List KvKey
  pub transactions_filter : Bytes
  pub connection_id : Bytes
  pub update_period : ℕ
  pub last_submitted_result_local_height : ℕ
  pub remote_revision_number : ℕ
  pub remote_revision_height : ℕ

pub record MessageKv : Type 0 where
  pub query_id : ℕ
  pub kv_keys : List KvKey

pub record MessageTx : Type 0 where
  pub query_id : ℕ
  pub transactions_filter : Bytes
