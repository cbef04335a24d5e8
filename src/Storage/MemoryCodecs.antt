-- ===== src/Storage/MemoryCodecs.antt =====
-- Codecs for the database of Storage/Memory, that read back the entries of the queue.
use mathlib.Core.Path.{subst}
use neutron_query_relayer.Prelude.{ℕ, zero, suc, refl, ◌≡◌, [], ◌∷◌, Bytes, codes}
use neutron_query_relayer.Errors.{Result, ok, err, plain}
use neutron_query_relayer.Relay.{
  Proof, Transaction, PendingSubmittedTxInfo, SubmittedTxStatus, submitted, error_on_submit,
  committed, error_on_commit,
}
use neutron_query_relayer.Storage.Interface.{Codecs}

-- a hash and what follows it, apart by a zero
join : Bytes → Bytes → Bytes
join [] n = 0 ∷ n
join (x ∷ h) n = suc x ∷ join h n

split : Bytes → Bytes × Bytes
split [] = ([], [])
split (zero ∷ n) = ([], n)
split (suc x ∷ r) = let (h, n) = split r in (x ∷ h, n)

split-join : (h n : Bytes) → split (join h n) ≡ (h, n)
unfolding split join
split-join [] n = refl
split-join (x ∷ h) n = rw (split-join h n) refl

abbrev refuse {ℓ} : {A : Type ℓ} → Bytes → Result A
refuse b = err (plain (codes "bad json"))

abbrev status_code : SubmittedTxStatus → ℕ
status_code submitted = 0
status_code error_on_submit = 1
status_code committed = 2
status_code error_on_commit = 3

abbrev no_proof : Proof
no_proof = record { total = 0; index = 0; leaf_hash = []; aunts = [] }

abbrev pub a_transaction : ℕ → Bytes → Transaction
a_transaction height bytes = record {
  tx = record {
    inclusion_proof = no_proof;
    delivery_proof = no_proof;
    response = [];
    tx_data = bytes;
  };
  height = height;
}

pub read_pending : Bytes → Result PendingSubmittedTxInfo
unfolding split
read_pending [] = refuse []
read_pending (q ∷ bytes) =
    let (h, n) = split bytes in
    ok (record { query_id = q; submitted_tx_hash = h; neutron_hash = n })

pub write_pending : PendingSubmittedTxInfo → Bytes
unfolding join
write_pending i = i.query_id ∷ join i.submitted_tx_hash i.neutron_hash

abbrev read_transaction : Bytes → Result Transaction
read_transaction [] = refuse []
read_transaction (h ∷ bytes) = ok (a_transaction h bytes)

abbrev pub memory_codecs : Codecs
memory_codecs = record {
  tx_info = record { marshal = λ i. ok (status_code i.status ∷ i.message); unmarshal = refuse };
  pending_info = record { marshal = λ i. ok (write_pending i); unmarshal = read_pending };
  unsuccessful_info = record {
    marshal = λ i. ok (i.query_id ∷ status_code i.status ∷ i.message);
    unmarshal = refuse;
  };
  transaction = record {
    marshal = λ t. ok (t.height ∷ t.tx.tx_data);
    unmarshal = read_transaction;
  };
  unmarshal_map = λ b. ok tt;
}

read_written : (info : PendingSubmittedTxInfo) → read_pending (write_pending info) ≡ ok info
unfolding read_pending write_pending
read_written info = rw (split-join info.submitted_tx_hash info.neutron_hash) refl

ok_injective : {a b : Bytes} → ok a ≡ ok b → a ≡ b
ok_injective h = cc

pub memory_unmarshals :
    (info : PendingSubmittedTxInfo) (b : Bytes)
    → memory_codecs.pending_info.marshal info ≡ ok b
    → memory_codecs.pending_info.unmarshal b ≡ ok info
memory_unmarshals info b h =
    subst (λ c. read_pending c ≡ ok info) (ok_injective h) (read_written info)
