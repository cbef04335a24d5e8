-- ===== src/Examples/Sending.antt =====
-- The sender's theorems at an account.
use neutron_query_relayer.Prelude.{
  ℕ, ◌+◌, ◌≡◌, ◌⊎◌, refl, true, some, List, [], ◌∷◌, Bytes, codes, ltb,
}
use neutron_query_relayer.Errors.{Error, ok, err}
use neutron_query_relayer.Exec.{pure, ◌>>◌}
use neutron_query_relayer.TxSender.{Env, TxSender, send}
use neutron_query_relayer.TxSender.Sequence.{Sent, send-Sent}
use neutron_query_relayer.TxSender.Gas.{Accepted, send-Accepted}
use neutron_query_relayer.Submitter.{
  Msg, other, submit_query_result, kv_results, SubmitterImpl, result_msg, submit_kv_proof,
}
use neutron_query_relayer.Submitter.Messages.{Valid, submit_kv_proof-sends}

-- prices are numbers, and so is the world: how many transactions it took
abbrev pub env : Env ℕ (Msg ℕ ℕ) ℕ ℕ
env = record {
  decimals = record {
    to_float = λ d. ok d;
    times = λ a b. a + b;
    greater = λ a b. ltb b a;
    format = λ a. a ∷ [];
  };
  default_gas_prices = codes "1untrn";
  gas_limit = 1000;
  denom = codes "untrn";
  max_gas_price = 5;
  gas_price_multiplier = 2;
  key = ok (codes "key");
  get_address = λ info. ok (codes "me");
  marshal_account_request = λ address. ok address;
  marshal_price_request = λ denom. ok denom;
  abci_query = λ path req. pure (record { code = 0; value = codes "v"; log = [] });
  unmarshal_account_response = λ value. ok value;
  unmarshal_account = λ value. ok (record { account_number = 3; sequence = 8 });
  unmarshal_price = λ value. ok 4;
  base_factory = record { account_number = 0; sequence = 0; gas_prices = []; gas = 0 };
  set_signatures = λ txb sequence. ok txb;
  marshal_simulate_request = λ bz. ok bz;
  unmarshal_simulation = λ value. ok (some 200);
  adjust_gas = λ gas. gas + 100;
  build_unsigned_tx = λ txf msgs. ok (codes "tx");
  sign = λ txf tx. ok tx;
  encode_tx = λ tx. ok tx;
  broadcast_tx_sync = λ bz w. (ok (record { code = 0; log = [] }), w + 1);
  tx_hash = λ bz. codes "hash";
}

abbrev sender : TxSender ℕ
sender = record { sequence = 7; account_number = 3; world = 0 }

abbrev msgs : List (Msg ℕ ℕ)
msgs = other 1 ∷ []

send-Sent_example : Sent env sender (send env msgs sender).0 (send env msgs sender).1
send-Sent_example = send-Sent env msgs sender

send-Accepted_example : Accepted env msgs sender (send env msgs sender).0
send-Accepted_example = send-Accepted env msgs sender refl

-- the same transaction, sent: its hash comes back and the sequence grows
send_run :
    send env msgs sender
    ≡ (ok (codes "hash"), record { sequence = 8; account_number = 3; world = 1 })
unfolding send
send_run = refl

abbrev submitter : SubmitterImpl ℕ ℕ ℕ ℕ ℕ
submitter = record {
  env = env;
  allow_kv_callbacks = true;
  client_id = codes "07-tendermint-0";
  validate = λ msg. ok tt;
}

submit_kv_proof-sends_example :
    ((address : Bytes) × Valid submitter 7 (kv_results 9 1 true []) address
      × (submit_kv_proof submitter 9 1 7 [] (other 1) sender
          ≡ (send env (
                  other 1
                  ∷ submit_query_result (result_msg submitter 7 address (kv_results 9 1 true []))
                  ∷ [])
                >> pure tt)
              sender))
    ⊎ ((e : Error) × (submit_kv_proof submitter 9 1 7 [] (other 1) sender ≡ (err e, sender)))
submit_kv_proof-sends_example = submit_kv_proof-sends submitter 9 1 7 [] (other 1) sender
