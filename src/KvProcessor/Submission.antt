-- ===== src/KvProcessor/Submission.antt =====
-- What ProcessAndSubmit of internal/kvprocessor/kvprocessor.go submits.
use mathlib.Core.Path.{subst}
use neutron_query_relayer.Prelude.{
  ℕ, ◌+◌, ◌-◌, ◌%◌, ◌≡◌, ◌∙◌, sym, refl, Option, none, some, List, [], ◌∷◌, ◌++◌, append_assoc,
  append-nil, Bytes, codes, u64, not, ◌&&◌, leb, ◌==◌, inl, inr, Bool-cases,
}
use neutron_query_relayer.Errors.{Result, ok, err, context, context-ok}
use neutron_query_relayer.Exec.{pure, lift, wrapping, attempt, bind_rule, ◌>>=◌}
use neutron_query_relayer.Relay.{KvKey, MessageKv}
use neutron_query_relayer.KvProcessor.{
  StorageValue, ProofResponse, KvProcessor, queried_height, query_tendermint_proof, values_from,
  get_storage_values, is_query_on_time, check_on_time, submit_kv_with_proof, process_and_submit,
  get_src_chain_header, cosmos_message, get_update_client_msg,
}
use neutron_query_relayer.Retry.{Retries}

module _ {W Header Msg : Type 0} (p : KvProcessor W Header Msg) where
  abbrev pub value_of : KvKey → ProofResponse → StorageValue
  value_of key response = record {
    storage_prefix = key.path;
    key = key.key;
    value = response.value;
    proof = response.proof_ops;
  }

  -- The value and the height come from an answer of the node, at one below the asked height.
  abbrev pub Answered : ℕ → KvKey → StorageValue → ℕ → Type 0
  Answered height key value root =
      (response : ProofResponse) × (w : W) × ((p.abci_query
          (codes "store/" ++ (key.path ++ codes "/key")) key.key (queried_height p height) w).0
        ≡ ok response)
      × (value ≡ value_of key response)
      × (root ≡ (response.height + 1) % u64)

  -- There is one answered value for each key, in the keys' order, and the height is the last
  -- answer's, or the first one given if there are no keys.
  abbrev pub Proves : ℕ → List KvKey → List StorageValue → ℕ → ℕ → Type 0
  Proves height [] [] first root = root ≡ first
  Proves height [] (v ∷ vs) first root = ⊥
  Proves height (k ∷ ks) [] first root = ⊥
  Proves height (k ∷ ks) (v ∷ vs) first root =
      (next : ℕ) × Answered height k v next × Proves height ks vs next root

  abbrev AnswerOf : ℕ → KvKey → Result (StorageValue × ℕ) → Type 0
  AnswerOf height key (ok (value, root)) = Answered height key value root
  AnswerOf height key (err e) = Unit

  query_tendermint_proof-AnswerOf :
      (height : ℕ) (key : KvKey) (w : W)
      → AnswerOf height key (query_tendermint_proof p height key.path key.key w).0
  unfolding query_tendermint_proof
  query_tendermint_proof-AnswerOf height key w =
      elim (Bool-cases (not (height == 0) && leb height 2)) [
        | inl e ↦ rw e tt
        | inr n ↦ rw n (
            bind_rule (λ r _. AnswerOf height key r)
              (wrapping (codes "error making abci query for tendermint proof") (
                p.abci_query (codes "store/" ++ (key.path ++ codes "/key")) key.key
                  (queried_height p height)))
              (λ response. pure (value_of key response, (response.height + 1) % u64)) w
              (λ response e. (response, w, context-ok _ _ e, refl, refl)) (λ x _. tt))
      ]

  -- the values so far, followed by an answered one for each key
  abbrev From : ℕ → List KvKey → List StorageValue → ℕ → Result (List StorageValue × ℕ) → Type 0
  From height keys st_values first (err e) = Unit
  From height keys st_values first (ok (values, root)) =
      (new : List StorageValue) × (values ≡ st_values ++ new) × Proves height keys new first root

  From-cons :
      (height : ℕ) (key : KvKey) (keys : List KvKey) (st_values : List StorageValue)
      (first next : ℕ) (value : StorageValue) (r : Result (List StorageValue × ℕ))
      → Answered height key value next
      → From height keys (st_values ++ value ∷ []) next r
      → From height (key ∷ keys) st_values first r
  From-cons height key keys st_values first next value (err e) a h = tt
  From-cons height key keys st_values first next value (ok (values, root)) a (new, e, h) =
      (value ∷ new, e ∙ append_assoc st_values (value ∷ []) new, (next, a, h))

  values_from-From :
      (height : ℕ) (keys : List KvKey) (st_values : List StorageValue) (first : ℕ) (w : W)
      → From height keys st_values first (values_from p height keys st_values first w).0
  unfolding values_from
  values_from-From height [] st_values first w = ([], sym (append-nil st_values), refl)
  values_from-From height (key ∷ keys) st_values first w =
      bind_rule (λ r _. From height (key ∷ keys) st_values first r)
        (wrapping (codes "failed to query tendermint proof")
          (query_tendermint_proof p height key.path key.key))
        (λ (value, h). values_from p height keys (st_values ++ value ∷ []) h) w
        (λ (value, h) e.
          From-cons height key keys st_values first h value _
            (subst (AnswerOf height key) (context-ok _ _ e)
              (query_tendermint_proof-AnswerOf height key w))
            (values_from-From height keys (st_values ++ value ∷ []) h _))
        (λ x _. tt)

  get_storage_values-Proves :
      (height : ℕ) (keys : List KvKey) (values : List StorageValue) (root : ℕ) (w : W)
      → (get_storage_values p height keys w).0 ≡ ok (values, root)
      → Proves height keys values 0 root
  unfolding get_storage_values
  get_storage_values-Proves height keys values root w e =
      let (new, q, h) = subst (From height keys [] 0) e (values_from-From height keys [] 0 w) in
      subst (λ vs. Proves height keys vs 0 root) (sym q) h

  -- What stands behind a KV query that was processed without an error: a value for each key,
  -- proved at the latest height, and submitted for one below the height whose header proves them,
  -- with the update of the client to that header.
  abbrev pub Submitted : MessageKv → Result (Unit {0}) → Type 0
  Submitted m (err e) = Unit
  Submitted m (ok u) =
      (latest : ℕ) × (values : List StorageValue) × (root : ℕ) × (header : Header) × (msg : Msg)
      × (w1 : W) × (w2 : W) × (w3 : W) × (w4 : W) × ((p.query_latest_height w1).0 ≡ ok latest)
      × Proves latest m.kv_keys values 0 root
      × ((p.fetch root w2).0 ≡ ok header)
      × ((p.msg_update_client header w3).0 ≡ ok (some msg))
      × ((p.submit_kv_proof ((root + (u64 - 1)) % u64) (p.revision_number_of header) m.query_id
            values msg w4).0
          ≡ ok tt)

  Submitted-if :
      (m : MessageKv) (latest : ℕ) (values : List StorageValue) (root : ℕ) (header : Header)
      (msg : Msg) (w1 w2 w3 w4 : W) (r : Result (Unit {0})) (t : Bytes)
      → (p.query_latest_height w1).0 ≡ ok latest
      → Proves latest m.kv_keys values 0 root
      → (p.fetch root w2).0 ≡ ok header
      → (p.msg_update_client header w3).0 ≡ ok (some msg)
      → (p.submit_kv_proof
          ((root + (u64 - 1)) % u64)
          (p.revision_number_of header)
          m.query_id
          values
          msg
          w4).0
        ≡ r
      → Submitted m (context t r)
  Submitted-if m latest values root header msg w1 w2 w3 w4 (ok u) t l h f c s =
      (latest, values, root, header, msg, w1, w2, w3, w4, l, h, f, c, s)
  Submitted-if m latest values root header msg w1 w2 w3 w4 (err e) t l h f c s = tt

  abbrev Built : Header → Result Msg → Type 0
  Built header (err e) = Unit
  Built header (ok msg) = (w : W) × ((p.msg_update_client header w).0 ≡ ok (some msg))

module _ {W Header Msg : Type 0} (p : KvProcessor W Header Msg)
    (header_law : Retries p.retry_header) (message_law : Retries p.retry_message) where
  cosmos_message-Built :
      (header : Header) (w : W) (o : Option Msg)
      → (p.msg_update_client header w).0 ≡ ok o
      → Built p header (cosmos_message p o)
  unfolding cosmos_message
  cosmos_message-Built header w none e = tt
  cosmos_message-Built header w (some msg) e = (w, e)

  get_update_client_msg-Built :
      (header : Header) (w : W) → Built p header (get_update_client_msg p header w).0
  unfolding get_update_client_msg
  get_update_client_msg-Built header w =
      bind_rule (λ r _. Built p header r) (p.retry_message (p.msg_update_client header))
        (λ o. lift (cosmos_message p o)) w
        (λ o e.
          let (w', h) = message_law.last (p.msg_update_client header) w o e in
          cosmos_message-Built header w' o h)
        (λ x _. tt)

  -- the submission of proved values, from any state
  submit_kv_with_proof-Submitted :
      (m : MessageKv) (latest : ℕ) (values : List StorageValue) (root : ℕ) (w1 w : W)
      → (p.query_latest_height w1).0 ≡ ok latest
      → Proves p latest m.kv_keys values 0 root
      → Submitted p m (submit_kv_with_proof p root m.query_id values w).0
  unfolding submit_kv_with_proof get_src_chain_header
  submit_kv_with_proof-Submitted m latest values root w1 w l h =
      bind_rule (λ r _. Submitted p m r)
        (wrapping (codes "failed to get header for height") (get_src_chain_header p root)) _ w
        (λ header e.
          bind_rule (λ r _. Submitted p m r)
            (wrapping (codes "failed to getUpdateClientMsg") (get_update_client_msg p header))
            (λ msg. wrapping (codes "could not submit proof") (
              p.submit_kv_proof ((root + (u64 - 1)) % u64) (p.revision_number_of header) m.query_id
                values msg))
            _
            (λ msg e'.
              let (w2, f) = header_law.last (p.fetch root) w header (context-ok _ _ e) in
              let (w3, c) =
                subst (Built p header) (context-ok _ _ e') (get_update_client_msg-Built header _) in
              Submitted-if p m latest values root header msg w1 w2 w3 _ _ _ l h f c refl)
            (λ x _. tt))
        (λ x _. tt)

  -- If a retry that succeeds ends with an attempt that does: a KV query that is processed without
  -- an error had a proved value for each of its keys at the latest height, and these were
  -- submitted without an error for one below the height whose header proves the last of them (for
  -- 2^64 - 1 when there are no keys), with the update of the client to that header.
  pub process_and_submit-Submitted :
      (m : MessageKv) (w : W) → Submitted p m (process_and_submit p m w).0
  unfolding process_and_submit
  process_and_submit-Submitted m w =
      bind_rule (λ r _. Submitted p m r)
        (wrapping (codes "failed to get header for src chain") p.query_latest_height) _ w
        (λ latest l.
          bind_rule (λ r _. Submitted p m r) (attempt (is_query_on_time p m.query_id latest))
            (λ on_time. lift (check_on_time p on_time) >>= λ _.
              wrapping (codes "failed to get storage values with proofs")
                (get_storage_values p latest m.kv_keys)
              >>= λ (proofs, height). submit_kv_with_proof p height m.query_id proofs)
            _
            (λ on_time _.
              bind_rule (λ r _. Submitted p m r) (lift (check_on_time p on_time))
                (λ _.
                  wrapping (codes "failed to get storage values with proofs")
                    (get_storage_values p latest m.kv_keys)
                  >>= λ (proofs, height). submit_kv_with_proof p height m.query_id proofs)
                _
                (λ _ _.
                  bind_rule (λ r _. Submitted p m r)
                    (wrapping (codes "failed to get storage values with proofs")
                      (get_storage_values p latest m.kv_keys))
                    (λ (proofs, height). submit_kv_with_proof p height m.query_id proofs) _
                    (λ (proofs, height) e.
                      submit_kv_with_proof-Submitted m latest proofs height w _ (context-ok _ _ l) (
                        get_storage_values-Proves p latest m.kv_keys proofs height _
                          (context-ok _ _ e)))
                    (λ x _. tt))
                (λ x _. tt))
            (λ x _. tt))
        (λ x _. tt)
