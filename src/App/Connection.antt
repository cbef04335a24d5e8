-- ===== src/App/Connection.antt =====
-- loadConnParams of internal/app/app.go: which parameters it gives.
use mathlib.Core.Path.{subst}
use neutron_query_relayer.Prelude.{
  ◌≡◌, refl, sym, ap, ◌∙◌, inl, inr, false, [], Bytes, bytes_eq, codes, Bool-cases,
}
use neutron_query_relayer.Errors.{Result, ok, err, context-ok}
use neutron_query_relayer.Exec.{pure, lift, wrapping, bind_rule, ◌>>=◌}
use neutron_query_relayer.Retry.{Retries}
use neutron_query_relayer.App.{
  ConnectionParams, IbcConnection, Clients, check_connection, query_connection, params_of,
  load_conn_params,
}

module _ {W Rest : Type 0} (c : Clients W Rest) (law : Retries c.retry) where
  -- The ids are those of a connection that Neutron's REST server answered with for the given id,
  -- neither id of its counterparty is empty, and the network names are the statuses'.
  abbrev pub Complete : Bytes → Bytes → Result ConnectionParams → Type 0
  Complete address id (err e) = Unit
  Complete address id (ok params) =
      (rest : Rest) × (connection : IbcConnection) × (c.new_rest_client address ≡ ok rest)
      × ((w : W) × ((c.ibc_connection rest id w).0 ≡ ok connection))
      × (params.neutron_client_id ≡ connection.client_id)
      × (params.target_client_id ≡ connection.counterparty_client_id)
      × (params.target_connection_id ≡ connection.counterparty_connection_id)
      × (bytes_eq connection.counterparty_connection_id [] ≡ false)
      × (bytes_eq connection.counterparty_client_id [] ≡ false)
      × ((w : W) × ((c.target_status w).0 ≡ ok params.target_chain_id))
      × ((w : W) × ((c.neutron_status w).0 ≡ ok params.neutron_chain_id))

  abbrev Checked : IbcConnection → Result IbcConnection → Type 0
  Checked answer (err e) = Unit
  Checked answer (ok connection) =
      (connection ≡ answer)
      × (bytes_eq connection.counterparty_connection_id [] ≡ false)
      × (bytes_eq connection.counterparty_client_id [] ≡ false)

  abbrev Counterparty : Rest → Bytes → Result IbcConnection → Type 0
  Counterparty rest id (err e) = Unit
  Counterparty rest id (ok connection) =
      ((w : W) × ((c.ibc_connection rest id w).0 ≡ ok connection))
      × (bytes_eq connection.counterparty_connection_id [] ≡ false)
      × (bytes_eq connection.counterparty_client_id [] ≡ false)

  check_connection-Checked :
      (connection : IbcConnection) → Checked connection (check_connection c connection)
  unfolding check_connection
  check_connection-Checked connection =
      elim (Bool-cases (bytes_eq connection.counterparty_connection_id [])) [
        | inl e ↦ rw e tt
        | inr n ↦ rw n (elim (Bool-cases (bytes_eq connection.counterparty_client_id [])) [
          | inl e ↦ rw e tt
          | inr k ↦ rw k (refl, n, k)
        ])
      ]

  Checked-Counterparty :
      (rest : Rest) (id : Bytes) (w : W) (answer : IbcConnection) (r : Result IbcConnection)
      → (c.ibc_connection rest id w).0 ≡ ok answer
      → Checked answer r
      → Counterparty rest id r
  Checked-Counterparty rest id w answer (err x) e h = tt
  Checked-Counterparty rest id w answer (ok connection) e (same, n, k) =
      ((w, e ∙ ap ok (sym same)), n, k)

  query_connection-Counterparty :
      (rest : Rest) (id : Bytes) (w : W) → Counterparty rest id (query_connection c rest id w).0
  unfolding query_connection
  query_connection-Counterparty rest id w =
      bind_rule (λ r _. Counterparty rest id r) (c.ibc_connection rest id)
        (λ connection. lift (check_connection c connection)) w
        (λ connection e.
          Checked-Counterparty rest id w connection _ e (check_connection-Checked connection))
        (λ x _. tt)

  -- If a retry that succeeds ends with an attempt that does: the connection's parameters that are
  -- loaded have the ids of a connection that was answered, none of the counterparty's empty, and
  -- the names of the networks that the two statuses tell.
  pub load_conn_params-Complete :
      (address id : Bytes) (w : W) → Complete address id (load_conn_params c address id w).0
  unfolding load_conn_params
  load_conn_params-Complete address id w =
      bind_rule (λ r _. Complete address id r)
        (wrapping (codes "failed to get newRESTClient") (lift (c.new_rest_client address))) _ w
        (λ rest k.
          bind_rule (λ r _. Complete address id r)
            (wrapping (codes "failed to fetch target chain status") c.target_status)
            (λ target.
              wrapping (codes "failed to fetch neutron chain status") c.neutron_status
              >>= λ neutron. c.retry (query_connection c rest id) >>= λ connection.
                  pure (params_of c target neutron connection))
            _
            (λ target t.
              bind_rule (λ r _. Complete address id r)
                (wrapping (codes "failed to fetch neutron chain status") c.neutron_status)
                (λ neutron. c.retry (query_connection c rest id) >>= λ connection.
                  pure (params_of c target neutron connection))
                _
                (λ neutron n.
                  bind_rule (λ r _. Complete address id r) (c.retry (query_connection c rest id))
                    (λ connection. pure (params_of c target neutron connection)) _
                    (λ connection e.
                      let (w', last) = law.last (query_connection c rest id) _ connection e in
                      let (answer, p, q) =
                        subst (Counterparty rest id) last
                          (query_connection-Counterparty rest id w') in
                      (
                        rest,
                        connection,
                        context-ok _ _ k,
                        answer,
                        refl,
                        refl,
                        refl,
                        p,
                        q,
                        (_, context-ok _ _ t),
                        (_, context-ok _ _ n),
                      ))
                    (λ x _. tt))
                (λ x _. tt))
            (λ x _. tt))
        (λ x _. tt)
