-- ===== src/App.antt =====
-- internal/app/app.go: the parameters of the connection between the two chains.
pub mod Connection
use neutron_query_relayer.Prelude.{Bool, [], Bytes, bytes_eq, codes, if◌then◌else◌}
use neutron_query_relayer.Errors.{Error, Result, ok, err, plain, context, ◌>>=◌ as ◌>>=r◌}
use neutron_query_relayer.Exec.{Exec, pure, lift, wrapping, ◌>>=◌, ◌>>◌}

pub record ConnectionParams : Type 0 where
  pub neutron_chain_id : Bytes
  pub neutron_client_id : Bytes
  pub target_chain_id : Bytes
  pub target_client_id : Bytes
  pub target_connection_id : Bytes

-- what is read of an IBC connection of Neutron
pub record IbcConnection : Type 0 where
  pub client_id : Bytes
  pub counterparty_connection_id : Bytes
  pub counterparty_client_id : Bytes

-- The clients, of which a status is the network's name, and `retry.Do`.
pub record Clients (W Rest : Type 0) : Type 0 where
  pub new_rest_client : Bytes → Result Rest
  pub target_status : Exec W Bytes
  pub neutron_status : Exec W Bytes
  pub ibc_connection : Rest → Bytes → Exec W IbcConnection
  pub retry : Exec W IbcConnection → Exec W IbcConnection

module _ {W Rest : Type 0} (c : Clients W Rest) where
  check_connection : IbcConnection → Result IbcConnection
  check_connection connection =
      if bytes_eq connection.counterparty_connection_id []
      then err (plain (codes "empty target connection ID"))
      else if bytes_eq connection.counterparty_client_id []
      then err (plain (codes "empty target client ID"))
      else ok connection

  -- one attempt of the query
  query_connection : Rest → Bytes → Exec W IbcConnection
  unfolding check_connection
  query_connection rest_client neutron_connection_id = do
    connection ← c.ibc_connection rest_client neutron_connection_id
    lift (check_connection connection)

  abbrev params_of : Bytes → Bytes → IbcConnection → ConnectionParams
  params_of target_network neutron_network connection = record {
    neutron_chain_id = neutron_network;
    neutron_client_id = connection.client_id;
    target_chain_id = target_network;
    target_client_id = connection.counterparty_client_id;
    target_connection_id = connection.counterparty_connection_id;
  }

  pub load_conn_params : Bytes → Bytes → Exec W ConnectionParams
  unfolding query_connection
  load_conn_params neutron_rest_address neutron_connection_id = do
    rest_client ←
        wrapping (codes "failed to get newRESTClient")
          (lift (c.new_rest_client neutron_rest_address))
    target_network ← wrapping (codes "failed to fetch target chain status") c.target_status
    neutron_network ← wrapping (codes "failed to fetch neutron chain status") c.neutron_status
    connection ← c.retry (query_connection rest_client neutron_connection_id)
    pure (params_of target_network neutron_network connection)
