-- ===== src/RawClients.antt =====
-- internal/raw/rpc_client.go and rest_client.go, and the clients of internal/subscriber/utils.go.
use neutron_query_relayer.Prelude.{ℕ, Option, none, some, List, [], ◌∷◌, Bytes, codes}
use neutron_query_relayer.Errors.{Result, ok, context, ◌>>=◌ as ◌>>=r◌}
use neutron_query_relayer.Exec.{Exec, pure, lift, wrapping, ◌>>=◌, ◌>>◌}

-- what is read of Go's url.URL
pub record Url : Type 0 where
  pub scheme : Bytes
  pub host : Bytes

-- A client of the REST API, by its transport; the client without a timeout has Go's default.
pub record RestClient : Type 0 where
  pub host : Bytes
  pub base_path : Bytes
  pub schemes : List Bytes
  pub timeout : Option ℕ

-- The clients of cometbft, for an address, an endpoint and a timeout, and Go's url.Parse.
pub record ClientLibrary (W Rpc : Type 0) : Type 0 where
  pub default_http_client : Bytes → Result (Unit {0})
  pub new_with_client : Bytes → Bytes → ℕ → Result Rpc
  pub start_client : Rpc → Exec W (Unit {0})
  pub parse_url : Bytes → Result Url

abbrev pub socket_endpoint : Bytes
socket_endpoint = codes "/websocket"

abbrev pub rest_client_base_path : Bytes
rest_client_base_path = codes "/"

module _ {W Rpc : Type 0} (lib : ClientLibrary W Rpc) where
  -- a client that is connected
  pub new_rpc_client : Bytes → ℕ → Exec W Rpc
  new_rpc_client addr timeout = do
    wrapping (codes "could not create http client") (lift (lib.default_http_client addr))
    rpc_client ←
        wrapping (codes "could not initialize rpc client from http client")
          (lift (lib.new_with_client addr socket_endpoint timeout))
    wrapping (codes "could not start rpc client") (lib.start_client rpc_client)
    pure rpc_client

  pub new_rest_client : Bytes → Result RestClient
  new_rest_client rest_addr =
      context (codes "failed to parse restAddr") (lib.parse_url rest_addr) >>=r λ url. ok (record {
        host = url.host;
        base_path = rest_client_base_path;
        schemes = url.scheme ∷ [];
        timeout = none;
      })

  -- the subscriber's, which NewSubscriber connects
  pub new_subscriber_rpc_client : Bytes → ℕ → Result Rpc
  new_subscriber_rpc_client rpc_addr timeout = lib.default_http_client rpc_addr >>=r λ _.
      context (codes "failed to create tendermint rpc client")
        (lib.new_with_client rpc_addr socket_endpoint timeout)

  pub new_subscriber_rest_client : Bytes → ℕ → Result RestClient
  new_subscriber_rest_client rest_addr timeout =
      context (codes "failed to parse restAddr") (lib.parse_url rest_addr) >>=r λ url. ok (record {
        host = url.host;
        base_path = rest_client_base_path;
        schemes = url.scheme ∷ [];
        timeout = some timeout;
      })
