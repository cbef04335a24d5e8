-- ===== src/Commands.antt =====
-- The commands of cmd/neutron_query_relayer/cmd: query.go, exec.go, version.go and root.go, with
-- NewICQClient of internal/http/client.go.
pub mod Resubmission
use neutron_query_relayer.Prelude.{ℕ, List, [], ◌∷◌, ◌++◌, Bytes, codes}
use neutron_query_relayer.Errors.{Error, Result, ok, err, plain, context, ◌>>=◌ as ◌>>=r◌}
use neutron_query_relayer.Exec.{Exec, pure, raise, lift, wrapping, ◌>>=◌, ◌>>◌}
use neutron_query_relayer.Strconv.Signed.{ℤ, format_int, atoi, to_uint64}
use neutron_query_relayer.Relay.{UnsuccessfulTxInfo}
use neutron_query_relayer.Webserver.{
  ResubmitTx, ResubmitRequest, IcqClient, resubmit_txs, get_unsuccessful_txs,
}

-- what is read and set of Go's url.URL
pub record Url : Type 0 where
  pub scheme : Bytes
  pub host : Bytes
  pub path : Bytes
  pub raw_query : Bytes

-- url.Parse, an http.Client with its timeout for a host, and the JSON of the print.
pub record CommandLine (W : Type 0) : Type 0 where
  pub parse_url : Bytes → Result Url
  pub client_for : Url → IcqClient W
  pub encode_indented : List UnsuccessfulTxInfo → Result Bytes
  pub version : Bytes
  pub commit : Bytes

module _ {W : Type 0} (cli : CommandLine W) where
  -- any path and query of the host are dropped
  unfoldable pub new_icq_client : Bytes → Result (IcqClient W)
  new_icq_client host = context (codes "host parsing error") (cli.parse_url host) >>=r λ u.
      ok (cli.client_for (record u { path = []; raw_query = [] }))

  connect : Bytes → Exec W (IcqClient W)
  unfolding new_icq_client
  connect url = wrapping (codes "failed to get new icq client") (lift (new_icq_client url))

  -- the command unsuccessful-txs, with the text that it prints
  pub unsuccessful_txs : Bytes → Exec W Bytes
  unfolding connect
  unsuccessful_txs url = do
    client ← connect url
    txs ← wrapping (codes "failed to get unsuccessful txs") (get_unsuccessful_txs client)
    response ←
        wrapping (codes "failed to encode unsuccessful transactions")
          (lift (cli.encode_indented txs))
    pure (codes "Unsuccessful txs:\n" ++ response)

  -- the request for one transaction: `uint64(queryID)` of an int
  unfoldable pub request_for : ℤ → Bytes → ResubmitRequest
  unfolding to_uint64
  request_for query_id hash = record {
    txs = record { query_id = to_uint64 query_id; hash = hash } ∷ [];
  }

  abbrev pub resubmitted_text : ℤ → Bytes → Bytes
  resubmitted_text query_id hash =
      codes "Tx queryID="
      ++ (format_int query_id ++ (codes " hash=" ++ (hash ++ codes " resubmitted successfully")))

  -- the command resubmit-tx, for a query id and a hash, with the text that it prints
  unfoldable pub resubmit_failed_tx : Bytes → Bytes → Bytes → Exec W Bytes
  unfolding connect request_for
  resubmit_failed_tx url query_id_arg hash = do
    client ← connect url
    query_id ← wrapping (codes "failed to parse queryID") (lift (atoi query_id_arg))
    wrapping (codes "failed to resubmit unsuccessful tx")
        (resubmit_txs client (request_for query_id hash))
    pure (resubmitted_text query_id hash)

  -- cobra.ExactArgs(2) before the command
  pub exec_command : Bytes → List Bytes → Exec W Bytes
  unfolding resubmit_failed_tx
  exec_command url (query_id_arg ∷ hash ∷ []) = resubmit_failed_tx url query_id_arg hash
  exec_command url args = raise (plain (codes "accepts 2 arg(s)"))

  -- the command version
  pub version_text : Bytes
  version_text = codes "Version: " ++ (cli.version ++ (codes "\nCommit: " ++ cli.commit))

-- Execute of root.go: the status that the process exits with
pub execute : Result Bytes → ℕ
execute (ok text) = 0
execute (err e) = 1
