-- ===== src/Webserver.antt =====
-- internal/http: the handlers of the relayer's web server, and its client.
pub mod Resubmission
pub mod Routes
use neutron_query_relayer.Prelude.{
  ℕ, Bool, true, false, Option, none, some, List, [], ◌∷◌, ◌++◌, Bytes, codes, length, ◌==◌,
  if◌then◌else◌,
}
use neutron_query_relayer.Errors.{Error, Result, ok, err, plain, context, message, is_not_found}
use neutron_query_relayer.Exec.{Exec, pure, raise, lift, wrapping, attempt, ◌>>=◌, ◌>>◌}
use neutron_query_relayer.Relay.{Transaction, UnsuccessfulTxInfo}
use neutron_query_relayer.Interfaces.{Storage}
use neutron_query_relayer.Interfaces

pub record ResubmitTx : Type 0 where
  pub query_id : ℕ
  pub hash : Bytes

pub record ResubmitRequest : Type 0 where
  pub txs : List ResubmitTx

pub record Response : Type 0 where
  pub status_code : ℕ
  pub body : Bytes

abbrev pub status_ok : ℕ
status_ok = 200

abbrev pub status_bad_request : ℕ
status_bad_request = 400

abbrev pub status_internal_server_error : ℕ
status_internal_server_error = 500

-- What the handlers are given, and JSON: an encoder that fails has written nothing.
pub record Server (W : Type 0) : Type 0 where
  pub storage : Storage W
  pub tx_processor : Interfaces.TxProcessor W
  pub decode_request : Bytes → Result ResubmitRequest
  pub encode_txs : List UnsuccessfulTxInfo → Result Bytes

-- http.Error
failure : Bytes → ℕ → Response
failure body status_code = record { status_code = status_code; body = body }

-- how the resubmission of a transaction went wrong
processing : Error → Response
unfolding failure message
processing e =
    failure (codes "Error processing request: " ++ message e) status_internal_server_error

lookup_failure : Error → Response
unfolding failure message processing is_not_found
lookup_failure e =
    if is_not_found e then failure (codes "no tx found") status_bad_request else processing e

module _ {W : Type 0} (srv : Server W) where
  unsuccessful_response : Result (List UnsuccessfulTxInfo) → Response
  unfolding failure
  unsuccessful_response (err e) =
      failure (codes "Error processing request") status_internal_server_error
  unsuccessful_response (ok res) = elim (srv.encode_txs res) [
    | ok body ↦ record { status_code = status_ok; body = body }
    | err e ↦ failure (codes "Error processing request") status_internal_server_error
  ]

  pub unsuccessful_txs : W → Response × W
  unfolding unsuccessful_response
  unsuccessful_txs w =
      let (res, w') = srv.storage.get_all_unsuccessful_txs w in (unsuccessful_response res, w')

  after_submission : Result (Unit {0}) × W → Option Response × W
  unfolding processing
  after_submission (ok u, w) = (none, w)
  after_submission (err e, w) = (some (processing e), w)

  after_lookup : ResubmitTx → Result Transaction × W → Option Response × W
  unfolding lookup_failure after_submission
  after_lookup tx_info (err e, w) = (some (lookup_failure e), w)
  after_lookup tx_info (ok tx, w) =
      after_submission (srv.tx_processor.process_and_submit tx_info.query_id tx w)

  -- one transaction of the request, with the response to an error of it
  pub resubmit : ResubmitTx → W → Option Response × W
  unfolding after_lookup
  resubmit tx_info w =
      after_lookup tx_info (srv.storage.get_cached_tx tx_info.query_id tx_info.hash w)

  abbrev unless_failed : (W → Response × W) → Option Response × W → Response × W
  unless_failed rest (none, w) = rest w
  unless_failed rest (some response, w) = (response, w)

  -- the loop over the transactions, which ends at the first error
  pub resubmit_all : List ResubmitTx → W → Response × W
  unfolding resubmit
  resubmit_all [] w = (record { status_code = status_ok; body = [] }, w)
  resubmit_all (tx_info ∷ txs) w = unless_failed (resubmit_all txs) (resubmit tx_info w)

  after_decode : Result ResubmitRequest → W → Response × W
  unfolding resubmit_all processing
  after_decode (err e) w = (processing e, w)
  after_decode (ok request) w = resubmit_all request.txs w

  unfoldable pub resubmit_failed_txs : Bytes → W → Response × W
  unfolding after_decode
  resubmit_failed_txs req_body w = after_decode (srv.decode_request req_body) w

  -- fillUnsuccessfulTxsMetric: the size that the metric is set to; an error leaves a nil slice
  pub fill_unsuccessful_txs_metric : W → ℕ × W
  fill_unsuccessful_txs_metric w =
      let (res, w') = srv.storage.get_all_unsuccessful_txs w in
      (elim res [ ok txs ↦ length txs | err e ↦ 0 ], w')

-- ICQClient: its JSON and the `Do` of its http.Client, for a method, a path and a body. What
-- builds a request from these fails on no host that NewICQClient accepts.
pub record IcqClient (W : Type 0) : Type 0 where
  pub encode_request : ResubmitRequest → Result Bytes
  pub decode_txs : Bytes → Result (List UnsuccessfulTxInfo)
  pub do_request : Bytes → Bytes → Bytes → Exec W Response

module _ {W : Type 0} (c : IcqClient W) where
  unfoldable pub client_result : Response → Result (Unit {0})
  client_result res =
      if res.status_code == status_bad_request
      then err (plain res.body)
      else if res.status_code == status_ok
      then ok tt
      else err (plain (codes "got unexpected http response status code"))

  unfoldable pub resubmit_txs : ResubmitRequest → Exec W (Unit {0})
  unfolding client_result
  resubmit_txs txs = do
    body ← wrapping (codes "failed to marshal txs") (lift (c.encode_request txs))
    res ←
        wrapping (codes "failed to make http request")
          (c.do_request (codes "POST") (codes "/resubmit-txs") body)
    lift (client_result res)

  decoded_txs : Response → Result (List UnsuccessfulTxInfo)
  decoded_txs res =
      if res.status_code == status_ok
      then context (codes "failed to decode response body") (c.decode_txs res.body)
      else err (plain (codes "got unexpected http response status code"))

  pub get_unsuccessful_txs : Exec W (List UnsuccessfulTxInfo)
  unfolding decoded_txs
  get_unsuccessful_txs = do
    res ←
        wrapping (codes "failed to make http request")
          (c.do_request (codes "GET") (codes "/unsuccessful-txs") [])
    lift (decoded_txs res)
