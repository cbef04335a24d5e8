-- ===== src/Examples/Commanding.antt =====
-- The theorems on the command line, against a server that is reached by a small router.
use neutron_query_relayer.Prelude.{
  ◌-◌, ◌≡◌, ◌↔◌, refl, Bool, true, false, Option, none, some, List, [], ◌∷◌, ◌++◌, Bytes, bytes_eq,
  bytes_eq_refl, codes, if◌then◌else◌, All, arith, u64,
}
use neutron_query_relayer.Errors.{Result, ok, err, plain, wrap}
use neutron_query_relayer.Exec.{pure, wrapping, ◌>>◌}
use neutron_query_relayer.Strconv.{format_uint}
use neutron_query_relayer.Strconv.Signed.{pos, negsuc, int_cutoff}
use neutron_query_relayer.Webserver.{
  ResubmitTx, ResubmitRequest, Response, Server, IcqClient, resubmit_txs,
}
use neutron_query_relayer.Webserver.Resubmission.{AllResubmitted}
use neutron_query_relayer.Webserver.Routes.{Route, Mux, Allows, Dispatches, router}
use neutron_query_relayer.Commands.{CommandLine, resubmitted_text, resubmit_failed_tx}
use neutron_query_relayer.Commands.Resubmission.{
  Reaches, one, client_at, resubmit_failed_tx-AllResubmitted, resubmit_failed_tx_signed,
}
use neutron_query_relayer.Examples.Fixtures.{World, initial, storage, tx_processor}

allows : Option Bytes → Bytes → Bool
allows none method = true
allows (some m) method = bytes_eq m method

abbrev status_only : Response
status_only = record { status_code = 404; body = [] }

-- the first route with the path
small_mux : Mux World
unfolding allows
small_mux [] method path body w = (status_only, w)
small_mux (route ∷ routes) method path body w =
    let rest = small_mux routes method path body w in
    if bytes_eq route.path path
    then (if allows route.method method
        then route.handler body w
        else (record { status_code = 405; body = [] }, w))
    else rest

allows-Allows : (o : Option Bytes) (method : Bytes) → Allows o method → allows o method ≡ true
unfolding allows
allows-Allows none method h = refl
allows-Allows (some m) method h = rw h (bytes_eq_refl method)

small_mux_reaches :
    (before : List (Route World)) (route : Route World) (after : List (Route World))
    (method body : Bytes) (w : World)
    → All (λ (r : Route World). bytes_eq r.path route.path ≡ false) before
    → Allows route.method method
    → small_mux (before ++ route ∷ after) method route.path body w ≡ route.handler body w
unfolding small_mux
small_mux_reaches [] route after method body w h a =
    rw (bytes_eq_refl route.path, allows-Allows route.method method a) refl
small_mux_reaches (r ∷ before) route after method body w h a =
    rw h.0 (small_mux_reaches before route after method body w h.1 a)

dispatches : Dispatches small_mux
dispatches = record { reaches = small_mux_reaches }

-- a request for one transaction is its number and its hash
write_txs : List ResubmitTx → Result Bytes
write_txs [] = err (plain (codes "empty"))
write_txs (t ∷ []) = ok (t.query_id ∷ t.hash)
write_txs (t ∷ u ∷ txs) = err (plain (codes "too many"))

read_request : Bytes → Result ResubmitRequest
read_request [] = err (plain (codes "empty"))
read_request (q ∷ hash) = ok (record { txs = one q hash })

read_written :
    (txs : List ResubmitTx) (body : Bytes)
    → write_txs txs ≡ ok body
    → read_request body ≡ ok (record { txs = txs })
unfolding write_txs read_request
read_written [] body h = cc
read_written (t ∷ []) body h = ground arith
read_written (t ∷ u ∷ txs) body h = cc

abbrev server : Server World
server = record {
  storage = storage;
  tx_processor = tx_processor;
  decode_request = read_request;
  encode_txs = λ txs. ok [];
}

abbrev metrics : Bytes → World → Response × World
metrics body w = (record { status_code = 200; body = [] }, w)

abbrev client : IcqClient World
client = record {
  encode_request = λ request. write_txs request.txs;
  decode_txs = λ body. ok [];
  do_request = λ method path body w.
      let (res, w') = small_mux (router server metrics (λ n w. w)) method path body w in
      (ok res, w');
}

abbrev cli : CommandLine World
cli = record {
  parse_url = λ url. ok (record { scheme = codes "http"; host = url; path = []; raw_query = [] });
  client_for = λ u. client;
  encode_indented = λ txs. ok [];
  version = codes "1";
  commit = codes "c";
}

reaches : Reaches cli server metrics (λ n w. w) small_mux
reaches = record {
  dispatches = dispatches;
  delivers = λ u method path body w. refl;
  reads = λ u request body e. read_written request.txs body e;
}

abbrev after_aa : World
after_aa = record initial { done = codes "aa" ∷ [] }

resubmit_failed_tx-AllResubmitted_example :
    (AllResubmitted server (one 7 (codes "aa")) initial after_aa) ↔ (
      resubmit_failed_tx cli (codes "icq") (format_uint 7) (codes "aa") initial
      ≡ (ok (resubmitted_text cli (pos 7) (codes "aa")), after_aa))
unfolding write_txs
resubmit_failed_tx-AllResubmitted_example =
    resubmit_failed_tx-AllResubmitted cli server metrics (λ n w. w) small_mux reaches (codes "icq")
      _ refl 7 (omega arith) (codes "aa") (7 ∷ codes "aa") refl initial after_aa

resubmit_failed_tx_signed_example :
    (resubmit_failed_tx cli (codes "icq") (format_uint int_cutoff) (codes "aa") initial ≡ (
      err (wrap (codes "failed to parse queryID") (plain (codes "value out of range"))),
      initial,
    ))
    × (resubmit_failed_tx cli (codes "icq") (b'-' ∷ format_uint 7) (codes "aa") initial
        ≡ (wrapping (codes "failed to resubmit unsuccessful tx") (
                resubmit_txs
                  (client_at cli (codes "icq") _ refl (codes "aa"))
                  (record { txs = one (u64 - 7) (codes "aa") }))
              >> pure (resubmitted_text cli (negsuc (7 - 1)) (codes "aa")))
            initial)
resubmit_failed_tx_signed_example =
    resubmit_failed_tx_signed cli (codes "icq") _ refl (codes "aa") int_cutoff 7 (omega arith)
      (omega arith) (omega arith) (omega arith) initial
