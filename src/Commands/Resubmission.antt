-- ===== src/Commands/Resubmission.antt =====
-- The command resubmit-tx against the web server: from its arguments to the storage.
use mathlib.Core.Path.{subst}
use neutron_query_relayer.Prelude.{
  ℕ, ◌-◌, ◌≤◌, ◌<◌, ◌≡◌, ◌↔◌, refl, ap, sym, ◌∙◌, List, [], ◌∷◌, Bytes, codes, u64, arith,
}
use neutron_query_relayer.Errors.{Result, ok, err, plain, wrap}
use neutron_query_relayer.Exec.{pure, lift, wrapping, ◌>>◌}
use neutron_query_relayer.Strconv.{format_uint}
use neutron_query_relayer.Strconv.Signed.{
  pos, negsuc, int_cutoff, to_uint64, atoi-format_uint_pos, atoi-format_uint_over, atoi-minus,
}
use neutron_query_relayer.Webserver.{
  ResubmitTx, ResubmitRequest, Response, Server, IcqClient, status_ok, resubmit_txs, client_result,
  resubmit_all,
}
use neutron_query_relayer.Webserver.Resubmission.{
  AllResubmitted, resubmit_all-Told, resubmit_all-AllResubmitted, resubmit_failed_txs-decoded,
}
use neutron_query_relayer.Webserver.Routes.{
  Mux, Dispatches, router, method_post, resubmit_txs_resource, router-resubmit,
}
use neutron_query_relayer.Commands.{
  Url, CommandLine, new_icq_client, request_for, resubmitted_text, resubmit_failed_tx,
}

abbrev pub one : ℕ → Bytes → List ResubmitTx
one n hash = record { query_id = n; hash = hash } ∷ []

module _ {W : Type 0} (cli : CommandLine W) (srv : Server W)
    (prom_handler : Bytes → W → Response × W) (set_gauge : ℕ → W → W) (mux : Mux W) where
  -- A command line whose clients reach the server: their requests come to its router, and the
  -- server reads the JSON that they write.
  pub record Reaches : Type 0 where
    pub dispatches : Dispatches mux
    pub delivers :
        (u : Url) (method path body : Bytes) (w : W)
        → (cli.client_for u).do_request method path body w ≡ (
            let (res, w') = mux (router srv prom_handler set_gauge) method path body w in
            (ok res, w'))
    pub reads :
        (u : Url) (request : ResubmitRequest) (body : Bytes)
        → (cli.client_for u).encode_request request ≡ ok body
        → srv.decode_request body ≡ ok request

  -- What the command makes of the answer.
  abbrev reported : IcqClient W → Bytes → Response × W → Result Bytes × W
  reported client text r =
      (wrapping (codes "failed to resubmit unsuccessful tx") (lift (client_result client r.0))
          >> pure text)
        r.1

  -- A success is reported only for the status 200.
  reported-ok :
      (client : IcqClient W) (text : Bytes) (res : Response) (w w' : W)
      → reported client text (res, w) ≡ (ok text, w')
      → (res.status_code ≡ status_ok) × (w ≡ w')
  unfolding client_result
  reported-ok client text res w w' h = ground arith

  module _ (law : Reaches) (url : Bytes) (u : Url) (parsed : cli.parse_url url ≡ ok u) (n : ℕ)
      (small : n < int_cutoff) (hash body : Bytes)
      (encoded : (cli.client_for (record u { path = []; raw_query = [] })).encode_request
          (record { txs = one n hash })
        ≡ ok body) where
    abbrev client : IcqClient W
    client = cli.client_for (record u { path = []; raw_query = [] })

    -- the answer to the request
    answer :
        (w : W)
        → client.do_request method_post resubmit_txs_resource body w
          ≡ (let (res, w') = resubmit_all srv (one n hash) w in (ok res, w'))
    answer w =
        law.delivers _ method_post resubmit_txs_resource body w
        ∙ ap (λ (r : Response × W). (ok r.0, r.1))
            (router-resubmit srv prom_handler set_gauge mux law.dispatches body w
              ∙ resubmit_failed_txs-decoded srv body _ w (law.reads _ _ body encoded))

    request_for-pos : request_for cli (pos n) hash ≡ record { txs = one n hash }
    unfolding request_for to_uint64
    request_for-pos = ground (arith, small)

    command_eq :
        (w : W)
        → resubmit_failed_tx cli url (format_uint n) hash w
          ≡ reported client (resubmitted_text cli (pos n) hash) (resubmit_all srv (one n hash) w)
    unfolding resubmit_failed_tx new_icq_client resubmit_txs request_for to_uint64
    command_eq w =
        rw (parsed, resubmit_failed_tx)
          (rw (atoi-format_uint_pos n (omega (arith, small)) small)
            (rw (request_for-pos, encoded, resubmit_txs) (rw (answer w) refl)))

    -- For a host that can be parsed, a query id below 2^63 and a request that can be encoded, over
    -- clients whose requests reach the router and are read as they were written: the command
    -- resubmit-tx reports success and leaves a state exactly if the transaction was found in the
    -- storage and its submission returned no error and left that state.
    pub resubmit_failed_tx-AllResubmitted :
        (w w' : W)
        → (AllResubmitted srv (one n hash) w w') ↔ (
            resubmit_failed_tx cli url (format_uint n) hash w
            ≡ (ok (resubmitted_text cli (pos n) hash), w'))
    unfolding client_result
    resubmit_failed_tx-AllResubmitted w w' =
        let text = resubmitted_text cli (pos n) hash in
        (
          (λ all.
              command_eq w
              ∙ ap (reported client text) (resubmit_all-AllResubmitted srv _ w w' all)),
          (λ h.
              let (status, end) = reported-ok client text _ _ w' (sym (command_eq w) ∙ h) in
              subst (AllResubmitted srv (one n hash) w) end
                ((resubmit_all-Told srv (one n hash) w).0 status)),
        )

-- Arguments that are no query id as the web server reads one.
module _ {W : Type 0} (cli : CommandLine W) (url : Bytes) (u : Url)
    (parsed : cli.parse_url url ≡ ok u) (hash : Bytes) where
  abbrev pub client_at : IcqClient W
  client_at = cli.client_for (record u { path = []; raw_query = [] })

  resubmit_failed_tx-over :
      (m : ℕ)
      → int_cutoff ≤ m
      → m < u64
      → (w : W)
      → resubmit_failed_tx cli url (format_uint m) hash w
        ≡ (err (wrap (codes "failed to parse queryID") (plain (codes "value out of range"))), w)
  unfolding resubmit_failed_tx new_icq_client
  resubmit_failed_tx-over m l h w =
      rw (parsed, resubmit_failed_tx) (rw (atoi-format_uint_over m h l) refl)

  request_for-negsuc :
      (n : ℕ)
      → 0 < n
      → n ≤ int_cutoff
      → request_for cli (negsuc (n - 1)) hash ≡ record { txs = one (u64 - n) hash }
  unfolding request_for to_uint64
  request_for-negsuc n p k = ground (arith, p, k)

  resubmit_failed_tx-minus :
      (n : ℕ)
      → 0 < n
      → n ≤ int_cutoff
      → (w : W)
      → resubmit_failed_tx cli url (b'-' ∷ format_uint n) hash w
        ≡ (wrapping
                (codes "failed to resubmit unsuccessful tx")
                (resubmit_txs client_at (record { txs = one (u64 - n) hash }))
              >> pure (resubmitted_text cli (negsuc (n - 1)) hash))
            w
  unfolding resubmit_failed_tx new_icq_client
  resubmit_failed_tx-minus n p k w =
      rw (parsed, resubmit_failed_tx) (rw (atoi-minus n p k) (rw (request_for-negsuc n p k) refl))

  -- For a host that can be parsed, the command resubmit-tx fails on every query id from 2^63 to
  -- 2^64 - 1 and leaves the state as it was, and for an argument -n, with n from 1 to 2^63, it
  -- asks for the query 2^64 - n.
  pub resubmit_failed_tx_signed :
      (m n : ℕ)
      → int_cutoff ≤ m
      → m < u64
      → 0 < n
      → n ≤ int_cutoff
      → (w : W)
      → (resubmit_failed_tx cli url (format_uint m) hash w
          ≡ (err (wrap (codes "failed to parse queryID") (plain (codes "value out of range"))), w))
        × (resubmit_failed_tx cli url (b'-' ∷ format_uint n) hash w
            ≡ (wrapping
                    (codes "failed to resubmit unsuccessful tx")
                    (resubmit_txs client_at (record { txs = one (u64 - n) hash }))
                  >> pure (resubmitted_text cli (negsuc (n - 1)) hash))
                w)
  resubmit_failed_tx_signed m n l h p k w =
      (resubmit_failed_tx-over m l h w, resubmit_failed_tx-minus n p k w)
