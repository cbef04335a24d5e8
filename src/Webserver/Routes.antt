-- ===== src/Webserver/Routes.antt =====
-- Run and Router of internal/http/webserver.go, and ServeHTTP of internal/http/monitoring.go.
use neutron_query_relayer.Prelude.{
  ℕ, ◌≡◌, refl, false, Option, none, some, List, [], ◌∷◌, ◌++◌, Bytes, bytes_eq, codes, All,
}
use neutron_query_relayer.Errors.{Error, Result, ok, err}
use neutron_query_relayer.Webserver.{
  Response, Server, unsuccessful_txs, resubmit_failed_txs, fill_unsuccessful_txs_metric,
}

-- A route of the router: a path, the one method that it is for, if it is for one, and its handler.
pub record Route (W : Type 0) : Type 0 where
  pub path : Bytes
  pub method : Option Bytes
  pub handler : Bytes → W → Response × W

abbrev pub unsuccessful_txs_resource : Bytes
unsuccessful_txs_resource = codes "/unsuccessful-txs"

abbrev pub resubmit_txs_resource : Bytes
resubmit_txs_resource = codes "/resubmit-txs"

abbrev pub prometheus_metrics : Bytes
prometheus_metrics = codes "/metrics"

abbrev pub method_post : Bytes
method_post = codes "POST"

-- gorilla/mux: what a router with these routes answers to a method, a path and a body.
abbrev pub Mux : Type 0 → Type 0
Mux W = List (Route W) → Bytes → Bytes → Bytes → W → Response × W

-- The route takes requests of the method.
abbrev pub Allows : Option Bytes → Bytes → Type 0
Allows none method = Unit
Allows (some m) method = m ≡ method

module _ {W : Type 0} where
  -- What mux promises: a request for the path of a route and a method that it is for gets to its
  -- handler, if no earlier route has the path.
  pub record Dispatches (mux : Mux W) : Type 0 where
    pub reaches :
        (before : List (Route W)) (route : Route W) (after : List (Route W)) (method body : Bytes)
        (w : W)
        → All (λ r. bytes_eq r.path route.path ≡ false) before
        → Allows route.method method
        → mux (before ++ route ∷ after) method route.path body w ≡ route.handler body w

module _ {W : Type 0} (srv : Server W) (prom_handler : Bytes → W → Response × W)
    (set_gauge : ℕ → W → W) where
  -- PromWrapper.ServeHTTP; `set_gauge` is the set of the gauge in the metrics
  unfoldable pub serve_metrics : Bytes → W → Response × W
  unfolding fill_unsuccessful_txs_metric
  serve_metrics req w =
      let (size, w') = fill_unsuccessful_txs_metric srv w in prom_handler req (set_gauge size w')

  -- Router
  unfoldable pub router : List (Route W)
  unfolding serve_metrics
  router =
      record {
        path = unsuccessful_txs_resource;
        method = none;
        handler = λ body w. unsuccessful_txs srv w;
      }
      ∷ record {
        path = resubmit_txs_resource;
        method = some method_post;
        handler = λ body w. resubmit_failed_txs srv body w;
      }
      ∷ record { path = prometheus_metrics; method = none; handler = serve_metrics }
      ∷ []

  -- A posted resubmission gets to its handler.
  pub router-resubmit :
      (mux : Mux W)
      → Dispatches mux
      → (body : Bytes) (w : W)
      → mux router method_post resubmit_txs_resource body w ≡ resubmit_failed_txs srv body w
  unfolding router bytes_eq
  router-resubmit mux law body w =
      law.reaches
        (record {
          path = unsuccessful_txs_resource;
          method = none;
          handler = λ body w. unsuccessful_txs srv w;
        }
          ∷ [])
        _ _ method_post body w (refl, tt) refl

-- What ends the wait of Run: an error of the server, or the context; then the server is shut down.
pub data ServerEnd : Type 0 where
  serve_error : Error → ServerEnd
  context_done : Result (Unit {0}) → ServerEnd

-- Run; a shutdown that fails is logged
unfoldable pub run : ServerEnd → Result (Unit {0})
run (serve_error e) = err e
run (context_done shutdown) = ok tt
