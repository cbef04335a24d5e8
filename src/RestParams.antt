-- ===== src/RestParams.antt =====
-- The generated parameters of internal/subscriber/querier/client/query, *_parameters.go: what the
-- three operations of Neutron's REST API write into a request. The context and the HTTP client of
-- the parameters are left out: they only reach the runtime.
pub mod Written
use neutron_query_relayer.Prelude.{
  ℕ, Bool, Option, none, some, List, [], ◌∷◌, ◌++◌, Bytes, bytes_eq, codes, if◌then◌else◌,
}
use neutron_query_relayer.Exec.{Exec, pure, ◌>>=◌, ◌>>◌}

-- runtime.ClientRequest of go-openapi
pub record ClientRequest (R : Type 0) : Type 0 where
  pub set_timeout : ℕ → Exec R (Unit {0})
  pub set_query_param : Bytes → List Bytes → Exec R (Unit {0})
  pub set_path_param : Bytes → Bytes → Exec R (Unit {0})

-- The texts of go-openapi: of a flag, of bytes in base64, and of a list in the format "multi";
-- and the timeout that its runtime takes when none is given.
pub record Formats : Type 0 where
  pub format_bool : Bool → Bytes
  pub base64_string : Bytes → Bytes
  pub join_multi : List Bytes → List Bytes
  pub default_timeout : ℕ

pub record ConnectionParams : Type 0 where
  pub connection_id : Bytes
  pub timeout : ℕ

pub record QueryParams : Type 0 where
  pub query_id : Option Bytes
  pub timeout : ℕ

pub record QueriesParams : Type 0 where
  pub connection_id : Option Bytes
  pub owners : Option (List Bytes)
  pub pagination_count_total : Option Bool
  pub pagination_key : Option Bytes
  pub pagination_limit : Option Bytes
  pub pagination_offset : Option Bytes
  pub pagination_reverse : Option Bool
  pub timeout : ℕ

module _ (formats : Formats) where
  abbrev pub new_connection_params : ConnectionParams
  new_connection_params = record { connection_id = []; timeout = formats.default_timeout }

  abbrev pub new_query_params : QueryParams
  new_query_params = record { query_id = none; timeout = formats.default_timeout }

  abbrev pub new_queries_params : QueriesParams
  new_queries_params = record {
    connection_id = none;
    owners = none;
    pagination_count_total = none;
    pagination_key = none;
    pagination_limit = none;
    pagination_offset = none;
    pagination_reverse = none;
    timeout = formats.default_timeout;
  }

  -- the loop that copies the owners behind those that are copied
  copy_owners : List Bytes → List Bytes → List Bytes
  copy_owners copied [] = copied
  copy_owners copied (owner ∷ owners) = copy_owners (copied ++ (owner ∷ [])) owners

  bind_param_owners : List Bytes → List Bytes
  unfolding copy_owners
  bind_param_owners owners = formats.join_multi (copy_owners [] owners)

  module _ {R : Type 0} (r : ClientRequest R) where
    -- a parameter is set unless its text is empty
    set_given : Bytes → Bytes → Exec R (Unit {0})
    set_given name q = if bytes_eq q [] then pure tt else r.set_query_param name (q ∷ [])

    set_text : Bytes → Option Bytes → Exec R (Unit {0})
    unfolding set_given
    set_text name none = pure tt
    set_text name (some q) = set_given name q

    set_flag : Bytes → Option Bool → Exec R (Unit {0})
    unfolding set_given
    set_flag name none = pure tt
    set_flag name (some b) = set_given name (formats.format_bool b)

    set_bytes : Bytes → Option Bytes → Exec R (Unit {0})
    unfolding set_given
    set_bytes name none = pure tt
    set_bytes name (some q) = set_given name (formats.base64_string q)

    set_owners : Option (List Bytes) → Exec R (Unit {0})
    unfolding bind_param_owners
    set_owners none = pure tt
    set_owners (some owners) = r.set_query_param (codes "owners") (bind_param_owners owners)

    unfoldable pub write_connection_params : ConnectionParams → Exec R (Unit {0})
    write_connection_params params = do
      r.set_timeout params.timeout
      r.set_path_param (codes "connection_id") params.connection_id

    unfoldable pub write_query_params : QueryParams → Exec R (Unit {0})
    unfolding set_text
    write_query_params params = do
      r.set_timeout params.timeout
      set_text (codes "query_id") params.query_id

    unfoldable pub write_queries_params : QueriesParams → Exec R (Unit {0})
    unfolding set_text set_owners set_flag set_bytes
    write_queries_params params = do
      r.set_timeout params.timeout
      set_text (codes "connection_id") params.connection_id
      set_owners params.owners
      set_flag (codes "pagination.count_total") params.pagination_count_total
      set_bytes (codes "pagination.key") params.pagination_key
      set_text (codes "pagination.limit") params.pagination_limit
      set_text (codes "pagination.offset") params.pagination_offset
      set_flag (codes "pagination.reverse") params.pagination_reverse
