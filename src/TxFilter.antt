-- ===== src/TxFilter.antt =====
-- The query string of a transactions search: `queryFromTxFilter` and `getOpSign` of
-- internal/relay/relayer.go.
pub mod Height
pub mod Plain
use neutron_query_relayer.Prelude.{
  ℕ, ◌+◌, ◌≡◌, refl, Bool, ◌&&◌, List, [], ◌∷◌, ◌++◌, map, Bytes, bytes_eq, codes, leb,
  if◌then◌else◌,
}
use neutron_query_relayer.Errors.{Result, ok, err, plain, ◌>>=◌}
use neutron_query_relayer.Strconv.{format_uint}

-- Go's float64, of which the filter needs the conversion `uint64(r)`.
pub record Float64 (Float : Type 0) : Type 0 where
  pub to_uint64 : Float → ℕ

-- The dynamic types of a filter item's `Value`; JSON gives no uint64, the height item does.
pub data FilterValue (Float : Type 0) : Type 0 where
  string : Bytes → FilterValue Float
  float64 : Float → FilterValue Float
  uint64 : ℕ → FilterValue Float
  other : FilterValue Float

pub record TransactionsFilterItem (Float : Type 0) : Type 0 where
  pub field : Bytes
  pub op : Bytes
  pub value : FilterValue Float

-- strings.ToLower, at the letters that a comparison with an ASCII word can meet
unfoldable pub to_lower : Bytes → Bytes
to_lower [] = []
to_lower (c ∷ s) = (if leb b'A' c && leb c b'Z' then c + 32 else c) ∷ to_lower s

sign_of : Bytes → Result Bytes
sign_of op =
    if bytes_eq op (codes "eq")
    then ok (codes "=")
    else if bytes_eq op (codes "gt")
    then ok (codes ">")
    else if bytes_eq op (codes "gte")
    then ok (codes ">=")
    else if bytes_eq op (codes "lt")
    then ok (codes "<")
    else if bytes_eq op (codes "lte")
    then ok (codes "<=")
    else err (plain (codes "unsupported operator"))

unfoldable pub get_op_sign : Bytes → Result Bytes
unfolding sign_of to_lower
get_op_sign op = sign_of (to_lower op)

-- strings.Join
unfoldable pub join : List Bytes → Bytes → Bytes
join [] sep = []
join (s ∷ []) sep = s
join (s ∷ t ∷ rest) sep = s ++ (sep ++ join (t ∷ rest) sep)

abbrev pub and_word : Bytes
and_word = codes " AND "

module _ {Float : Type 0} (fl : Float64 Float) where
  -- what one round of the loop appends to `queryParamsList`: the `switch` has no default
  condition : Bytes → Bytes → FilterValue Float → List Bytes
  condition field sign (string r) = (field ++ (sign ++ (codes "'" ++ (r ++ codes "'")))) ∷ []
  condition field sign (float64 r) = (field ++ (sign ++ format_uint (fl.to_uint64 r))) ∷ []
  condition field sign (uint64 r) = (field ++ (sign ++ format_uint r)) ∷ []
  condition field sign other = []

  conditions : List (TransactionsFilterItem Float) → List Bytes → Result (List Bytes)
  conditions [] query_params_list = ok query_params_list
  conditions (row ∷ params) query_params_list = do
    sign ← get_op_sign row.op
    conditions params (query_params_list ++ condition row.field sign row.value)

  pub query_from_tx_filter : List (TransactionsFilterItem Float) → Result Bytes
  unfolding conditions condition
  query_from_tx_filter params = do
    query_params_list ← conditions params []
    ok (join query_params_list and_word)

-- TxHeight
abbrev pub tx_height : Bytes
tx_height = codes "tx.height"

-- the item that `buildTxQuery` appends: tx.height > n
abbrev pub height_item : {Float : Type 0} → ℕ → TransactionsFilterItem Float
height_item n = record { field = tx_height; op = codes "gt"; value = uint64 n }
