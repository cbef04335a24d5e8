-- ===== src/Examples/Texts.antt =====
-- The theorems on texts and on the registry, at inputs.
use neutron_query_relayer.Prelude.{ℕ, ◌≡◌, List, [], ◌∷◌, ◌++◌, codes, arith}
use neutron_query_relayer.Errors.{ok}
use neutron_query_relayer.Strconv.{parse_uint, format_uint}
use neutron_query_relayer.Strconv.RoundTrip.{parse_uint-format_uint}
use neutron_query_relayer.Hex.{decode_string, encode_to_string, decode_string-encode_to_string}
use neutron_query_relayer.Registry.{RegistryConfig}
use neutron_query_relayer.TxFilter.{
  Float64, TransactionsFilterItem, string, query_from_tx_filter, height_item,
}
use neutron_query_relayer.TxFilter.Height.{Bounded, query_from_tx_filter-Bounded}

parse_format_test : parse_uint (format_uint 120) ≡ ok 120
parse_format_test = parse_uint-format_uint 120 (omega arith)

decode_encode_test : decode_string (encode_to_string (202 ∷ 254 ∷ [])) ≡ ok (202 ∷ 254 ∷ [])
decode_encode_test =
    decode_string-encode_to_string (202 ∷ 254 ∷ []) (omega arith, (omega arith, tt))

abbrev config : RegistryConfig
config = record { addresses = []; query_ids = 7 ∷ 8 ∷ 7 ∷ [] }

abbrev floats : Float64 ℕ
floats = record { to_uint64 = λ x. x }

abbrev filter : List (TransactionsFilterItem ℕ)
filter =
    record { field = codes "transfer.recipient"; op = codes "Eq"; value = string (codes "me") } ∷ []

query_from_tx_filter-Bounded_example :
    Bounded floats 9 (query_from_tx_filter floats (filter ++ height_item 9 ∷ []))
query_from_tx_filter-Bounded_example = query_from_tx_filter-Bounded floats filter 9
