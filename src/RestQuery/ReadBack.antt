-- ===== src/RestQuery/ReadBack.antt =====
-- Registered queries and their REST forms, for the conversions of internal/subscriber/querier.
use mathlib.Core.Path.{subst}
use neutron_query_relayer.Prelude.{◌<◌, ◌≡◌, refl, ap, some, List, [], ◌∷◌, Bytes, codes, u64}
use neutron_query_relayer.Errors.{Result, ok, err, context-ok, result_rule}
use neutron_query_relayer.Strconv.{parse_uint, format_uint}
use neutron_query_relayer.Strconv.RoundTrip.{parse_uint-format_uint}
use neutron_query_relayer.Relay.{KvKey, RegisteredQuery}
use neutron_query_relayer.RestQuery.{
  RestKey, RestQuery, parse, neutron_keys, remote_height, convert, item_to_neutron_registered_query,
  to_neutron_registered_query,
}

abbrev pub rest_keys : List KvKey → List RestKey
rest_keys [] = []
rest_keys (k ∷ keys) = record { path = k.path; key = k.key } ∷ rest_keys keys

-- The form in which the API shows a query: decimal numbers.
abbrev pub rest_form : RegisteredQuery → RestQuery
rest_form q = record {
  id = format_uint q.id;
  owner = q.owner;
  query_type = q.query_type;
  keys = rest_keys q.keys;
  transactions_filter = q.transactions_filter;
  connection_id = q.connection_id;
  update_period = format_uint q.update_period;
  last_submitted_result_local_height = format_uint q.last_submitted_result_local_height;
  last_submitted_result_remote_height = some (record {
    revision_number = format_uint q.remote_revision_number;
    revision_height = format_uint q.remote_revision_height;
  });
}

-- The numbers of the query are values of uint64.
abbrev pub IsUint64 : RegisteredQuery → Type 0
IsUint64 q =
    (q.id < u64)
    × (q.update_period < u64)
    × (q.last_submitted_result_local_height < u64)
    × (q.remote_revision_number < u64)
    × (q.remote_revision_height < u64)

neutron_keys-rest_keys : (keys : List KvKey) → neutron_keys (rest_keys keys) ≡ keys
unfolding neutron_keys
neutron_keys-rest_keys [] = refl
neutron_keys-rest_keys (k ∷ keys) = ap (◌∷◌ k) (neutron_keys-rest_keys keys)

convert-rest_form :
    (what : Bytes) (q : RegisteredQuery) → IsUint64 q → convert what (rest_form q) ≡ ok q
unfolding convert parse remote_height
convert-rest_form what q (i, p, l, n, h) =
    rw
      (
        parse_uint-format_uint q.id i,
        parse_uint-format_uint q.update_period p,
        parse_uint-format_uint q.last_submitted_result_local_height l,
        parse_uint-format_uint q.remote_revision_number n,
        parse_uint-format_uint q.remote_revision_height h,
        neutron_keys-rest_keys q.keys,
      )
      refl

-- Both conversions give back any query whose numbers fit uint64 from the form in which the API
-- shows it.
pub to_neutron_registered_query-rest_form :
    (q : RegisteredQuery)
    → IsUint64 q
    → (to_neutron_registered_query (rest_form q) ≡ ok q)
      × (item_to_neutron_registered_query (rest_form q) ≡ ok q)
unfolding to_neutron_registered_query item_to_neutron_registered_query
to_neutron_registered_query-rest_form q h = (convert-rest_form _ q h, convert-rest_form _ q h)

-- The query's id is the number that the API's text says.
abbrev IdOf : RestQuery → Result RegisteredQuery → Type 0
IdOf o (ok q) = parse_uint o.id ≡ ok q.id
IdOf o (err e) = Unit

convert-IdOf : (what : Bytes) (o : RestQuery) → IdOf o (convert what o)
unfolding convert parse
convert-IdOf what o =
    result_rule (IdOf o) (parse (codes "failed to parse o.ID") o.id) _
      (λ query_id e.
        result_rule (IdOf o) (parse (codes "failed to parse o.UpdatePeriod") o.update_period) _
          (λ update_period _.
            result_rule (IdOf o)
              (parse (codes "failed to parse o.LastSubmittedResultLocalHeight")
                o.last_submitted_result_local_height)
              _
              (λ last_height _.
                result_rule (IdOf o) (remote_height what o.last_submitted_result_remote_height) _
                  (λ query_height _. context-ok _ _ e) (λ x _. tt))
              (λ x _. tt))
          (λ x _. tt))
      (λ x _. tt)

pub item_to_neutron_registered_query-id :
    (o : RestQuery) (q : RegisteredQuery)
    → item_to_neutron_registered_query o ≡ ok q
    → parse_uint o.id ≡ ok q.id
unfolding item_to_neutron_registered_query
item_to_neutron_registered_query-id o q h = subst (IdOf o) h (convert-IdOf _ o)

pub to_neutron_registered_query-id :
    (o : RestQuery) (q : RegisteredQuery)
    → to_neutron_registered_query o ≡ ok q
    → parse_uint o.id ≡ ok q.id
unfolding to_neutron_registered_query
to_neutron_registered_query-id o q h = subst (IdOf o) h (convert-IdOf _ o)
