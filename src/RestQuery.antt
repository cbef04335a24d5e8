-- ===== src/RestQuery.antt =====
-- internal/subscriber/querier/client/query/utils.go: registered queries as Neutron's REST API
-- spells them, read into the relayer's numbers.
pub mod ReadBack
use neutron_query_relayer.Prelude.{ℕ, ◌≡◌, refl, Option, none, some, List, [], ◌∷◌, Bytes, codes}
use neutron_query_relayer.Errors.{Error, Result, ok, err, context, ◌>>=◌}
use neutron_query_relayer.Strconv.{parse_uint}
use neutron_query_relayer.Relay.{KvKey, RegisteredQuery}

pub record RestKey : Type 0 where
  pub path : Bytes
  pub key : Bytes

pub record RestHeight : Type 0 where
  pub revision_number : Bytes
  pub revision_height : Bytes

-- the fields that the two response types have in common
pub record RestQuery : Type 0 where
  pub id : Bytes
  pub owner : Bytes
  pub query_type : Bytes
  pub keys : List RestKey
  pub transactions_filter : Bytes
  pub connection_id : Bytes
  pub update_period : Bytes
  pub last_submitted_result_local_height : Bytes
  pub last_submitted_result_remote_height : Option RestHeight

-- clienttypes.Height
pub record Height : Type 0 where
  pub revision_number : ℕ
  pub revision_height : ℕ

parse : Bytes → Bytes → Result ℕ
parse what s = context what (parse_uint s)

neutron_keys : List RestKey → List KvKey
neutron_keys [] = []
neutron_keys (rest_key ∷ keys) =
    record { path = rest_key.path; key = rest_key.key } ∷ neutron_keys keys

remote_height : Bytes → Option RestHeight → Result Height
remote_height what none = ok (record { revision_number = 0; revision_height = 0 })
remote_height what (some h) = do
  revision_number ← parse what h.revision_number
  revision_height ←
      parse (codes "failed to parse o.LastSubmittedResultRemoteHeight.RevisionHeight")
        h.revision_height
  ok (record { revision_number = revision_number; revision_height = revision_height })

-- the conversion, with the text of one error that the two versions do not share
convert : Bytes → RestQuery → Result RegisteredQuery
convert what o = do
  query_id ← parse (codes "failed to parse o.ID") o.id
  update_period ← parse (codes "failed to parse o.UpdatePeriod") o.update_period
  last_height ←
      parse (codes "failed to parse o.LastSubmittedResultLocalHeight")
        o.last_submitted_result_local_height
  query_height ← remote_height what o.last_submitted_result_remote_height
  ok (record {
    id = query_id;
    owner = o.owner;
    query_type = o.query_type;
    keys = neutron_keys o.keys;
    transactions_filter = o.transactions_filter;
    connection_id = o.connection_id;
    update_period = update_period;
    last_submitted_result_local_height = last_height;
    remote_revision_number = query_height.revision_number;
    remote_revision_height = query_height.revision_height;
  })

-- of an item of a page of queries
unfoldable pub item_to_neutron_registered_query : RestQuery → Result RegisteredQuery
unfolding convert parse remote_height neutron_keys
item_to_neutron_registered_query =
    convert (codes "failed to parse o.LastSubmittedResultRemoteHeight.RevisionNumber")

-- of the answer for one query; the text says RevisionHeight where it reads RevisionNumber
unfoldable pub to_neutron_registered_query : RestQuery → Result RegisteredQuery
unfolding convert parse remote_height neutron_keys
to_neutron_registered_query =
    convert (codes "failed to parse o.LastSubmittedResultRemoteHeight.RevisionHeight")
