-- ===== src/Registry.antt =====
-- internal/registry/registry.go: the watch list of addresses and query ids.
pub mod Watch
use neutron_query_relayer.Prelude.{
  ℕ, Bool, true, false, ◌||◌, List, [], ◌∷◌, ◌++◌, Bytes, bytes_eq, ◌==◌, if◌then◌else◌, length,
}

-- Go's `map[K]struct{}` is the list of its keys, each once; the order stands for the order in
-- which a `range` visits them, which Go leaves open.
module _ {K : Type 0} (eq : K → K → Bool) where
  unfoldable pub has_key : List K → K → Bool
  has_key [] k = false
  has_key (j ∷ m) k = eq j k || has_key m k

  unfoldable pub set_key : List K → K → List K
  set_key [] k = k ∷ []
  set_key (j ∷ m) k = if eq j k then j ∷ m else j ∷ set_key m k

  unfoldable pub set_keys : List K → List K → List K
  set_keys m [] = m
  set_keys m (k ∷ ks) = set_keys (set_key m k) ks

pub record RegistryConfig : Type 0 where
  pub addresses : List Bytes
  pub query_ids : List ℕ

pub record Registry : Type 0 where
  pub addresses : List Bytes
  pub query_ids : List ℕ

abbrev pub nat_eq : ℕ → ℕ → Bool
nat_eq a b = a == b

unfoldable pub new : RegistryConfig → Registry
new cfg = record {
  addresses = set_keys bytes_eq [] cfg.addresses;
  query_ids = set_keys nat_eq [] cfg.query_ids;
}

unfoldable pub is_addresses_empty : Registry → Bool
is_addresses_empty r = length r.addresses == 0

unfoldable pub is_query_ids_empty : Registry → Bool
is_query_ids_empty r = length r.query_ids == 0

unfoldable pub contains_address : Registry → Bytes → Bool
contains_address r addr = has_key bytes_eq r.addresses addr

unfoldable pub contains_query_id : Registry → ℕ → Bool
contains_query_id r query_id = has_key nat_eq r.query_ids query_id

-- the loop appends each key of the map to `out`
collect : List Bytes → List Bytes → List Bytes
collect [] out = out
collect (addr ∷ m) out = collect m (out ++ addr ∷ [])

unfoldable pub get_addresses : Registry → List Bytes
unfolding collect
get_addresses r = collect r.addresses []
