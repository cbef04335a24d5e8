-- ===== src/QueryMap.antt =====
-- activeQueries, the map[string]*RegisteredQuery of internal/subscriber/subscriber.go.
use mathlib.Core.Path.{subst}
use mathlib.Core.Logic.{inl, inr}
use neutron_query_relayer.Prelude.{
  ◌≡◌, refl, sym, Option, none, some, List, [], ◌∷◌, Bytes, bytes_eq, bytes_eq_iff, if◌then◌else◌,
  arith, All, Bool-cases,
}
use neutron_query_relayer.Relay.{RegisteredQuery}

-- The entries of the map, each key once, in the order in which a `range` visits them (Go leaves
-- the order open).
abbrev pub QueryMap : Type 0
QueryMap = List (Bytes × RegisteredQuery)

unfoldable pub map_set : QueryMap → Bytes → RegisteredQuery → QueryMap
map_set [] k q = (k, q) ∷ []
map_set ((j, p) ∷ m) k q = if bytes_eq j k then (j, q) ∷ m else (j, p) ∷ map_set m k q

unfoldable pub map_delete : QueryMap → Bytes → QueryMap
map_delete [] k = []
map_delete ((j, p) ∷ m) k = if bytes_eq j k then map_delete m k else (j, p) ∷ map_delete m k

unfoldable pub map_get : QueryMap → Bytes → Option RegisteredQuery
map_get [] k = none
map_get ((j, p) ∷ m) k = if bytes_eq j k then some p else map_get m k

-- Every entry of a map with a query set or deleted has what the entries had.
module _ {κ} (P : Bytes → RegisteredQuery → Type κ) where
  abbrev pub AllEntries : QueryMap → Type κ
  AllEntries m = All (λ e. P e.0 e.1) m

  pub map_set-AllEntries :
      (m : QueryMap) (k : Bytes) (q : RegisteredQuery)
      → AllEntries m
      → P k q
      → AllEntries (map_set m k q)
  unfolding map_set
  map_set-AllEntries [] k q h p = (p, tt)
  map_set-AllEntries ((j, o) ∷ m) k q h p = elim (Bool-cases (bytes_eq j k)) [
    | inl e ↦ rw e (subst (λ i. P i q) (sym ((bytes_eq_iff j k).0 e)) p, h.1)
    | inr n ↦ rw n (h.0, map_set-AllEntries m k q h.1 p)
  ]

  pub map_delete-AllEntries :
      (m : QueryMap) (k : Bytes) → AllEntries m → AllEntries (map_delete m k)
  unfolding map_delete
  map_delete-AllEntries [] k h = tt
  map_delete-AllEntries ((j, o) ∷ m) k h = elim (Bool-cases (bytes_eq j k)) [
    | inl e ↦ rw e (map_delete-AllEntries m k h.1)
    | inr n ↦ rw n (h.0, map_delete-AllEntries m k h.1)
  ]

pub map_get-map_set :
    (m : QueryMap) (k j : Bytes) (q : RegisteredQuery)
    → map_get (map_set m k q) j ≡ (if bytes_eq k j then some q else map_get m j)
unfolding map_get map_set
map_get-map_set [] k j q = refl
map_get-map_set ((i, o) ∷ m) k j q =
    ground (arith, map_get-map_set m k j q, bytes_eq_iff i k, bytes_eq_iff i j, bytes_eq_iff k j)

pub map_get-map_delete :
    (m : QueryMap) (k j : Bytes)
    → map_get (map_delete m k) j ≡ (if bytes_eq k j then none else map_get m j)
unfolding map_get map_delete
map_get-map_delete [] k j = ground arith
map_get-map_delete ((i, o) ∷ m) k j =
    ground (arith, map_get-map_delete m k j, bytes_eq_iff i k, bytes_eq_iff i j, bytes_eq_iff k j)
