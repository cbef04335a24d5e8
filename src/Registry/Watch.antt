-- ===== src/Registry/Watch.antt =====
-- What a registry of internal/registry/registry.go watches.
use neutron_query_relayer.Prelude.{
  ℕ, ◌<◌, ◌≡◌, ◌↔◌, refl, Bool, true, ◌||◌, List, [], ◌∷◌, Bytes, bytes_eq, bytes_eq_iff, ◌==◌,
  length, arith,
}
use neutron_query_relayer.Registry.{
  has_key, set_key, set_keys, RegistryConfig, new, nat_eq, is_addresses_empty, is_query_ids_empty,
  contains_address, contains_query_id,
}

module _ {K : Type 0} (eq : K → K → Bool) (eq_iff : (a b : K) → (eq a b ≡ true) ↔ (a ≡ b)) where
  has_key-set_key :
      (m : List K) (k j : K) → has_key eq (set_key eq m k) j ≡ (eq k j || has_key eq m j)
  unfolding has_key set_key
  has_key-set_key [] k j = refl
  has_key-set_key (i ∷ m) k j =
      ground (arith, has_key-set_key m k j, eq_iff i k, eq_iff i j, eq_iff k j)

  has_key-set_keys :
      (m ks : List K) (j : K)
      → has_key eq (set_keys eq m ks) j ≡ (has_key eq ks j || has_key eq m j)
  unfolding has_key set_keys
  has_key-set_keys m [] j = refl
  has_key-set_keys m (k ∷ ks) j =
      ground (arith, has_key-set_keys (set_key eq m k) ks j, has_key-set_key m k j)

nat_eq_iff : (a b : ℕ) → (nat_eq a b ≡ true) ↔ (a ≡ b)
nat_eq_iff a b = ground arith

length-set_key-pos :
    {K : Type 0} (eq : K → K → Bool) (m : List K) (k : K) → 0 < length (set_key eq m k)
unfolding set_key
length-set_key-pos eq [] k = omega arith
length-set_key-pos eq (j ∷ m) k = ground arith

length-set_keys-pos :
    {K : Type 0} (eq : K → K → Bool) (m ks : List K) → 0 < length m → 0 < length (set_keys eq m ks)
unfolding set_keys
length-set_keys-pos eq m [] h = h
length-set_keys-pos eq m (k ∷ ks) h =
    length-set_keys-pos eq (set_key eq m k) ks (length-set_key-pos eq m k)

-- A set built from a list is empty exactly when the list is.
empty-set_keys :
    {K : Type 0} (eq : K → K → Bool) (ks : List K)
    → (length (set_keys eq [] ks) == 0) ≡ (length ks == 0)
unfolding set_keys
empty-set_keys eq [] = refl
empty-set_keys eq (k ∷ ks) =
    ground (arith, length-set_keys-pos eq (set_key eq [] k) ks (length-set_key-pos eq [] k))

-- A registry built from a configuration contains exactly the configured ids and addresses, and is
-- empty of them exactly when the configuration is.
pub new_watches :
    (cfg : RegistryConfig)
    → ((q : ℕ) → contains_query_id (new cfg) q ≡ has_key nat_eq cfg.query_ids q)
      × ((a : Bytes) → contains_address (new cfg) a ≡ has_key bytes_eq cfg.addresses a)
      × (is_query_ids_empty (new cfg) ≡ (length cfg.query_ids == 0))
      × (is_addresses_empty (new cfg) ≡ (length cfg.addresses == 0))
unfolding contains_query_id contains_address new is_query_ids_empty is_addresses_empty has_key
new_watches cfg = (
  λ q. ground (arith, has_key-set_keys nat_eq nat_eq_iff [] cfg.query_ids q),
  λ a. ground (arith, has_key-set_keys bytes_eq bytes_eq_iff [] cfg.addresses a),
  empty-set_keys nat_eq cfg.query_ids,
  empty-set_keys bytes_eq cfg.addresses,
)
