-- ===== src/Storage/Memory.antt =====
-- A database that meets the documented behaviour: an association list, with codecs for it.
use mathlib.Core.List.{Memᴰ}
use mathlib.Core.Path.{subst}
use neutron_query_relayer.Prelude.{
  refl, sym, inl, inr, ◌||◌, ◌++◌, starts_with, bytes_eq_iff, Bool-cases, ◌≡◌, Bool, true, false,
  Option, none, some, List, [], ◌∷◌, Bytes, bytes_eq, if◌then◌else◌, arith,
}
use neutron_query_relayer.Errors.{Result, ok, err, not_found}
use neutron_query_relayer.Storage.Interface.{LevelDb, Laws, write}

abbrev pub Memory : Type 0
Memory = List (Bytes × Option Bytes)

unfoldable pub find : Memory → Bytes → Option Bytes
find [] k = none
find ((j, v) ∷ m) k = if bytes_eq j k then v else find m k

-- the values under a prefix, of keys that were not seen yet; the order is that of the writes
has : List Bytes → Bytes → Bool
has [] k = false
has (j ∷ seen) k = bytes_eq j k || has seen k

abbrev shown : Bytes → Bytes → Option Bytes → List Bytes → List Bytes
shown prefix k none rest = rest
shown prefix k (some v) rest = if starts_with k prefix then v ∷ rest else rest

pub scan : Bytes → List Bytes → Memory → List Bytes
unfolding has
scan prefix seen [] = []
scan prefix seen ((k, v) ∷ d) =
    let rest = scan prefix seen d in
    let after = shown prefix k v (scan prefix (k ∷ seen) d) in if has seen k then rest else after

abbrev or_not_found : Option Bytes → Result Bytes
or_not_found none = err not_found
or_not_found (some v) = ok v

abbrev pub is_some : Option Bytes → Bool
is_some none = false
is_some (some v) = true

abbrev pub memory_db : LevelDb Memory Memory
memory_db = record {
  get = λ d k. or_not_found (find d k);
  has = λ d k. ok (is_some (find d k));
  put = λ d k v. ok ((k, some v) ∷ d);
  open_transaction = λ d. ok d;
  batch_put = λ t k v. ok ((k, some v) ∷ t);
  batch_delete = λ t k. ok ((k, none) ∷ t);
  commit = λ t. ok t;
  values = λ d p. scan p [] d;
}

pub get_ok_lem : (d : Memory) (k v : Bytes) → memory_db.get d k ≡ ok v → find d k ≡ some v
get_ok_lem d k v h = ground arith

pub get_missing_lem : (d : Memory) (k : Bytes) → memory_db.get d k ≡ err not_found → find d k ≡ none
get_missing_lem d k h = ground arith

pub has_ok_lem :
    (d : Memory) (k : Bytes) (b : Bool)
    → memory_db.has d k ≡ ok b
    → b ≡ elim (find d k) [ none ↦ false | some v ↦ true ]
has_ok_lem d k b h = ground arith

pub same_lem : (d t : Memory) (j : Bytes) → ok d ≡ ok t → find t j ≡ find d j
same_lem d t j h = cc

pub write_lem :
    (d t : Memory) (k : Bytes) (v : Option Bytes) (j : Bytes)
    → ok ((k, v) ∷ d) ≡ ok t
    → find t j ≡ write (find d) k v j
unfolding find
write_lem d t k v j h = ground arith

abbrev pub memory_laws : Laws memory_db
memory_laws = record {
  contents = find;
  staged = find;
  get_ok = get_ok_lem;
  get_missing = get_missing_lem;
  has_ok = has_ok_lem;
  put_ok = λ d t k v j h. write_lem d t k (some v) j h;
  open_ok = same_lem;
  batch_put_ok = λ d t k v j h. write_lem d t k (some v) j h;
  batch_delete_ok = λ d t k j h. write_lem d t k none j h;
  commit_ok = same_lem;
}

starts_with-append : (p rest : Bytes) → starts_with (p ++ rest) p ≡ true
unfolding starts_with
starts_with-append [] [] = refl
starts_with-append [] (b ∷ rest) = refl
starts_with-append (a ∷ p) rest = ground (arith, starts_with-append p rest)

shown-Memᴰ :
    (prefix k v : Bytes) (rest : List Bytes)
    → starts_with k prefix ≡ true
    → Memᴰ v (shown prefix k (some v) rest)
shown-Memᴰ prefix k v rest h = rw h (Memᴰ.head refl)

shown-Memᴰ-rest :
    (prefix k v : Bytes) (o : Option Bytes) (rest : List Bytes)
    → Memᴰ v rest
    → Memᴰ v (shown prefix k o rest)
shown-Memᴰ-rest prefix k v none rest h = h
shown-Memᴰ-rest prefix k v (some u) rest h = elim (Bool-cases (starts_with k prefix)) [
  | inl t ↦ rw t (Memᴰ.tail h)
  | inr f ↦ rw f h
]

has-cons :
    (j k : Bytes) (seen : List Bytes)
    → bytes_eq j k ≡ false
    → has seen k ≡ false
    → has (j ∷ seen) k ≡ false
unfolding has
has-cons j k seen h g = ground arith

-- the newest entry of the key
scan-Memᴰ-here :
    (prefix k v : Bytes) (seen : List Bytes) (o : Option Bytes) (d : Memory)
    → starts_with k prefix ≡ true
    → has seen k ≡ false
    → o ≡ some v
    → Memᴰ v (scan prefix seen ((k, o) ∷ d))
unfolding scan
scan-Memᴰ-here prefix k v seen o d p n e = rw (n, e) (shown-Memᴰ prefix k v _ p)

scan-Memᴰ :
    (prefix k v : Bytes) (seen : List Bytes) (d : Memory)
    → starts_with k prefix ≡ true
    → has seen k ≡ false
    → find d k ≡ some v
    → Memᴰ v (scan prefix seen d)
unfolding scan find
scan-Memᴰ prefix k v seen [] p n h = cc
scan-Memᴰ prefix k v seen ((j, o) ∷ d) p n h = elim (Bool-cases (bytes_eq j k)) [
  | inl e ↦
      subst (λ i. Memᴰ v (scan prefix seen ((i, o) ∷ d))) (sym ((bytes_eq_iff j k).0 e))
        (scan-Memᴰ-here prefix k v seen o d p n (ground (arith, h, e)))
  | inr f ↦ elim (Bool-cases (has seen j)) [
    | inl t ↦ rw t (scan-Memᴰ prefix k v seen d p n (ground (arith, h, f)))
    | inr g ↦ rw g (
        shown-Memᴰ-rest prefix j v o _
          (scan-Memᴰ prefix k v (j ∷ seen) d p (has-cons j k seen f n) (ground (arith, h, f))))
  ]
]

-- Every entry under a prefix is visited.
pub memory_visits :
    (d : Memory) (prefix rest v : Bytes)
    → find d (prefix ++ rest) ≡ some v
    → Memᴰ v (memory_db.values d prefix)
unfolding has
memory_visits d prefix rest v h =
    scan-Memᴰ prefix (prefix ++ rest) v [] d (starts_with-append prefix rest) refl h
