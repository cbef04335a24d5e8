-- ===== src/RestParams/Written.antt =====
-- What the generated parameters write into a request, as a list of what is set.
use mathlib.Core.Path.{subst}
use neutron_query_relayer.Prelude.{
  ◌≡◌, refl, sym, Bool, Option, none, some, List, [], ◌∷◌, ◌++◌, append_assoc, append-nil, Bytes,
  bytes_eq, codes, ◌∙◌,
}
use neutron_query_relayer.Errors.{Result, ok, err}
use neutron_query_relayer.Exec.{Exec, pure, continue, ◌>>◌}
use neutron_query_relayer.RestParams.{
  ClientRequest, Formats, QueriesParams, copy_owners, bind_param_owners, set_given, set_text,
  set_flag, set_bytes, set_owners, write_queries_params,
}

-- a parameter with its values
abbrev Entry : Type 0
Entry = Bytes × List Bytes

-- The parameter with its text, if it is given and not empty.
abbrev entry : Bytes → Option Bytes → List Entry
entry name none = []
entry name (some []) = []
entry name (some (b ∷ bs)) = (name, (b ∷ bs) ∷ []) ∷ []

abbrev option_map {ℓ} : {A B : Type ℓ} → (A → B) → Option A → Option B
option_map f none = none
option_map f (some a) = some (f a)

module _ (formats : Formats) where
  abbrev owners_entry : Option (List Bytes) → List Entry
  owners_entry none = []
  owners_entry (some owners) = (codes "owners", formats.join_multi owners) ∷ []

  -- What the parameters of a request for a page of queries are.
  abbrev pub entries : QueriesParams → List Entry
  entries params =
      entry (codes "connection_id") params.connection_id
      ++ (owners_entry params.owners
          ++ (entry (codes "pagination.count_total")
                (option_map formats.format_bool params.pagination_count_total)
              ++ (entry (codes "pagination.key")
                    (option_map formats.base64_string params.pagination_key)
                  ++ (entry (codes "pagination.limit") params.pagination_limit
                      ++ (entry (codes "pagination.offset") params.pagination_offset
                          ++ entry (codes "pagination.reverse")
                              (option_map formats.format_bool params.pagination_reverse))))))

  copy_owners_lem : (xs ys : List Bytes) → copy_owners formats xs ys ≡ xs ++ ys
  unfolding copy_owners
  copy_owners_lem xs [] = rw (append-nil xs) refl
  copy_owners_lem xs (y ∷ ys) =
      rw (copy_owners_lem (xs ++ (y ∷ [])) ys, append_assoc xs (y ∷ []) ys) refl

  module _ {R : Type 0} (r : ClientRequest R) where
    -- The entries set one after another, up to the first that is refused.
    abbrev pub set_all : List Entry → Exec R (Unit {0})
    set_all [] = pure tt
    set_all ((name, values) ∷ es) = r.set_query_param name values >> set_all es

    record Writes (m : Exec R (Unit {0})) (es : List Entry) : Type 0 where
      at : (s : R) → m s ≡ set_all es s

    same_after :
        (x : Result (Unit {0})) (s : R) (m n : Exec R (Unit {0}))
        → ((s : R) → m s ≡ n s)
        → continue x (λ _. m) s ≡ continue x (λ _. n) s
    same_after (ok a) s m n h = h s
    same_after (err e) s m n h = refl

    assoc_after :
        (x : Result (Unit {0})) (s : R) (m n : Exec R (Unit {0}))
        → continue x (λ _. m >> n) s ≡ ((λ w. continue x (λ _. m) w) >> n) s
    assoc_after (ok a) s m n = refl
    assoc_after (err e) s m n = refl

    set_all-append :
        (xs ys : List Entry) (s : R) → set_all (xs ++ ys) s ≡ (set_all xs >> set_all ys) s
    set_all-append [] ys s = refl
    set_all-append ((name, values) ∷ xs) ys s =
        let (x, s') = r.set_query_param name values s in
        same_after x s' _ _ (set_all-append xs ys) ∙ assoc_after x s' (set_all xs) (set_all ys)

    last_after : (x : Result (Unit {0})) (s : R) → (x, s) ≡ continue x (λ _. pure tt) s
    last_after (ok a) s = refl
    last_after (err e) s = refl

    Writes-bind :
        (m n : Exec R (Unit {0})) (xs ys : List Entry)
        → Writes m xs
        → Writes n ys
        → Writes (m >> n) (xs ++ ys)
    Writes-bind m n xs ys hm hn = record {
      at = λ s. rw (set_all-append xs ys s, hm.at s) (same_after _ _ n (set_all ys) hn.at);
    }

    Writes-one :
        (name : Bytes) (values : List Bytes)
        → Writes (r.set_query_param name values) ((name, values) ∷ [])
    Writes-one name values = record { at = λ s. last_after _ _ }

    set_given-Writes : (name q : Bytes) → Writes (set_given formats r name q) (entry name (some q))
    unfolding set_given bytes_eq
    set_given-Writes name [] = record { at = λ s. refl }
    set_given-Writes name (b ∷ bs) = record { at = λ s. last_after _ _ }

    set_text-Writes :
        (name : Bytes) (o : Option Bytes) → Writes (set_text formats r name o) (entry name o)
    unfolding set_text
    set_text-Writes name none = record { at = λ s. refl }
    set_text-Writes name (some q) = set_given-Writes name q

    set_flag-Writes :
        (name : Bytes) (o : Option Bool)
        → Writes (set_flag formats r name o) (entry name (option_map formats.format_bool o))
    unfolding set_flag
    set_flag-Writes name none = record { at = λ s. refl }
    set_flag-Writes name (some b) = set_given-Writes name (formats.format_bool b)

    set_bytes-Writes :
        (name : Bytes) (o : Option Bytes)
        → Writes (set_bytes formats r name o) (entry name (option_map formats.base64_string o))
    unfolding set_bytes
    set_bytes-Writes name none = record { at = λ s. refl }
    set_bytes-Writes name (some q) = set_given-Writes name (formats.base64_string q)

    set_owners-Writes : (o : Option (List Bytes)) → Writes (set_owners formats r o) (owners_entry o)
    unfolding set_owners bind_param_owners
    set_owners-Writes none = record { at = λ s. refl }
    set_owners-Writes (some owners) =
        subst
          (λ os.
            Writes (r.set_query_param (codes "owners") (formats.join_multi os))
              (owners_entry (some owners)))
          (sym (copy_owners_lem [] owners)) (Writes-one _ _)

    -- From any state of a request, writing the parameters for a page of queries is to set the
    -- timeout and then, one after another, exactly the parameters that are given and whose text is
    -- not empty (the owners whenever they are given), up to the first one that is refused.
    pub write_queries_params_lem :
        (params : QueriesParams) (s : R)
        → write_queries_params formats r params s
          ≡ (r.set_timeout params.timeout >> set_all (entries params)) s
    unfolding write_queries_params
    write_queries_params_lem params s =
        same_after _ _ _ _
          (Writes-bind _ _ _ _ (set_text-Writes _ params.connection_id) (
            Writes-bind _ _ _ _ (set_owners-Writes params.owners) (
              Writes-bind _ _ _ _ (set_flag-Writes _ params.pagination_count_total) (
                Writes-bind _ _ _ _ (set_bytes-Writes _ params.pagination_key) (
                  Writes-bind _ _ _ _ (set_text-Writes _ params.pagination_limit) (
                    Writes-bind _ _ _ _ (set_text-Writes _ params.pagination_offset)
                      (set_flag-Writes _ params.pagination_reverse))))))).at
