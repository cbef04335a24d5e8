-- ===== src/KvProcessor/Period.antt =====
-- isQueryOnTime of internal/kvprocessor/kvprocessor.go.
use neutron_query_relayer.Prelude.{
  ℕ, ◌+◌, ◌%◌, ◌≤◌, ◌≡◌, ◌⊎◌, inl, inr, refl, Bool, true, false, leb, ◌==◌, u64, arith, Bool-cases,
}
use neutron_query_relayer.Errors.{Result, ok, err}
use neutron_query_relayer.Exec.{pure, bind_rule}
use neutron_query_relayer.KvProcessor.{KvProcessor, on_time_after, is_query_on_time}

module _ {W Header Msg : Type 0} (p : KvProcessor W Header Msg) where
  -- The period after a height is over at another one, or the sum passes 64 bits: what is left of
  -- it is compared.
  abbrev pub PeriodIsOver : ℕ → ℕ → Type 0
  PeriodIsOver previous current =
      ((previous + p.min_kv_update_period) % u64 ≤ current)
      × ((previous + p.min_kv_update_period ≤ current) ⊎ (u64 ≤ previous + p.min_kv_update_period))

  -- What the check of a query's time says of the storage: there is no minimal period, or the
  -- stored height plus the period, as 64 bits hold it, is not above the current block, which was
  -- stored in its place.
  abbrev pub OnTime : ℕ → ℕ → W → Result Bool → W → Type 0
  OnTime query_id current w (err e) w' = Unit
  OnTime query_id current w (ok false) w' = ⊥
  OnTime query_id current w (ok true) w' =
      ((p.min_kv_update_period ≡ 0) × (w' ≡ w))
      ⊎ ((previous : ℕ) × (found : Bool) × ((p.storage.get_last_query_height query_id w).0
            ≡ ok (previous, found))
          × PeriodIsOver previous current
          × ((p.storage.set_last_query_height query_id current
                (p.storage.get_last_query_height query_id w).1).0
              ≡ ok tt)
          × (w'
              ≡ (p.storage.set_last_query_height query_id current
                  (p.storage.get_last_query_height query_id w).1).1))

  -- the second part, from the height that was read
  abbrev AfterRead : ℕ → ℕ → ℕ → W → Result Bool → W → Type 0
  AfterRead query_id current previous w (err e) w' = Unit
  AfterRead query_id current previous w (ok false) w' = ⊥
  AfterRead query_id current previous w (ok true) w' =
      PeriodIsOver previous current
      × ((p.storage.set_last_query_height query_id current w).0 ≡ ok tt)
      × (w' ≡ (p.storage.set_last_query_height query_id current w).1)

  over_of_test :
      (previous current : ℕ)
      → leb ((previous + p.min_kv_update_period) % u64) current ≡ true
      → PeriodIsOver previous current
  over_of_test previous current h = (ground (arith, h), ground (arith, h))

  on_time_after-AfterRead :
      (query_id current previous : ℕ) (w : W)
      → AfterRead query_id current previous w
          (on_time_after p query_id current previous w).0
          (on_time_after p query_id current previous w).1
  unfolding on_time_after
  on_time_after-AfterRead query_id current previous w =
      elim (Bool-cases (leb ((previous + p.min_kv_update_period) % u64) current)) [
        | inr n ↦ rw n tt
        | inl e ↦ rw e (
            bind_rule (AfterRead query_id current previous w)
              (p.storage.set_last_query_height query_id current) (λ _. pure true) w
              (λ _ s. (over_of_test previous current e, s, refl)) (λ x _. tt))
      ]

  of_read :
      (query_id current previous : ℕ) (found : Bool) (w : W) (r : Result Bool) (w' : W)
      → (p.storage.get_last_query_height query_id w).0 ≡ ok (previous, found)
      → AfterRead query_id current previous (p.storage.get_last_query_height query_id w).1 r w'
      → OnTime query_id current w r w'
  of_read query_id current previous found w (err e) w' g h = tt
  of_read query_id current previous found w (ok false) w' g h = h
  of_read query_id current previous found w (ok true) w' g (le, s, e) =
      inr (previous, found, g, le, s, e)

  zero_of_test : (a : ℕ) → (a == 0) ≡ true → a ≡ 0
  zero_of_test a h = ground (arith, h)

  -- The check of a KV query's time says yes only if there is no minimal period, with the state as
  -- it was, or if the stored height plus the period, modulo 2^64, is not above the current height,
  -- which is then stored, so that the period is over unless the sum passes 64 bits; and it never
  -- says no without an error.
  pub is_query_on_time-OnTime :
      (query_id current : ℕ) (w : W)
      → OnTime query_id current w
          (is_query_on_time p query_id current w).0
          (is_query_on_time p query_id current w).1
  unfolding is_query_on_time
  is_query_on_time-OnTime query_id current w = elim (Bool-cases (p.min_kv_update_period == 0)) [
    | inl e ↦ rw e (inl (zero_of_test p.min_kv_update_period e, refl))
    | inr n ↦ rw n (
        bind_rule (OnTime query_id current w) (p.storage.get_last_query_height query_id)
          (λ (previous, found). on_time_after p query_id current previous) w
          (λ (previous, found) g.
            of_read query_id current previous found w _ _ g
              (on_time_after-AfterRead query_id current previous _))
          (λ x _. tt))
  ]
