-- ===== src/TrustedHeaders/Paging.antt =====
-- The loop over the pages of getTrustedHeight (internal/trusted_headers/fetcher.go).
use mathlib.Core.Path.{subst}
use neutron_query_relayer.Prelude.{
  ℕ, ◌<◌, ◌≡◌, ◌≢◌, inl, inr, refl, ap, ◌∙◌, false, Option, none, some, [], Bytes, bytes_eq, codes,
  Bool-cases,
}
use neutron_query_relayer.Errors.{Result, ok, err, context-ok}
use neutron_query_relayer.Exec.{pure, lift, wrapping, bind_rule, ◌>>=◌}
use neutron_query_relayer.Loop.{Step, more, done, loop, loop-returns}
use neutron_query_relayer.RestQuery.{Height}
use neutron_query_relayer.TrustedHeaders.{
  Page, TrustedHeaderFetcher, fetch_trusting_period, find_in, next_page, search_page, found_height,
  check_provider, get_trusted_height,
}

-- What the pagination of consensus states promises: a page that is not the last one names a key
-- with fewer states behind it than the page's own key has.
pub record Advances {W Header Validators : Type 0} (thf : TrustedHeaderFetcher W Header Validators)
    (remaining : Bytes → ℕ) : Type 0 where
  pub next :
      (key : Bytes) (w : W) (page : Page)
      → (thf.consensus_states key w).0 ≡ ok page
      → bytes_eq page.next_key [] ≡ false
      → remaining page.next_key < remaining key

module _ {W Header Validators : Type 0} (thf : TrustedHeaderFetcher W Header Validators)
    (remaining : Bytes → ℕ) (adv : Advances thf remaining) where
  abbrev Lower : Bytes → Result (Step Bytes (Option Height)) → Type 0
  Lower key (ok (more k)) = remaining k < remaining key
  Lower key (ok (done r)) = Unit
  Lower key (err e) = Unit

  next_page-Lower :
      (key next_key : Bytes) (found : Option Height)
      → (bytes_eq next_key [] ≡ false → remaining next_key < remaining key)
      → Lower key (ok (next_page thf next_key found))
  unfolding next_page
  next_page-Lower key next_key (some h) k = tt
  next_page-Lower key next_key none k = elim (Bool-cases (bytes_eq next_key [])) [
    | inl e ↦ rw e tt
    | inr n ↦ rw n (k n)
  ]

  search_page-Lower :
      (period height : ℕ) (key : Bytes) (w : W) → Lower key (search_page thf period height key w).0
  unfolding search_page
  search_page-Lower period height key w =
      bind_rule (λ r _. Lower key r)
        (wrapping (codes "failed to get consensus states for client ID") (thf.consensus_states key))
        (λ page. find_in thf page.consensus_states period height >>= λ found.
          pure (next_page thf page.next_key found))
        w
        (λ page e.
          bind_rule (λ r _. Lower key r) (find_in thf page.consensus_states period height)
            (λ found. pure (next_page thf page.next_key found)) _
            (λ found _.
              next_page-Lower key page.next_key found (adv.next key w page (context-ok _ _ e)))
            (λ x _. tt))
        (λ x _. tt)

  found_height-some : (r : Option (Option Height)) → r ≢ none → found_height thf r ≢ ok none
  unfolding found_height
  found_height-some none n = λ _. n refl
  found_height-some (some none) n = λ h. cc
  found_height-some (some (some t)) n = λ h. cc

  -- When each next key has fewer consensus states behind it than its page's own key, the search
  -- for a trusted height ends on any fuel above the number for the first page.
  pub get_trusted_height-returns :
      (fuel height : ℕ) (w : W)
      → remaining [] < fuel
      → (get_trusted_height thf fuel height w).0 ≢ ok none
  unfolding get_trusted_height
  get_trusted_height-returns fuel height w h =
      bind_rule (λ r _. r ≢ ok none) (lift (check_provider thf)) _ w
        (λ _ _.
          bind_rule (λ r _. r ≢ ok none)
            (wrapping (codes "failed to fetch trusting period") (fetch_trusting_period thf))
            (λ period.
              loop (search_page thf period height) fuel [] >>= λ r. lift (found_height thf r))
            w
            (λ period _.
              bind_rule (λ r _. r ≢ ok none) (loop (search_page thf period height) fuel [])
                (λ r. lift (found_height thf r)) _
                (λ r e. found_height-some r (λ n.
                  loop-returns (search_page thf period height) remaining
                    (λ key w' k e'. subst (Lower key) e' (search_page-Lower period height key w'))
                    fuel [] _ h (e ∙ ap ok n)))
                (λ x _ k. cc))
            (λ x _ k. cc))
        (λ x _ k. cc)
