-- ===== src/TxFilter/Height.antt =====
-- The condition on the height in a query string of internal/relay/relayer.go.
use mathlib.Core.Path.{subst}
use neutron_query_relayer.Prelude.{
  ℕ, ◌≡◌, ◌⊎◌, inl, inr, refl, sym, List, [], ◌∷◌, ◌++◌, append_assoc, Bytes, bytes_eq, codes,
}
use neutron_query_relayer.Errors.{Result, ok, err, ◌>>=◌}
use neutron_query_relayer.Strconv.{format_uint}
use neutron_query_relayer.TxFilter.{
  Float64, TransactionsFilterItem, get_op_sign, join, and_word, condition, conditions,
  query_from_tx_filter, tx_height, height_item,
}

abbrev pub height_condition : ℕ → Bytes
height_condition n = tx_height ++ (codes ">" ++ format_uint n)

-- The text, with the condition on the height alone or behind other conditions and ` AND `.
abbrev pub EndsWithHeight : ℕ → Bytes → Type 0
EndsWithHeight n s =
    (s ≡ height_condition n) ⊎ ((p : Bytes) × (s ≡ p ++ (and_word ++ height_condition n)))

join-snoc :
    (s : Bytes) (ss : List Bytes) (t sep : Bytes)
    → join ((s ∷ ss) ++ t ∷ []) sep ≡ join (s ∷ ss) sep ++ (sep ++ t)
unfolding join
join-snoc s [] t sep = refl
join-snoc s (u ∷ ss) t sep = simp (join-snoc u ss t sep, append_assoc)

join_ends :
    (ss : List Bytes) (n : ℕ) → EndsWithHeight n (join (ss ++ height_condition n ∷ []) and_word)
unfolding join
join_ends [] n = inl refl
join_ends (s ∷ ss) n = inr (join (s ∷ ss) and_word, join-snoc s ss (height_condition n) and_word)

module _ {Float : Type 0} (fl : Float64 Float) where
  -- A query string either is refused for its operator, or bounds the height.
  abbrev pub Bounded : ℕ → Result Bytes → Type 0
  Bounded n (ok s) = EndsWithHeight n s
  Bounded n (err e) = Unit

  Bounded-bind :
      (n : ℕ) (r : Result Bytes) (f : Bytes → Result (List Bytes))
      → ((sign : Bytes) → Bounded n (do l ← f sign; ok (join l and_word)))
      → Bounded n (do sign ← r; l ← f sign; ok (join l and_word))
  Bounded-bind n (ok sign) f h = h sign
  Bounded-bind n (err e) f h = tt

  bind_bind :
      (r : Result Bytes) (f : Bytes → Result (List Bytes)) (g : List Bytes → Result Bytes)
      → (r >>= f >>= g) ≡ (r >>= λ s. f s >>= g)
  bind_bind (ok s) f g = refl
  bind_bind (err e) f g = refl

  conditions-Bounded :
      (params : List (TransactionsFilterItem Float)) (out : List Bytes) (n : ℕ)
      → Bounded n (do l ← conditions fl (params ++ height_item n ∷ []) out; ok (join l and_word))
  unfolding conditions get_op_sign condition bytes_eq
  conditions-Bounded [] out n = join_ends out n
  conditions-Bounded (row ∷ params) out n =
      let next = λ (sign : Bytes).
        conditions fl (params ++ height_item n ∷ [])
          (out ++ condition fl row.field sign row.value) in
      subst (Bounded n) (sym (bind_bind (get_op_sign row.op) next (λ l. ok (join l and_word)))) (
        Bounded-bind n (get_op_sign row.op) next
          (λ sign. conditions-Bounded params (out ++ condition fl row.field sign row.value) n))

  -- Whatever the filter and the height, the query string is the condition on the height or ends
  -- with ` AND ` and that condition, unless an operator is refused.
  pub query_from_tx_filter-Bounded :
      (params : List (TransactionsFilterItem Float)) (n : ℕ)
      → Bounded n (query_from_tx_filter fl (params ++ height_item n ∷ []))
  unfolding query_from_tx_filter
  query_from_tx_filter-Bounded params n = conditions-Bounded params [] n
