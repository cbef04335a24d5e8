-- ===== src/TxFilter/Plain.antt =====
-- The errors of queryFromTxFilter (internal/relay/relayer.go).
use neutron_query_relayer.Prelude.{
  Bool, List, [], ◌∷◌, ◌++◌, Bytes, bytes_eq, codes, if◌then◌else◌, true, false,
}
use neutron_query_relayer.Errors.{Error, Result}
use neutron_query_relayer.Fails.{FailsAs, FailsAs-bind}
use neutron_query_relayer.TxFilter.{
  Float64, TransactionsFilterItem, to_lower, sign_of, get_op_sign, conditions, condition,
  query_from_tx_filter,
}

FailsAs-if :
    {A : Type 0} (P : Error → Type 0) (b : Bool) (x y : Result A)
    → FailsAs P x
    → FailsAs P y
    → FailsAs P (if b then x else y)
FailsAs-if P true x y h k = h
FailsAs-if P false x y h k = k

sign_of_plain : (op : Bytes) → FailsAs (λ _. ⊥) (sign_of op)
unfolding sign_of
sign_of_plain op = FailsAs-if _ (bytes_eq op (codes "eq")) _ _ tt (
    FailsAs-if _ (bytes_eq op (codes "gt")) _ _ tt (
      FailsAs-if _ (bytes_eq op (codes "gte")) _ _ tt (
        FailsAs-if _ (bytes_eq op (codes "lt")) _ _ tt
          (FailsAs-if _ (bytes_eq op (codes "lte")) _ _ tt tt))))

get_op_sign_plain : (op : Bytes) → FailsAs (λ _. ⊥) (get_op_sign op)
unfolding get_op_sign
get_op_sign_plain op = sign_of_plain (to_lower op)

module _ {Float : Type 0} (fl : Float64 Float) where
  conditions_plain :
      (l : List (TransactionsFilterItem Float)) (out : List Bytes)
      → FailsAs (λ _. ⊥) (conditions fl l out)
  unfolding conditions
  conditions_plain [] out = tt
  conditions_plain (row ∷ l) out =
      FailsAs-bind _ (get_op_sign row.op) _ (get_op_sign_plain row.op)
        (λ sign. conditions_plain l (out ++ condition fl row.field sign row.value))

  pub query_from_tx_filter_plain :
      (l : List (TransactionsFilterItem Float)) → FailsAs (λ _. ⊥) (query_from_tx_filter fl l)
  unfolding query_from_tx_filter
  query_from_tx_filter_plain l =
      FailsAs-bind _ (conditions fl l []) _ (conditions_plain l []) (λ params. tt)
