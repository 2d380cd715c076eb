-- ===== src/Transaction/Totals.antt =====
-- Sums over the inputs and outputs of a transaction (schema/src/transaction.rs).
use redgold.Prelude.{
  ◌≡◌, some, List, [], ◌∷◌, ◌++◌, I64, IsWord, add64, add64-IsWord, arith, filter_map, Option-cases,
  inl, inr,
}
use redgold.Structs.{Output, Transaction}
use redgold.Output.{opt_amount}
use redgold.Transaction.{
  add_amount, total_outputs_from, total_output_amount, sum_from, total_input_amount, input_amount,
}

add_amount-IsWord : (t : I64) (o : Output) → IsWord t → IsWord (add_amount t o)
unfolding add_amount
add_amount-IsWord t o h = elim (Option-cases (opt_amount o)) [
  | inl e ↦ rw (e, add_amount) h
  | inr (a, e) ↦ rw (e, add_amount) (add64-IsWord t a)
]

add_amount-some :
    (t : I64) (o : Output) (a : I64) → opt_amount o ≡ some a → add_amount t o ≡ add64 t a
unfolding add_amount
add_amount-some t o a e = rw (e, add_amount)

pub total_outputs_from-IsWord :
    (t : I64) (os : List Output) → IsWord t → IsWord (total_outputs_from t os)
unfolding total_outputs_from
total_outputs_from-IsWord t [] h = h
total_outputs_from-IsWord t (o ∷ os) h =
    total_outputs_from-IsWord (add_amount t o) os (add_amount-IsWord t o h)

pub total_output_amount-IsWord : (tx : Transaction) → IsWord (total_output_amount tx)
unfolding total_output_amount
total_output_amount-IsWord tx = total_outputs_from-IsWord 0 tx.outputs (omega arith)

pub sum_from-IsWord : (t : I64) (xs : List I64) → IsWord t → IsWord (sum_from t xs)
unfolding sum_from
sum_from-IsWord t [] h = h
sum_from-IsWord t (a ∷ xs) h = sum_from-IsWord (add64 t a) xs (add64-IsWord t a)

pub total_input_amount-IsWord : (tx : Transaction) → IsWord (total_input_amount tx)
unfolding total_input_amount
total_input_amount-IsWord tx = sum_from-IsWord 0 (filter_map input_amount tx.inputs) (omega arith)

-- A new last output adds its amount.
pub total_outputs_from-snoc :
    (t : I64) (os : List Output) (o : Output) (a : I64)
    → opt_amount o ≡ some a
    → total_outputs_from t (os ++ o ∷ []) ≡ add64 (total_outputs_from t os) a
unfolding total_outputs_from
total_outputs_from-snoc t [] o a e = add_amount-some t o a e
total_outputs_from-snoc t (p ∷ os) o a e = total_outputs_from-snoc (add_amount t p) os o a e
