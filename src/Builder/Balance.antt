-- ===== src/Builder/Balance.antt =====
-- What `build` promises of the amounts (src/core/transact/tx_builder_supports.rs).
use redgold.Prelude.{
  ◌≡◌, refl, ap, false, I64, add64_balance, ok-injective, err≢ok, subst, sub64_eq, is_positive,
  is_negative, ok, >>=-eq-ok, Bool-cases, inl, inr, arith, head?, expect,
}
use redgold.Structs.{Transaction, Address}
use redgold.Output.{opt_amount, new_output}
use redgold.Transaction.{total_input_amount, total_output_amount}
use redgold.Transaction.Totals.{
  total_outputs_from-snoc, total_output_amount-IsWord, total_input_amount-IsWord,
}
use redgold.Builder.{
  TransactionBuilder, balance, with_remainder, finish, build, add_inputs, sort_by_amount,
  push_output,
}

abbrev pub IsBalanced : Transaction → Type 0
IsBalanced tx = total_input_amount tx ≡ total_output_amount tx

zero_balance : (b : TransactionBuilder) → balance b ≡ 0 → IsBalanced b.transaction
unfolding balance
zero_balance b e =
    sub64_eq _ _ (total_input_amount-IsWord b.transaction)
      (total_output_amount-IsWord b.transaction) e

remainder_balance :
    (b : TransactionBuilder) (a : Address)
    → IsBalanced (push_output (new_output a (balance b)) b).transaction
unfolding balance total_output_amount opt_amount total_input_amount
remainder_balance b a =
    rw (total_outputs_from-snoc 0 b.transaction.outputs (new_output a (balance b)) (balance b) refl)
      (add64_balance _ _ (total_input_amount-IsWord b.transaction)
        (total_output_amount-IsWord b.transaction))

with_remainder-IsBalanced :
    (b c : TransactionBuilder) → with_remainder b ≡ ok c → IsBalanced c.transaction
unfolding with_remainder
with_remainder-IsBalanced b c e =
    let (i, _, e1) = >>=-eq-ok (expect (head? b.transaction.inputs) "missing head") _ e in
    let (o, _, e2) = >>=-eq-ok (expect i.output "o") _ e1 in
    let (a, _, e3) = >>=-eq-ok (expect o.address "address") _ e2 in
    subst (λ d. IsBalanced d.transaction) (ok-injective e3) (remainder_balance b a)

no_sign : (n : I64) → is_negative n ≡ false → is_positive n ≡ false → n ≡ 0
no_sign n e f = ground arith

finish-IsBalanced : (b c : TransactionBuilder) → finish b ≡ ok c → IsBalanced c.transaction
unfolding finish
finish-IsBalanced b c e = elim (Bool-cases (is_negative (balance b))) [
  | inl n ↦ absurd (err≢ok (rw n at e))
  | inr n ↦ elim (Bool-cases (is_positive (balance b))) [
    | inl p ↦ with_remainder-IsBalanced b c (rw (n, p) at e)
    | inr p ↦
        subst (λ d. IsBalanced d.transaction) (ok-injective (rw (n, p) at e))
          (zero_balance b (no_sign (balance b) n p))
  ]
]

-- A transaction that `build` returns has a wrapped total of input amounts equal to its wrapped total of
-- output amounts.
pub build-IsBalanced :
    (b : TransactionBuilder) {c : TransactionBuilder} {tx : Transaction}
    → build b ≡ ok (c, tx)
    → IsBalanced tx
unfolding build
build-IsBalanced b e =
    let (sorted, _, e1) = >>=-eq-ok (sort_by_amount b.utxos) _ e in
    let (c', _, e2) = >>=-eq-ok (add_inputs sorted (record b { utxos = sorted })) _ e1 in
    let (d, ed, e3) = >>=-eq-ok (finish c') _ e2 in
    subst IsBalanced (ap (λ (p : TransactionBuilder × Transaction). p.1) (ok-injective e3))
      (finish-IsBalanced c' d ed)
