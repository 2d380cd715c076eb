-- ===== src/Validate/Accepts.antt =====
-- What `prevalidate` lets through (keys/src/transaction_support.rs).
use redgold.Prelude.{
  Distinct, ◌≡◌, ◌≢◌, refl, sym, ◌∙◌, inl, inr, Bool, true, false, List, [], ◌∷◌, Option-cases,
  Bool-cases, Elem, All, ok, err≢ok, >>=-eq-ok, test, holds→test, subst, ErrorInfo, not, ltb,
  length, safe_get_msg, error_info, error_message, missing_inputs, missing_outputs, is_some, ◌&&◌,
  ◌==◌,
}
use redgold.Structs.{UtxoId, UtxoId-discrete, Input, Transaction, Hash}
use redgold.Crypto.{Crypto}
use redgold.Transaction.{fixed_utxo_ids_of_inputs, network_from_i32}
use redgold.Proofs.{verify_each}
use redgold.Hashing.{signable_hash}
use redgold.Validate.{
  contains, check_duplicates, check, check_index, check_proof, check_input, check_inputs,
  prevalidate, is_empty, ok_msg, max_transaction_bytes, check_message,
}

check-true : (b : Bool) (e : ErrorInfo) → check b e ≡ ok tt → b ≡ true
check-true true e h = refl
check-true false e h = absurd (err≢ok h)

contains-Elem : (vs : List UtxoId) (u : UtxoId) → contains vs u ≡ false → ¬ Elem u vs
unfolding contains
contains-Elem [] u h m = m
contains-Elem (v ∷ vs) u h m = elim (Bool-cases (test (UtxoId-discrete v u))) [
  | inl t ↦ true≢false (rw t at h)
  | inr f ↦ elim m [
    | inl e ↦ true≢false (sym (holds→test (UtxoId-discrete v u) (sym e)) ∙ f)
    | inr k ↦ contains-Elem vs u (rw f at h) k
  ]
]
  where
    true≢false : true ≢ false
    true≢false e = cc

check_duplicates-Distinct :
    (seen : List UtxoId) (is : List Input)
    → check_duplicates seen is ≡ ok tt
    → Distinct (fixed_utxo_ids_of_inputs is)
      × ((v : UtxoId) → Elem v seen → ¬ Elem v (fixed_utxo_ids_of_inputs is))
unfolding check_duplicates fixed_utxo_ids_of_inputs
check_duplicates-Distinct seen [] h = (tt, λ v m n. n)
check_duplicates-Distinct seen (i ∷ is) h = elim (Option-cases i.utxo_id) [
  | inl e ↦
      rw (e, fixed_utxo_ids_of_inputs)
        (check_duplicates-Distinct seen is (rw (e, check_duplicates) at h))
  | inr (f, e) ↦ elim (Bool-cases (contains seen f)) [
    | inl t ↦ absurd (err≢ok (rw (e, t, check_duplicates) at h))
    | inr n ↦
        let (d, away) =
          check_duplicates-Distinct (f ∷ seen) is (rw (e, n, check_duplicates) at h) in
        rw (e, fixed_utxo_ids_of_inputs)
          (
            (away f (inl refl), d),
            λ v m k. elim k [
              | inl same ↦ contains-Elem seen f n (subst (λ w. Elem w seen) same m)
              | inr later ↦ away v (inr m) later
            ],
          )
  ]
]

not_empty {ℓ} :
    {A : Type ℓ} (xs : List A) (e : ErrorInfo) → check (not (is_empty xs)) e ≡ ok tt → xs ≢ []
not_empty [] e h = absurd (err≢ok h)
not_empty (x ∷ xs) e h = λ k. cc

module _ (c : Crypto) where
  check_inputs-All :
      (h : Hash) (is : List Input)
      → check_inputs c h is ≡ ok tt
      → All (λ i. verify_each c i.proof h ≡ ok tt) is
  unfolding check_inputs check_input
  check_inputs-All h [] e = tt
  check_inputs-All h (i ∷ is) e =
      let (_, e1, e2) = >>=-eq-ok (check_input c h i) _ e in
      let (_, _, e3) = >>=-eq-ok (check_index i.utxo_id) _ e1 in
      let (_, _, e4) = >>=-eq-ok (check_proof i) _ e3 in (e4, check_inputs-All h is e2)

  -- A transaction that passes spends no output twice, has inputs and outputs, and every proof on its
  -- inputs verifies against its signable hash.
  pub prevalidate-ok :
      (tx : Transaction)
      → prevalidate c tx ≡ ok tt
      → Distinct (fixed_utxo_ids_of_inputs tx.inputs)
        × (tx.inputs ≢ [])
        × (tx.outputs ≢ [])
        × All (λ i. verify_each c i.proof (signable_hash c tx) ≡ ok tt) tx.inputs
  unfolding prevalidate
  prevalidate-ok tx e =
      let (_, _, e1) =
        >>=-eq-ok
          (check (not (ltb max_transaction_bytes (length (c.proto_serialize tx))))
            (error_info "Transaction size: too large"))
          _ e in
      let (o, _, e2) = >>=-eq-ok (safe_get_msg tx.options "Missing options on transaction") _ e1 in
      let (n, _, e3) =
        >>=-eq-ok (safe_get_msg o.network_type "Missing network type on transaction") _ e2 in
      let (w, _, e4) =
        >>=-eq-ok (ok_msg (network_from_i32 n) "Invalid network type on transaction") _ e3 in
      let (_, _, e5) =
        >>=-eq-ok
          (check (not (is_some o.contract && w == 0))
            (error_info "Contract transactions not yet supported"))
          _ e4 in
      let (_, dup, e6) = >>=-eq-ok (check_duplicates [] tx.inputs) _ e5 in
      let (_, ins, e7) =
        >>=-eq-ok (check (not (is_empty tx.inputs)) (error_message missing_inputs "")) _ e6 in
      let (_, outs, e8) =
        >>=-eq-ok (check (not (is_empty tx.outputs)) (error_message missing_outputs "")) _ e7 in
      let (_, _, e9) = >>=-eq-ok (check_message o.txn_data) _ e8 in
      (
        (check_duplicates-Distinct [] tx.inputs dup).0,
        not_empty tx.inputs _ ins,
        not_empty tx.outputs _ outs,
        check_inputs-All (signable_hash c tx) tx.inputs e9,
      )
