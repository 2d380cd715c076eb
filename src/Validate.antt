-- ===== src/Validate.antt =====
-- keys/src/transaction_support.rs: `prevalidate`, the checks of a transaction that need nothing else.

pub mod Accepts
use redgold.Prelude.{
  ℕ, suc, Bool, true, false, Option, none, some, List, [], ◌∷◌, ◌++◌, I64, slt, length, any, test,
  is_some, Result, ok, err, error_info, error_message, missing_inputs, missing_outputs,
  missing_proof, invalid_address_input_index, safe_get_msg, ◌>>=◌, ◌>>◌, ◌==◌, ltb, not, ◌&&◌,
  if◌then◌else◌, bind?, String, ErrorInfo, ◌||◌,
}
use redgold.Structs.{
  UtxoId, UtxoId-discrete, Hash, Input, Output, Transaction, TransactionOptions, TransactionData,
}
use redgold.Crypto.{Crypto}
use redgold.Proofs.{verify_each}
use redgold.Transaction.{network_from_i32}
use redgold.Hashing.{signable_hash}

abbrev pub max_transaction_bytes : ℕ
max_transaction_bytes = 10_000

abbrev pub max_message_size : ℕ
max_message_size = 40

abbrev pub max_inputs_outputs : ℕ
max_inputs_outputs = 5000

-- `ok_msg` makes an error without the field code.
abbrev pub ok_msg {ℓ} : {A : Type ℓ} → Option A → String → Result A
ok_msg none m = err (error_info m)
ok_msg (some a) m = ok a

abbrev pub check : Bool → ErrorInfo → Result (Unit {0})
check true e = ok tt
check false e = err e

unfoldable pub contains : List UtxoId → UtxoId → Bool
contains [] u = false
contains (v ∷ vs) u = test (UtxoId-discrete v u) || contains vs u

-- The loop with the set of the ids seen so far.
unfoldable pub check_duplicates : List UtxoId → List Input → Result (Unit {0})
check_duplicates seen [] = ok tt
check_duplicates seen (i ∷ is) = elim i.utxo_id [
  | none ↦ check_duplicates seen is
  | some f ↦ elim (contains seen f) [
    | true ↦ err (error_info "Duplicate input UTXO consumption")
    | false ↦ check_duplicates (f ∷ seen) is
  ]
]

abbrev pub is_empty {ℓ} : {A : Type ℓ} → List A → Bool
is_empty [] = true
is_empty (x ∷ xs) = false

-- The signed comparison `utxo.output_index > MAX_INPUTS_OUTPUTS`.
unfoldable pub check_index : Option UtxoId → Result (Unit {0})
check_index none = ok tt
check_index (some u) =
    check (not (slt max_inputs_outputs u.output_index))
      (error_message invalid_address_input_index "")

-- An input without proof must be one that only refers to a floating output.
unfoldable pub check_proof : Input → Result (Unit {0})
check_proof i =
    if is_empty i.proof
    then check (not (is_some i.utxo_id) && is_some i.floating_utxo_id)
        (error_message missing_proof "Input proof is missing on input")
    else ok tt

unfoldable pub check_message : Option TransactionData → Result (Unit {0})
check_message d = elim (bind? d (λ t. t.message_len)) [
  | none ↦ ok tt
  | some n ↦ check (not (ltb max_message_size n)) (error_info "Message length: too large")
]

module _ (c : Crypto) where
  unfoldable pub check_input : Hash → Input → Result (Unit {0})
  check_input h i = do check_index i.utxo_id; check_proof i; verify_each c i.proof h

  unfoldable pub check_inputs : Hash → List Input → Result (Unit {0})
  check_inputs h [] = ok tt
  check_inputs h (i ∷ is) = do check_input h i; check_inputs h is

  unfoldable pub prevalidate : Transaction → Result (Unit {0})
  prevalidate tx = do
    check (not (ltb max_transaction_bytes (length (c.proto_serialize tx))))
        (error_info "Transaction size: too large")
    options ← safe_get_msg tx.options "Missing options on transaction"
    network_i32 ← safe_get_msg options.network_type "Missing network type on transaction"
    network ← ok_msg (network_from_i32 network_i32) "Invalid network type on transaction"
    check (not (is_some options.contract && network == 0))
        (error_info "Contract transactions not yet supported")
    check_duplicates [] tx.inputs
    check (not (is_empty tx.inputs)) (error_message missing_inputs "")
    check (not (is_empty tx.outputs)) (error_message missing_outputs "")
    check_message options.txn_data
    check_inputs (signable_hash c tx) tx.inputs
