-- ===== src/Examples/Funds.antt =====
-- A payment that is built, signed and checked.
use redgold.Prelude.{
  Distinct, ◌≡◌, ◌≢◌, refl, true, none, some, [], ◌∷◌, ◌++◌, All, ok, arith, add64, sub64, slt,
  replicate, length, ℕ_discrete,
}
use redgold.Structs.{
  Bytes, Address, Address-discrete, UtxoId, Input, Transaction, Proof, StructMetadata, UtxoEntry,
}
use redgold.Crypto.{Crypto}
use redgold.Output.{new_output, opt_amount}
use redgold.Transaction.{
  total_input_amount, total_output_amount, total_outputs_from, add_amount, sum_from,
  fixed_utxo_ids_of_inputs, to_input, empty_input, hash_or,
}
use redgold.Builder.{
  TransactionBuilder, default_options, balance, entry_amount, insert_by_amount, sort_by_amount,
  with_unsigned_input, add_inputs, with_remainder, finish, build,
}
use redgold.Builder.Balance.{build-IsBalanced}
use redgold.Proofs.{
  Bytes-discrete, new_hash, new_raw, collect_keys, public_key_bytes, address_hash, verify,
  verify_each, verify_proofs, proofs_to_address, address_from_bytes, verify_checksum, verify_length,
  with_checksum, signed_bytes, signature_bytes, digest,
}
use redgold.Proofs.Unlock.{verify_proofs-opens}
use redgold.Hashing.{signable_hash, calculate_hash, sign, sign_inputs, sign_input, with_hash}
use redgold.Hashing.Signing.{signable_hash-sign}
use redgold.Validate.{
  prevalidate, check_index, check_proof, check_message, check_input, check_inputs, check_duplicates,
  contains,
}
use redgold.Validate.Accepts.{prevalidate-ok}
use redgold.Resolver.{ResolvedTransaction, validate}
use redgold.Resolver.Accounting.{push_outputs, validate-push_outputs}

-- Digests of the right size, and signatures that all hold.
abbrev pub toy : Crypto
toy = record {
  sha3_256 = λ b. replicate 32 (length b);
  sha3_224 = λ b. replicate 28 (length b);
  ecdsa_verify = λ m s k. ok tt;
  prepare_message_sign = λ b. b;
  proto_serialize = λ tx. length tx.inputs ∷ length tx.outputs ∷ [];
  length-sha3_256 = λ b. refl;
  length-sha3_224 = λ b. refl;
}

abbrev pub alice : Address
alice = new_raw (replicate 28 1 ++ replicate 4 28)

abbrev bob : Address
bob = new_raw (5 ∷ [])

abbrev coin_id : UtxoId
coin_id = record { transaction_hash = some (new_hash (9 ∷ [])); output_index = 0 }

abbrev coin_entry : UtxoEntry
coin_entry = record { utxo_id = some coin_id; output = some (new_output alice 70); time = 0 }

-- Bob is to be paid 50 from a coin of 70.
abbrev payment : TransactionBuilder
payment = record {
  transaction = record {
    inputs = [];
    outputs = new_output bob 50 ∷ [];
    struct_metadata = none;
    options = some (record default_options { network_type = some 0 });
  };
  utxos = coin_entry ∷ [];
  used_utxos = [];
  network = some 0;
}

abbrev paid : Transaction
paid = record (payment.transaction) {
  inputs = to_input coin_entry ∷ [];
  outputs = new_output bob 50 ∷ new_output alice 20 ∷ [];
}

build-IsBalanced_example : total_input_amount paid ≡ total_output_amount paid
unfolding build sort_by_amount insert_by_amount entry_amount add_inputs with_unsigned_input finish
    with_remainder balance total_input_amount total_output_amount total_outputs_from add_amount
    sum_from opt_amount add64 sub64 to_input
build-IsBalanced_example =
    build-IsBalanced payment
      {c = record payment { transaction = paid; used_utxos = coin_entry ∷ [] }} {tx = paid} refl

abbrev pub alice_proof : Proof
alice_proof = record {
  signature = some (record { bytes = some (4 ∷ []); signature_type = 0 });
  public_key = some (record { bytes = some (6 ∷ []); key_type = 0 });
}

abbrev pub metadata : StructMetadata
metadata = record { time = some 0; hash = none; signable_hash = none; signed_hash = none }

-- The payment with a signature on its input.
abbrev pub signed_input : Input
signed_input = record empty_input { utxo_id = some coin_id; proof = alice_proof ∷ [] }

abbrev pub checked : Transaction
checked = record paid { inputs = signed_input ∷ [] }

prevalidate-ok_example :
    Distinct (fixed_utxo_ids_of_inputs checked.inputs)
    × (checked.inputs ≢ [])
    × (checked.outputs ≢ [])
    × All (λ i. verify_each toy i.proof (signable_hash toy checked) ≡ ok tt) checked.inputs
unfolding prevalidate check_duplicates contains check_message check_inputs check_input check_index
    check_proof verify_each verify signed_bytes signature_bytes public_key_bytes signable_hash
    calculate_hash digest slt
prevalidate-ok_example = prevalidate-ok toy checked refl

verify_proofs-opens_example :
    (keys : Bytes) × (collect_keys [] (alice_proof ∷ []) ≡ ok keys)
    × (alice ≡ new_raw (address_hash toy keys))
    × All (λ p. verify toy p (new_hash (8 ∷ [])) ≡ ok tt) (alice_proof ∷ [])
unfolding verify_proofs proofs_to_address collect_keys public_key_bytes address_from_bytes
    verify_checksum verify_length address_hash with_checksum verify_each verify signed_bytes
    signature_bytes Address-discrete Bytes-discrete ℕ_discrete
verify_proofs-opens_example =
    verify_proofs-opens toy (alice_proof ∷ []) (new_hash (8 ∷ [])) alice refl

signable_hash-sign_example :
    signable_hash toy (record paid {
      inputs = record (to_input coin_entry) { proof = alice_proof ∷ [] } ∷ [];
      struct_metadata = some (record metadata {
        hash = some (new_hash (replicate 32 2));
        signed_hash = some (new_hash (replicate 32 2));
      });
    })
    ≡ signable_hash toy (record paid { struct_metadata = some metadata })
unfolding sign sign_inputs sign_input with_hash calculate_hash digest signable_hash to_input
    Address-discrete ℕ_discrete hash_or
signable_hash-sign_example =
    signable_hash-sign toy alice (λ h. alice_proof)
      (record paid { struct_metadata = some metadata }) refl

abbrev resolved : ResolvedTransaction
resolved = record { transaction = paid; fixed_resolutions = []; resolved_internally = true }

validate-push_outputs_example :
    validate (record resolved {
      transaction = push_outputs (new_output alice 1000 ∷ new_output bob (sub64 0 1000) ∷ []) paid;
    })
    ≡ validate resolved
validate-push_outputs_example = validate-push_outputs resolved alice bob 1000 (omega arith)
