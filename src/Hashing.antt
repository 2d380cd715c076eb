-- ===== src/Hashing.antt =====
-- schema/src/transaction.rs and schema/src/lib.rs: the content hash of a transaction, which leaves out
-- what is only there for hydration, and the signable hash, which leaves out the witnesses too; and
-- `sign` of keys/src/transaction_support.rs. The key pair is its address and its signing function.
pub mod Signing
use redgold.Prelude.{
  Bool, true, false, none, some, List, [], ◌∷◌, ◌++◌, Option, map, map?, or_else, test, Result, ok,
  err, error_info, error_message, missing_field, safe_get_msg, expect, ◌>>=◌, ◌>>◌, if◌then◌else◌,
  ◌||◌,
}
use redgold.Structs.{
  Bytes, Hash, Address, Address-discrete, Proof, Input, Output, Transaction, TransactionOptions,
  TransactionContract, StructMetadata,
}
use redgold.Crypto.{Crypto}
use redgold.Transaction.{hash_or}
use redgold.Proofs.{digest}

unfoldable pub clear_input_proofs : Transaction → Transaction
clear_input_proofs tx = record tx {
  inputs = map (λ (i : Input). record i { proof = [] }) tx.inputs;
}

unfoldable pub clear_counter_party_proofs : Transaction → Transaction
clear_counter_party_proofs tx = record tx {
  outputs = map (λ (o : Output). record o { counter_party_proofs = [] }) tx.outputs;
}

unfoldable pub clear_confirmation_proofs : Transaction → Transaction
clear_confirmation_proofs tx = record tx {
  options =
      map?
        (λ (o : TransactionOptions). record o {
          contract =
              map? (λ (c : TransactionContract). record c { confirmation_proofs = [] }) o.contract;
        })
        tx.options;
}

-- `StructMetadata::hash_clear`.
abbrev pub metadata_hash_clear : StructMetadata → StructMetadata
metadata_hash_clear s = record s { hash = none; signable_hash = none; signed_hash = none }

unfoldable pub hash_clear : Transaction → Transaction
hash_clear tx = record tx {
  inputs = map (λ (i : Input). record i { output = none }) tx.inputs;
  struct_metadata = map? metadata_hash_clear tx.struct_metadata;
}

-- One round of the loop of `sign`: whether the input was signed, and the input.
unfoldable pub sign_input : Address → Proof → Input → Result (Bool × Input)
sign_input addr proof i = elim i.output [
  | none ↦ ok (false, i)
  | some o ↦ safe_get_msg o.address "Missing address on enriched output during signing" >>= λ a.
      ok (
        if test (Address-discrete addr a)
        then (true, record i { proof = i.proof ++ proof ∷ [] })
        else (false, i))
]

unfoldable pub sign_inputs : Address → Proof → List Input → Result (Bool × List Input)
sign_inputs addr proof [] = ok (false, [])
sign_inputs addr proof (i ∷ is) = do
  (s, j) ← sign_input addr proof i
  (r, js) ← sign_inputs addr proof is
  ok (s || r, j ∷ js)

module _ (c : Crypto) where
  unfoldable pub calculate_hash : Transaction → Hash
  calculate_hash tx = digest c (c.proto_serialize (hash_clear tx))

  unfoldable pub signable_hash : Transaction → Hash
  signable_hash tx =
      calculate_hash
        (clear_confirmation_proofs (clear_counter_party_proofs (clear_input_proofs tx)))

  -- `set_hash` wants the metadata; its error becomes a panic in `with_hash`.
  unfoldable pub with_hash : Transaction → Result Transaction
  with_hash tx = do
    s ← expect tx.struct_metadata "set"
    ok (record tx { struct_metadata = some (record s { hash = some (calculate_hash tx) }) })

  -- The key pair's address, and its `Proof::from_keypair_hash`.
  unfoldable pub sign : Address → (Hash → Proof) → Transaction → Result Transaction
  sign addr prove tx = do
    (signed, inputs) ← sign_inputs addr (prove (signable_hash tx)) tx.inputs
    (if signed then ok tt else err (error_info "Couldn't find appropriate input address to sign"))
    x ← with_hash (record tx { inputs = inputs })
    s ← expect x.struct_metadata "sm"
    ok (record x {
      struct_metadata = some (record s { signed_hash = some (hash_or calculate_hash x) });
    })
