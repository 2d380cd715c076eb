-- ===== src/Proofs.antt =====
-- schema/src/hash.rs, schema/src/address.rs, schema/src/proof.rs and keys/src/proof_support.rs: hashes,
-- checksummed addresses, and the signatures that open an address.
pub mod Unlock
use redgold.Prelude.{
  ℕ, ◌≡◌, Bool, Option, none, some, List, [], ◌∷◌, ◌++◌, take, length, test, Result, ok, err,
  error_info, error_message, missing_field, address_public_key_proof_mismatch, safe_get_msg, ◌>>=◌,
  ◌>>◌, ◌==◌, if◌then◌else◌, ℕ_discrete, bind?, expect,
}
use redgold.Structs.{
  Bytes, Hash, Address, Address-discrete, PublicKey, Proof, Signature, Transaction, Input, UtxoId,
  StructMetadata,
}
use redgold.Crypto.{Crypto}
use redgold.Transaction.{hash_or}

unfoldable pub Bytes-discrete : Discrete Bytes
unfolding ℕ_discrete
Bytes-discrete = hlevel ℕ_discrete

-- `Hash::new`, which does not hash.
abbrev pub new_hash : Bytes → Hash
new_hash b = record { bytes = some b; hash_format_type = 0; hash_type = 0 }

abbrev pub safe_bytes : Option Bytes → Result Bytes
safe_bytes b = safe_get_msg b "bytes data"

abbrev pub new_raw : Bytes → Address
new_raw b = record { address = some b; address_type = 0; currency = none }

-- `Proof::public_key_bytes` and `Proof::signature_bytes`.
unfoldable pub public_key_bytes : Proof → Result Bytes
public_key_bytes p = do
  k ← safe_get_msg p.public_key "public_key"
  safe_get_msg k.bytes "public_key bytes data"

unfoldable pub signature_bytes : Proof → Result Bytes
signature_bytes p = do
  s ← safe_get_msg p.signature "signature"
  safe_get_msg s.bytes "signature bytes data"

-- The bytes of all public keys in order.
unfoldable pub collect_keys : Bytes → List Proof → Result Bytes
collect_keys acc [] = ok acc
collect_keys acc (p ∷ ps) = do k ← public_key_bytes p; collect_keys (acc ++ k) ps

module _ (c : Crypto) where
  unfoldable pub digest : Bytes → Hash
  digest b = new_hash (c.sha3_256 b)

  -- `Hash::merkle_combine`, on the bytes of the hashes: `digest` of both, one behind the other.
  unfoldable pub merkle_combine : Bytes → Bytes → Bytes
  merkle_combine left right = c.sha3_256 (left ++ right)

  -- `Hash::digest(bytes).vec()[0..4]` behind the bytes.
  unfoldable pub with_checksum : Bytes → Bytes
  with_checksum b = b ++ take 4 (c.sha3_256 b)

  unfoldable pub address_hash : Bytes → Bytes
  address_hash b = with_checksum (c.sha3_224 b)

  unfoldable pub verify_length : Address → Result (Unit {0})
  verify_length a = do
    b ← safe_bytes a.address
    if length b == 32 then ok tt else err (error_info "Invalid address length")

  unfoldable pub verify_checksum : Address → Result (Unit {0})
  verify_checksum a = do
    verify_length a
    b ← safe_bytes a.address
    (if test (Bytes-discrete (with_checksum (take 28 b)) b)
        then ok tt
        else err (error_info "Invalid address checksum bytes"))

  unfoldable pub address_from_bytes : Bytes → Result Address
  address_from_bytes b = verify_checksum (new_raw b) >> ok (new_raw b)

  unfoldable pub proofs_to_address : List Proof → Result Address
  proofs_to_address ps = do keys ← collect_keys [] ps; address_from_bytes (address_hash keys)

  -- Which bytes are signed, by the signature type.
  unfoldable pub signed_bytes : ℕ → Hash → Result Bytes
  signed_bytes t h =
      if t == 0
      then safe_bytes h.bytes
      else if t == 1
      then (expect h.bytes "a" >>= λ b. ok (c.prepare_message_sign b))
      else err (error_info "Invalid signature type")

  unfoldable pub verify : Proof → Hash → Result (Unit {0})
  verify p h = do
    sig ← safe_get_msg p.signature "unspecified optional value"
    msg ← signed_bytes sig.signature_type h
    s ← signature_bytes p
    k ← public_key_bytes p
    c.ecdsa_verify msg s k

  -- `for proof in proofs { proof.verify(hash)? }`, also `Input::verify_signatures_only`.
  unfoldable pub verify_each : List Proof → Hash → Result (Unit {0})
  verify_each [] h = ok tt
  verify_each (p ∷ ps) h = do verify p h; verify_each ps h

  unfoldable pub verify_proofs : List Proof → Hash → Address → Result (Unit {0})
  verify_proofs ps h a = do
    addr ← proofs_to_address ps
    (if test (Address-discrete a addr)
        then verify_each ps h
        else err (
            error_message address_public_key_proof_mismatch
              "address mismatch in Proof::verify_proofs"))
