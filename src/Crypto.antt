-- ===== src/Crypto.antt =====
-- The code that is not in the repository and that the models take as a parameter: the SHA-3 digests
-- (crate `sha3`), the elliptic curve check (crate `secp256k1`, behind keys/src/util/mod.rs `verify`), the
-- Bitcoin message format, and the protobuf encoding of a transaction (crate `prost`).
use redgold.Prelude.{◌≡◌, length, Result}
use redgold.Structs.{Bytes, Transaction}

pub record Crypto : Type 0 where
  pub sha3_256 : Bytes → Bytes
  pub sha3_224 : Bytes → Bytes
  pub ecdsa_verify : Bytes → Bytes → Bytes → Result (Unit {0})
  pub prepare_message_sign : Bytes → Bytes
  pub proto_serialize : Transaction → Bytes
  -- A digest has a fixed size.
  pub length-sha3_256 : (b : Bytes) → length (sha3_256 b) ≡ 32
  pub length-sha3_224 : (b : Bytes) → length (sha3_224 b) ≡ 28
