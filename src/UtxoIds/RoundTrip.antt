-- ===== src/UtxoIds/RoundTrip.antt =====
-- A `UtxoId` is read back from its bytes (schema/src/transaction.rs).
use redgold.Prelude.{
  ℕ, zero, suc, ◌-◌, ◌*◌, ◌/◌, ◌^◌, ◌<◌, ◌≡◌, false, refl, ap, [], ◌∷◌, ◌++◌, length, length-append,
  take, drop, I64, IsWord, some, ok, arith, ltb, ◌>>=◌,
}
use native.Mathlib.Nat.{pow-suc}
use redgold.Structs.{Bytes}
use redgold.Proofs.{new_hash}
use redgold.UtxoIds.{to_le_bytes, from_le_bytes, utxo_id_vec, from}

pub length-to_le_bytes : (k n : ℕ) → length (to_le_bytes k n) ≡ k
unfolding to_le_bytes
length-to_le_bytes zero n = refl
length-to_le_bytes (suc k) n = ap suc (length-to_le_bytes k (n / 256))

shrinks : (n k : ℕ) → n < k * 256 → n / 256 < k
shrinks n k h = omega arith

pub from_le_bytes-to_le_bytes : (k n : ℕ) → n < 256 ^ k → from_le_bytes (to_le_bytes k n) ≡ n
unfolding to_le_bytes from_le_bytes
from_le_bytes-to_le_bytes zero n h = omega arith
from_le_bytes-to_le_bytes (suc k) n h = omega (
  arith,
  from_le_bytes-to_le_bytes k (n / 256) (shrinks n (256 ^ k) (omega (arith, pow-suc 256 k))),
)

take-exact : (xs ys : Bytes) → take (length xs) (xs ++ ys) ≡ xs
take-exact [] ys = refl
take-exact (x ∷ xs) ys = ap (◌∷◌ x) (take-exact xs ys)

drop-exact : (xs ys : Bytes) → drop (length xs) (xs ++ ys) ≡ ys
drop-exact [] ys = refl
drop-exact (x ∷ xs) ys = drop-exact xs ys

word_bytes : (n : ℕ) → IsWord n → n < 256 ^ 8
word_bytes n h = omega arith

from-append :
    (b tail : Bytes) (n : I64)
    → length tail ≡ 8
    → from_le_bytes tail ≡ n
    → from (b ++ tail) ≡ ok (record { transaction_hash = some (new_hash b); output_index = n })
unfolding from
from-append b tail n size e =
    let split : length (b ++ tail) - 8 ≡ length b = omega (arith, length-append b tail) in
    let long : ltb (length (b ++ tail)) 8 ≡ false = ground (arith, length-append b tail) in
    rw (long, split, take-exact b tail, drop-exact b tail, e)

-- The byte form of an id whose hash is a plain one, and whose index is a 64-bit word, is read back as
-- the same id.
pub from-utxo_id_vec :
    (b : Bytes) (index : I64)
    → IsWord index
    → (utxo_id_vec (record { transaction_hash = some (new_hash b); output_index = index }) >>= from)
      ≡ ok (record { transaction_hash = some (new_hash b); output_index = index })
unfolding utxo_id_vec
from-utxo_id_vec b index h =
    from-append b (to_le_bytes 8 index) index (length-to_le_bytes 8 index)
      (from_le_bytes-to_le_bytes 8 index (word_bytes index h))
