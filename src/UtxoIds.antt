-- ===== src/UtxoIds.antt =====
-- schema/src/transaction.rs: the byte form of a `UtxoId`, the transaction's hash and then the output
-- index in eight little-endian bytes; schema/src/util/xor_distance.rs and schema/src/hash.rs: distances.

pub mod RoundTrip
use redgold.Prelude.{
  ℕ, zero, suc, ◌+◌, ◌-◌, ◌*◌, ◌/◌, ◌%◌, ◌^◌, List, [], ◌∷◌, ◌++◌, length, take, drop, I64, add64,
  Option, none, some, Result, ok, err, panic, expect, ◌>>=◌, ◌>>◌, bit_xor, ltb, if◌then◌else◌,
  Bool,
}
use redgold.Structs.{Bytes, Hash, UtxoId}
use redgold.Proofs.{new_hash, safe_bytes}

-- `to_le_bytes` of `k` bytes, and `from_le_bytes`.
unfoldable pub to_le_bytes : ℕ → ℕ → Bytes
to_le_bytes zero n = []
to_le_bytes (suc k) n = n % 256 ∷ to_le_bytes k (n / 256)

unfoldable pub from_le_bytes : Bytes → ℕ
from_le_bytes [] = 0
from_le_bytes (b ∷ bs) = b + 256 * from_le_bytes bs

-- `utxo_id_vec`, and `coin_id` of schema/src/utxo_id.rs.
unfoldable pub utxo_id_vec : UtxoId → Result Bytes
utxo_id_vec u = do
  h ← expect u.transaction_hash "hash"
  b ← expect h.bytes "a"
  ok (b ++ to_le_bytes 8 u.output_index)

-- `UtxoId::from`: fewer than eight bytes make `len - 8` overflow and the slice panic.
unfoldable pub from : Bytes → Result UtxoId
from id =
    if ltb (length id) 8
    then panic "slice index"
    else let split = length id - 8 in
      ok (record {
        transaction_hash = some (new_hash (take split id));
        output_index = from_le_bytes (drop split id);
      })

-- `zip` and `^`, byte by byte: the longer side is cut off.
unfoldable pub xor_bytes : Bytes → Bytes → Bytes
xor_bytes [] ys = []
xor_bytes (x ∷ xs) [] = []
xor_bytes (x ∷ xs) (y ∷ ys) = bit_xor x y ∷ xor_bytes xs ys

unfoldable pub sum_bytes : I64 → Bytes → I64
sum_bytes acc [] = acc
sum_bytes acc (b ∷ bs) = sum_bytes (add64 acc b) bs

unfoldable pub xor_distance : Bytes → Bytes → I64
xor_distance a b = sum_bytes 0 (xor_bytes a b)

-- The distance of the digests of the two concatenations.
unfoldable pub xorf_conv_distance : (Bytes → Bytes) → Bytes → Bytes → I64
xorf_conv_distance digest query marker =
    sum_bytes 0 (xor_bytes (digest (query ++ marker)) (digest (marker ++ query)))

-- `Hash::div_mod`: the sum of the bytes, modulo the number of buckets.
unfoldable pub div_mod : Bytes → ℕ → ℕ
div_mod h bucket = sum_bytes 0 h % bucket
