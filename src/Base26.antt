-- ===== src/Base26.antt =====
-- src/util/base26.rs: bytes as text in the letters `a` to `z`. A text is its bytes.

pub mod Value
use redgold.Prelude.{
  ℕ, zero, suc, ◌+◌, ◌-◌, ◌*◌, ◌/◌, ◌%◌, Bool, true, false, Option, none, some, List, [], ◌∷◌, ◌++◌,
  length, replicate, reverse, map, Result, ok, err, panic, error_info, ◌>>=◌, ◌>>◌, ◌==◌, ltb, leb,
  ◌&&◌, if◌then◌else◌,
}
use redgold.Structs.{Bytes}

-- The table `BASE26_DIGITS`: a digit at the codes of the small letters.
unfoldable pub base26_digit : ℕ → Option ℕ
base26_digit c = if leb 97 c && leb c 122 then some (c - 97) else none

-- The table `BASE26_CHARS`.
abbrev pub base26_char : ℕ → ℕ
base26_char d = 97 + d

-- `for d256 in scratch.iter_mut().rev()`: the bytes from the last to the first, so the scratch is held
-- in that order. The result is the new scratch and the carry that is left.
unfoldable pub mul_add : List ℕ → ℕ → List ℕ × ℕ
mul_add [] carry = ([], carry)
mul_add (d ∷ ds) carry =
    let c = carry + d * 26 in let (rest, left) = mul_add ds (c / 256) in (c % 256 ∷ rest, left)

-- One letter. The table has 128 items, and the test before it lets 128 pass: an index out of bounds.
unfoldable pub decode_letter : List ℕ → ℕ → Result (List ℕ)
decode_letter scratch c =
    if ltb 128 c
    then err (error_info "BadByte")
    else if c == 128
    then panic "index out of bounds"
    else elim (base26_digit c) [
      | none ↦ err (error_info "BadByte")
      | some d ↦
          let (next, carry) = mul_add scratch d in
          if carry == 0 then ok next else panic "assertion failed: carry == 0"
    ]

unfoldable pub decode_letters : List ℕ → List ℕ → Result (List ℕ)
decode_letters scratch [] = ok scratch
decode_letters scratch (c ∷ cs) = do next ← decode_letter scratch c; decode_letters next cs

-- `take_while(|&x| x == BASE26_CHARS[0]).map(|_| 0)`
unfoldable pub leading_zeroes : List ℕ → List ℕ
leading_zeroes [] = []
leading_zeroes (c ∷ cs) = if c == 97 then 0 ∷ leading_zeroes cs else []

-- `skip_while(|&x| x == 0)`
unfoldable pub skip_zeroes : List ℕ → List ℕ
skip_zeroes [] = []
skip_zeroes (d ∷ ds) = if d == 0 then skip_zeroes ds else d ∷ ds

unfoldable pub from : Bytes → Result Bytes
from text = do
  scratch ← decode_letters (replicate (1 + length text * 9 / 15) 0) text
  ok (leading_zeroes text ++ skip_zeroes (reverse scratch))

-- `for ch in ret.iter_mut()`: multiply the little-endian digits by 256 and add.
unfoldable pub mul_add_digits : List ℕ → ℕ → List ℕ × ℕ
mul_add_digits [] carry = ([], carry)
mul_add_digits (ch ∷ chs) carry =
    let new_ch = ch * 256 + carry in
    let (rest, left) = mul_add_digits chs (new_ch / 26) in (new_ch % 26 ∷ rest, left)

-- `while carry > 0 { ret.push(carry % 26); carry /= 26 }`, on fuel.
unfoldable pub carry_digits : ℕ → ℕ → List ℕ
carry_digits zero carry = []
carry_digits (suc fuel) carry =
    let rest = carry_digits fuel (carry / 26) in if carry == 0 then [] else carry % 26 ∷ rest

-- One byte into the digits. A carry is at most 255 here and shrinks by 26, so three rounds end it.
unfoldable pub encode_byte : List ℕ → ℕ → List ℕ
encode_byte digits b = let (next, carry) = mul_add_digits digits b in next ++ carry_digits 3 carry

unfoldable pub encode_bytes : List ℕ → Bytes → List ℕ
encode_bytes digits [] = digits
encode_bytes digits (b ∷ bs) = encode_bytes (encode_byte digits b) bs

unfoldable pub count_zeroes : Bytes → ℕ
count_zeroes [] = 0
count_zeroes (b ∷ bs) = if b == 0 then suc (count_zeroes bs) else 0

unfoldable pub encode_slice : Bytes → Bytes
encode_slice bytes =
    map base26_char (reverse (encode_bytes [] bytes ++ replicate (count_zeroes bytes) 0))
