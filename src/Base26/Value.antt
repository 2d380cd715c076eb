-- ===== src/Base26/Value.antt =====
-- Both directions of src/util/base26.rs keep the number that the bytes stand for.
use redgold.Prelude.{
  ℕ, zero, suc, ◌+◌, ◌*◌, ◌/◌, ◌<◌, ◌≡◌, refl, sym, ap, ◌∙◌, List, [], ◌∷◌, ◌++◌, arith, All, ◌^◌,
  All-append, map, ◌-◌, ok, ok-injective, >>=-eq-ok,
}
use native.Mathlib.Nat.{pow-suc}
use redgold.Structs.{Bytes}
use redgold.Base26.{
  mul_add, mul_add_digits, carry_digits, encode_byte, encode_bytes, decode_letter, decode_letters,
  base26_digit,
}

-- The number of little-endian digits.
pub value : ℕ → List ℕ → ℕ
value base [] = 0
value base (d ∷ ds) = d + base * value base ds

-- The number of bytes, the first the most significant, behind what was read before.
pub big_endian : ℕ → ℕ → List ℕ → ℕ
big_endian base acc [] = acc
big_endian base acc (b ∷ bs) = big_endian base (base * acc + b) bs

weight : ℕ → List ℕ → ℕ
weight base [] = 1
weight base (d ∷ ds) = base * weight base ds

value-mul_add_digits :
    (ds : List ℕ) (carry : ℕ)
    → value 26 (mul_add_digits ds carry).0
        + weight 26 (mul_add_digits ds carry).0 * (mul_add_digits ds carry).1
      ≡ 256 * value 26 ds + carry
unfolding mul_add_digits value weight
value-mul_add_digits [] carry = omega arith
value-mul_add_digits (d ∷ ds) carry =
    grind (arith, value-mul_add_digits ds ((d * 256 + carry) / 26))

value-append : (xs ys : List ℕ) → value 26 (xs ++ ys) ≡ value 26 xs + weight 26 xs * value 26 ys
unfolding value weight
value-append [] ys = omega arith
value-append (x ∷ xs) ys = grind (arith, value-append xs ys)

shrinks : (n k : ℕ) → n < 26 * k → n / 26 < k
shrinks n k h = omega arith

value-carry_digits : (fuel n : ℕ) → n < 26 ^ fuel → value 26 (carry_digits fuel n) ≡ n
unfolding carry_digits value
value-carry_digits zero n h = omega arith
value-carry_digits (suc fuel) n h = ground (
  arith,
  value-carry_digits fuel (n / 26) (shrinks n (26 ^ fuel) (omega (arith, pow-suc 26 fuel))),
)

mul_add_digits_carry :
    (ds : List ℕ) (carry : ℕ)
    → All (λ d. d < 26) ds
    → carry < 256
    → (mul_add_digits ds carry).1 < 256
unfolding mul_add_digits
mul_add_digits_carry [] carry h k = k
mul_add_digits_carry (d ∷ ds) carry h k =
    mul_add_digits_carry ds ((d * 256 + carry) / 26) h.1 (omega (arith, h.0))

mul_add_digits-All : (ds : List ℕ) (carry : ℕ) → All (λ d. d < 26) (mul_add_digits ds carry).0
unfolding mul_add_digits
mul_add_digits-All [] carry = tt
mul_add_digits-All (d ∷ ds) carry = (omega arith, mul_add_digits-All ds ((d * 256 + carry) / 26))

carry_digits-All : (fuel n : ℕ) → All (λ d. d < 26) (carry_digits fuel n)
unfolding carry_digits
carry_digits-All zero n = tt
carry_digits-All (suc fuel) n = ground (arith, carry_digits-All fuel (n / 26))

encode_byte-All : (ds : List ℕ) (b : ℕ) → All (λ d. d < 26) (encode_byte ds b)
unfolding encode_byte
encode_byte-All ds b =
    All-append _ (mul_add_digits ds b).0 _ (mul_add_digits-All ds b) (carry_digits-All 3 _)

value-encode_byte :
    (ds : List ℕ) (b : ℕ)
    → All (λ d. d < 26) ds
    → b < 256
    → value 26 (encode_byte ds b) ≡ 256 * value 26 ds + b
unfolding encode_byte
value-encode_byte ds b h k =
    value-append (mul_add_digits ds b).0 (carry_digits 3 (mul_add_digits ds b).1)
    ∙ ap (λ (t : ℕ). value 26 (mul_add_digits ds b).0 + weight 26 (mul_add_digits ds b).0 * t)
        (value-carry_digits 3 (mul_add_digits ds b).1 (below (mul_add_digits_carry ds b h k)))
    ∙ value-mul_add_digits ds b
  where
    below : {n : ℕ} → n < 256 → n < 26 ^ 3
    below h = omega arith

-- From digits below 26, the digits that the encoder makes of more bytes, each below 256, stand for the
-- number that the old digits followed by the bytes stand for, and each is below 26.
pub encode_bytes-value :
    (ds : List ℕ) (bytes : Bytes)
    → All (λ d. d < 26) ds
    → All (λ b. b < 256) bytes
    → (value 26 (encode_bytes ds bytes) ≡ big_endian 256 (value 26 ds) bytes)
      × All (λ d. d < 26) (encode_bytes ds bytes)
unfolding encode_bytes big_endian
encode_bytes-value ds [] h k = (refl, h)
encode_bytes-value ds (b ∷ bs) h k =
    let rest = encode_bytes-value (encode_byte ds b) bs (encode_byte-All ds b) k.1 in
    (rest.0 ∙ ap (λ (n : ℕ). big_endian 256 n bs) (value-encode_byte ds b h k.0), rest.1)

-- The decoder: one letter multiplies the scratch by 26 and adds the digit; what does not fit is the carry.
value-mul_add :
    (ds : List ℕ) (carry : ℕ)
    → value 256 (mul_add ds carry).0 + weight 256 ds * (mul_add ds carry).1
      ≡ 26 * value 256 ds + carry
unfolding mul_add value weight
value-mul_add [] carry = omega arith
value-mul_add (d ∷ ds) carry = grind (arith, value-mul_add ds ((carry + d * 26) / 256))

-- What a text stands for: the letters' numbers, the first the most significant.
pub digits_of : Bytes → List ℕ
digits_of = map (λ (c : ℕ). c - 97)

decode_letter-value :
    (scratch next : List ℕ) (c : ℕ)
    → decode_letter scratch c ≡ ok next
    → value 256 next ≡ 26 * value 256 scratch + (c - 97)
unfolding decode_letter base26_digit
decode_letter-value scratch next c e = ground (arith, value-mul_add scratch (c - 97))

-- What the decoder accepts it reads as that number: nothing is lost in the fixed scratch space.
pub decode_letters-value :
    (scratch next : List ℕ) (text : Bytes)
    → decode_letters scratch text ≡ ok next
    → value 256 next ≡ big_endian 26 (value 256 scratch) (digits_of text)
unfolding decode_letters big_endian digits_of
decode_letters-value scratch next [] e = ap (value 256) (sym (ok-injective e))
decode_letters-value scratch next (c ∷ cs) e =
    let (mid, e1, e2) = >>=-eq-ok (decode_letter scratch c) _ e in
    decode_letters-value mid next cs e2
    ∙ ap (λ (n : ℕ). big_endian 26 n (digits_of cs)) (decode_letter-value scratch mid c e1)
