-- ===== src/Examples/Coding.antt =====
-- Letters, bytes and ids.
use redgold.Prelude.{◌<◌, ◌≡◌, refl, [], ◌∷◌, All, arith}
use redgold.Base26.{encode_bytes, decode_letters, decode_letter, mul_add, base26_digit}
use redgold.Base26.Value.{value, big_endian, digits_of, encode_bytes-value, decode_letters-value}

encode_bytes-value_example :
    (value 26 (encode_bytes [] (200 ∷ 17 ∷ [])) ≡ big_endian 256 (value 26 []) (200 ∷ 17 ∷ []))
    × All (λ d. d < 26) (encode_bytes [] (200 ∷ 17 ∷ []))
encode_bytes-value_example =
    encode_bytes-value [] (200 ∷ 17 ∷ []) tt (omega arith, (omega arith, tt))

-- "bab" is read into two bytes.
decode_letters-value_example :
    value 256 (166 ∷ 2 ∷ [])
    ≡ big_endian 26 (value 256 (0 ∷ 0 ∷ [])) (digits_of (98 ∷ 97 ∷ 99 ∷ []))
unfolding decode_letters decode_letter mul_add base26_digit
decode_letters-value_example =
    decode_letters-value (0 ∷ 0 ∷ []) (166 ∷ 2 ∷ []) (98 ∷ 97 ∷ 99 ∷ []) refl
