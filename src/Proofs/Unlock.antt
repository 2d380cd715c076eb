-- ===== src/Proofs/Unlock.antt =====
-- What it takes to open an address (keys/src/proof_support.rs, schema/src/address.rs).
use redgold.Prelude.{
  ◌≡◌, refl, ◌∙◌, sym, ap, ok, List, [], ◌∷◌, ◌++◌, All, test, test→holds, holds→test, Bool-cases,
  inl, inr, err≢ok, ok-injective, >>=-eq-ok, length, length-append, take, length-take, arith,
  ==_iff,
}
use redgold.Structs.{Bytes, Hash, Address, Address-discrete, Proof}
use redgold.Crypto.{Crypto}
use redgold.Proofs.{
  Bytes-discrete, with_checksum, address_hash, verify_length, verify_checksum, address_from_bytes,
  proofs_to_address, collect_keys, verify, verify_each, verify_proofs, new_raw,
}

take-append-exact {ℓ} : {A : Type ℓ} (xs ys : List A) → take (length xs) (xs ++ ys) ≡ xs
take-append-exact [] ys = refl
take-append-exact (x ∷ xs) ys = ap (◌∷◌ x) (take-append-exact xs ys)

module _ (c : Crypto) where
  pub length-address_hash : (b : Bytes) → length (address_hash c b) ≡ 32
  unfolding address_hash with_checksum
  length-address_hash b = omega (
    arith,
    length-append (c.sha3_224 b) (take 4 (c.sha3_256 (c.sha3_224 b))),
    length-take 4 (c.sha3_256 (c.sha3_224 b)),
    c.length-sha3_256 (c.sha3_224 b),
    c.length-sha3_224 b,
  )

  checksum_fixed : (b : Bytes) → with_checksum c (take 28 (address_hash c b)) ≡ address_hash c b
  unfolding address_hash with_checksum
  checksum_fixed b =
      ap (with_checksum c) (rw (← c.length-sha3_224 b) (take-append-exact (c.sha3_224 b) _))

  -- An address computed from key bytes always passes its own length and checksum tests.
  pub address_from_bytes-address_hash :
      (b : Bytes) → address_from_bytes c (address_hash c b) ≡ ok (new_raw (address_hash c b))
  unfolding address_from_bytes verify_checksum verify_length
  address_from_bytes-address_hash b =
      rw (
        (==_iff _ 32).1 (length-address_hash b),
        holds→test (Bytes-discrete _ _) (checksum_fixed b),
      )

  verify_each-All :
      (ps : List Proof) (h : Hash) → verify_each c ps h ≡ ok tt → All (λ p. verify c p h ≡ ok tt) ps
  unfolding verify_each
  verify_each-All [] h e = tt
  verify_each-All (p ∷ ps) h e =
      let (_, e1, e2) = >>=-eq-ok (verify c p h) _ e in (e1, verify_each-All ps h e2)

  -- Proofs open an address only if every signature verifies and the address is the hash of the keys.
  pub verify_proofs-opens :
      (ps : List Proof) (h : Hash) (a : Address)
      → verify_proofs c ps h a ≡ ok tt
      → (keys : Bytes) × (collect_keys [] ps ≡ ok keys)
        × (a ≡ new_raw (address_hash c keys))
        × All (λ p. verify c p h ≡ ok tt) ps
  unfolding verify_proofs proofs_to_address
  verify_proofs-opens ps h a e =
      let (addr, e1, e2) = >>=-eq-ok (proofs_to_address c ps) _ e in
      let (keys, k1, k2) = >>=-eq-ok (collect_keys [] ps) _ e1 in
      let same : addr ≡ new_raw (address_hash c keys) =
        ok-injective (sym k2 ∙ address_from_bytes-address_hash keys) in
      elim (Bool-cases (test (Address-discrete a addr))) [
        | inl t ↦ (
          keys,
          k1,
          test→holds (Address-discrete a addr) t ∙ same,
          verify_each-All ps h (rw t at e2),
        )
        | inr f ↦ absurd (err≢ok (rw f at e2))
      ]
