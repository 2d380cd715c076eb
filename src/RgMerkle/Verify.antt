-- ===== src/RgMerkle/Verify.antt =====
-- What the checks of src/util/rg_merkle.rs prove.
use redgold.Prelude.{
  ◌≡◌, ◌⊎◌, inl, inr, true, false, none, some, List, [], ◌∷◌, Bool-cases, Option-cases, test→holds,
  ◌||◌, none≢some, some_inj, length, ◌==◌, ◌%◌, ◌≢◌, subst,
}
use redgold.Structs.{Bytes}
use redgold.Proofs.{Bytes-discrete}
use redgold.RgMerkle.{is_root, same, verify_pairs, verify_merkle_proof}

-- Hashing in pairs goes from one hash up to another, in one step or more.
pub data Up (merge_hash : Bytes → Bytes → Bytes) : Bytes → Bytes → Type 0 where
  one : (l r x y : Bytes) → (x ≡ l) ⊎ (x ≡ r) → merge_hash l r ≡ y → Up merge_hash x y
  more :
      (l r x y : Bytes) → (x ≡ l) ⊎ (x ≡ r) → Up merge_hash (merge_hash l r) y → Up merge_hash x y

either : (a b x : Bytes) → (same x a || same x b) ≡ true → (x ≡ a) ⊎ (x ≡ b)
either a b x e = elim (Bool-cases (same x a)) [
  | inl t ↦ inl (test→holds (Bytes-discrete x a) t)
  | inr f ↦ inr (test→holds (Bytes-discrete x b) (rw f at e))
]

false≢true : false ≢ true
false≢true e = cc

module _ (dhash : Bytes → Bytes) (merge_hash : Bytes → Bytes → Bytes) where
  climb :
      (p leaf q : Bytes) (xs : List Bytes)
      → verify_pairs dhash merge_hash (some p) leaf xs ≡ some (some q)
      → (p ≡ q) ⊎ Up merge_hash p q
  unfolding verify_pairs
  climb p leaf q [] e = inl (some_inj (some_inj e))
  climb p leaf q (x ∷ []) e = inl (some_inj (some_inj e))
  climb p leaf q (l ∷ r ∷ xs) e = elim (Bool-cases (same p l || same p r)) [
    | inl t ↦ inr (elim (climb (merge_hash l r) leaf q xs (rw t at e)) [
      | inl k ↦ one l r p q (either l r p t) k
      | inr u ↦ more l r p q (either l r p t) u
    ])
    | inr f ↦ absurd (none≢some (rw f at e))
  ]

  start :
      (leaf q : Bytes) (xs : List Bytes)
      → verify_pairs dhash merge_hash none leaf xs ≡ some (some q)
      → Up merge_hash leaf q
  unfolding verify_pairs
  start leaf q [] e = absurd (none≢some (some_inj e))
  start leaf q (x ∷ []) e = absurd (none≢some (some_inj e))
  start leaf q (l ∷ r ∷ xs) e = elim (Bool-cases (same leaf l || same leaf r)) [
    | inl t ↦ elim (climb (merge_hash l r) leaf q xs (rw t at e)) [
      | inl k ↦ one l r leaf q (either l r leaf t) k
      | inr u ↦ more l r leaf q (either l r leaf t) u
    ]
    | inr f ↦ absurd (none≢some (rw f at e))
  ]

  reached :
      (root leaf : Bytes) (proof : List Bytes)
      → is_root root (verify_pairs dhash merge_hash none leaf proof) ≡ true
      → Up merge_hash leaf root
  reached root leaf proof e = elim (Option-cases (verify_pairs dhash merge_hash none leaf proof)) [
    | inl n ↦ absurd (false≢true (rw n at e))
    | inr (none, n) ↦ absurd (false≢true (rw n at e))
    | inr (some p, n) ↦
        subst (Up merge_hash leaf) (test→holds (Bytes-discrete p root) (rw n at e))
          (start leaf p proof n)
  ]

  -- A proof that is accepted hashes the leaf up to the root, in at least one step.
  pub verify_merkle_proof-Up :
      (root leaf : Bytes) (proof : List Bytes)
      → verify_merkle_proof dhash merge_hash root leaf proof ≡ true
      → Up merge_hash leaf root
  unfolding verify_merkle_proof
  verify_merkle_proof-Up root leaf proof e = elim (Bool-cases (length proof % 2 == 0)) [
    | inl t ↦ reached root leaf proof (rw t at e)
    | inr f ↦ absurd (false≢true (rw f at e))
  ]
