-- ===== src/Merkle/Verify.antt =====
-- What a checked Merkle proof proves (schema/src/merkle_proof.rs).
use redgold.Prelude.{
  ◌≡◌, refl, sym, ◌⊎◌, inl, inr, some, List, [], ◌∷◌, Option, Result, ok, err, Bool-cases,
  test→holds, ◌||◌, true, false, Bool, err≢ok, panic≢ok, ◌≢◌, if◌then◌else◌, ErrorInfo,
}
use redgold.Structs.{Bytes}
use redgold.Proofs.{Bytes-discrete}
use redgold.Merkle.{MerkleProof, same, verify_from, verify}

-- `Under combine root x`: hashing goes from `x` up to `root`, with some hash beside it at each level.
pub data Under (combine : Bytes → Bytes → Bytes) (root : Bytes) : Bytes → Type 0 where
  at_root : (l r x : Bytes) → (x ≡ l) ⊎ (x ≡ r) → combine l r ≡ root → Under combine root x
  below :
      (l r x : Bytes) → (x ≡ l) ⊎ (x ≡ r) → Under combine root (combine l r) → Under combine root x

either : (a b x : Bytes) → (same x a || same x b) ≡ true → (x ≡ a) ⊎ (x ≡ b)
either a b x e = elim (Bool-cases (same x a)) [
  | inl t ↦ inl (test→holds (Bytes-discrete x a) t)
  | inr f ↦ inr (test→holds (Bytes-discrete x b) (rw f at e))
]

either' : (a b x : Bytes) → (same a x || same b x) ≡ true → (x ≡ a) ⊎ (x ≡ b)
either' a b x e = elim (Bool-cases (same a x)) [
  | inl t ↦ inl (sym (test→holds (Bytes-discrete a x) t))
  | inr f ↦ inr (sym (test→holds (Bytes-discrete b x) (rw f at e)))
]

guarded {ℓ} :
    {A : Type ℓ} (b : Bool) (r : Result A) (i : ErrorInfo) {a : A}
    → (if b then r else err i) ≡ ok a
    → (b ≡ true) × (r ≡ ok a)
guarded true r i e = (refl, e)
guarded false r i e = absurd (err≢ok e)

module _ (combine : Bytes → Bytes → Bytes) where
  verify_from-Under :
      (root x : Bytes) (l r : Bytes) (xs : List Bytes)
      → (x ≡ l) ⊎ (x ≡ r)
      → verify_from combine (some root) (l ∷ r ∷ xs) ≡ ok tt
      → Under combine root x
  unfolding verify_from
  verify_from-Under root x l r [] h e =
      at_root l r x h (test→holds (Bytes-discrete _ root) (guarded _ _ _ e).0)
  verify_from-Under root x l r (m ∷ []) h e = absurd (panic≢ok e)
  verify_from-Under root x l r (m ∷ n ∷ xs) h e =
      let (t, e1) = guarded (same m (combine l r) || same n (combine l r)) _ _ e in
      below l r x h (verify_from-Under root (combine l r) m n xs (either' m n (combine l r) t) e1)

  verify_nodes-Under :
      (r l : Option Bytes) (root leaf : Bytes) (nodes : List Bytes)
      → r ≡ some root
      → l ≡ some leaf
      → nodes ≢ []
      → verify combine (record { root = r; leaf = l; nodes = nodes }) ≡ ok tt
      → Under combine root leaf
  unfolding verify
  verify_nodes-Under r l root leaf [] hr hl ne e = absurd (ne refl)
  verify_nodes-Under r l root leaf (a ∷ []) hr hl ne e = absurd (panic≢ok e)
  verify_nodes-Under r l root leaf (a ∷ b ∷ xs) hr hl ne e =
      let (t, e1) = guarded (same leaf a || same leaf b) _ _ (rw (hr, hl) at e) in
      verify_from-Under root leaf a b xs (either a b leaf t) e1

  -- The check of a proof that is not empty is sound: the leaf hashes up to the root.
  pub verify-Under :
      (p : MerkleProof) (root leaf : Bytes)
      → p.root ≡ some root
      → p.leaf ≡ some leaf
      → p.nodes ≢ []
      → verify combine p ≡ ok tt
      → Under combine root leaf
  verify-Under p root leaf = verify_nodes-Under p.root p.leaf root leaf p.nodes
