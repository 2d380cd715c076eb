-- ===== src/Requests/Auth.antt =====
-- Signed requests and responses: what their checks prove, and that a signed one passes them
-- (keys/src/request_support.rs).
use redgold.Prelude.{
  ◌≡◌, refl, ap, ◌∙◌, subst, Result-cases, inl, inr, Bool-cases, Option, some, String, ok,
  >>=-eq-ok, >>=-ok, safe_get_msg-ok, ok-injective, err≢ok, panic≢ok, safe_get_msg-eq-ok, test,
  test→holds, holds→test,
}
use redgold.Structs.{Hash, Proof, PublicKey, PublicKey-discrete}
use redgold.Crypto.{Crypto}
use redgold.Proofs.{verify}
use redgold.Requests.{Request, NodeMetadata, Wire, request_hash, verify_auth, with_auth, same_key}

-- The key stands in the metadata and on the proof, and the proof verifies against the hash.
abbrev pub SignedBy : Crypto → Option NodeMetadata → Option Proof → Hash → PublicKey → Type 0
SignedBy c nmd proof h pk =
    (n : NodeMetadata) × (p : Proof) × (nmd ≡ some n)
    × (proof ≡ some p)
    × (n.public_key ≡ some pk)
    × (p.public_key ≡ some pk)
    × (verify c p h ≡ ok tt)

same_key-eq-ok : (k j : PublicKey) (m : String) {u : Unit} → same_key k j m ≡ ok u → k ≡ j
same_key-eq-ok k j m e = elim (Bool-cases (test (PublicKey-discrete k j))) [
  | inl t ↦ test→holds (PublicKey-discrete k j) t
  | inr f ↦ absurd (err≢ok (rw f at e))
]

same_key_self : (k : PublicKey) (m : String) → same_key k k m ≡ ok tt
same_key_self k m = rw (holds→test (PublicKey-discrete k k) refl) refl

module _ (c : Crypto) (w : Wire) where
  -- A request that passes its check is signed by the key that the check returns: the key is on the
  -- proof and in the metadata, and the proof verifies the hash of all but the proof and the origin.
  pub verify_auth-SignedBy :
      (r : Request) (pk : PublicKey)
      → verify_auth c w r ≡ ok pk
      → SignedBy c r.node_metadata r.proof (request_hash c w r) pk
  unfolding verify_auth
  verify_auth-SignedBy r pk e =
      let (p, e1, f1) = >>=-eq-ok _ _ e in
      let (n, e2, f2) = >>=-eq-ok _ _ f1 in
      let (k, e3, f3) = >>=-eq-ok _ _ f2 in
      let (j, e4, f4) = >>=-eq-ok _ _ f3 in
      let (d, e5, f5) = >>=-eq-ok _ _ f4 in
      let (u, e6, f6) = >>=-eq-ok _ _ f5 in
      (
        n,
        p,
        safe_get_msg-eq-ok _ _ e2,
        safe_get_msg-eq-ok _ _ e1,
        (safe_get_msg-eq-ok _ _ e3 ∙ ap some (same_key-eq-ok k j _ e6)) ∙ ap some (ok-injective f6),
        safe_get_msg-eq-ok _ _ e4 ∙ ap some (ok-injective f6),
        e5,
      )

  verify_auth_signed :
      (r : Request) (p : Proof) (n : NodeMetadata) (pk : PublicKey) (d : Unit)
      → verify c p (request_hash c w r) ≡ ok d
      → r.node_metadata ≡ some n
      → n.public_key ≡ some pk
      → p.public_key ≡ some pk
      → verify_auth c w (record r { proof = some p }) ≡ ok pk
  unfolding verify_auth request_hash
  verify_auth_signed r p n pk d v en ek ep =
      >>=-ok _ (safe_get_msg-ok _ en)
      ∙ >>=-ok _ (safe_get_msg-ok _ ek)
      ∙ >>=-ok _ (safe_get_msg-ok _ ep)
      ∙ >>=-ok _ v
      ∙ >>=-ok _ (same_key_self pk _)

  -- A request with the key of the signer in its metadata passes its check once it is signed.
  pub verify_auth-with_auth :
      (prove : Hash → Proof) (r s : Request) (n : NodeMetadata) (pk : PublicKey)
      → with_auth c w prove r ≡ ok s
      → r.node_metadata ≡ some n
      → n.public_key ≡ some pk
      → (prove (request_hash c w r)).public_key ≡ some pk
      → verify_auth c w s ≡ ok pk
  unfolding with_auth
  verify_auth-with_auth prove r s n pk e en ek ep =
      elim (Result-cases (verify c (prove (request_hash c w r)) (request_hash c w r))) [
        | inl (d, ed) ↦
            subst (λ x. verify_auth c w x ≡ ok pk) (ok-injective (rw (with_auth, ed) at e))
              (verify_auth_signed r (prove (request_hash c w r)) n pk d ed en ek ep)
        | inr (inl (i, ei)) ↦ absurd (panic≢ok (rw (with_auth, ei) at e))
        | inr (inr (m, em)) ↦ absurd (panic≢ok (rw (with_auth, em) at e))
      ]
