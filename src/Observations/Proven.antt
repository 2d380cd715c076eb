-- ===== src/Observations/Proven.antt =====
-- The proofs of what a node has observed pass their check (schema/src/observation.rs).
use redgold.Prelude.{
  ℕ, ◌≡◌, ◌≢◌, refl, ap, sym, ◌∙◌, inl, inr, some, List, [], ◌∷◌, map, Elem, All, ok, subst,
  ok-injective,
}
use redgold.Structs.{Bytes, Hash, Proof}
use redgold.Crypto.{Crypto}
use redgold.Proofs.{merkle_combine}
use redgold.Merkle.{MerkleProof, MerkleTree, build_root, proof, verify}
use redgold.Merkle.Complete.{Rises, verify-proof}
use redgold.Observations.{
  ObservationMetadata, Observation, Encoding, leaf, leafs_hash, observation_proof_of,
  build_observation_proofs,
}

All-Elem : {A : Type 0} (P : A → Type 0) (xs : List A) → ((x : A) → Elem x xs → P x) → All P xs
All-Elem P [] h = tt
All-Elem P (x ∷ xs) h = (h x (inl refl), All-Elem P xs (λ y m. h y (inr m)))

Elem-map : {A B : Type 0} (f : A → B) (x : A) (xs : List A) → Elem x xs → Elem (f x) (map f xs)
Elem-map f x [] m = absurd m
Elem-map f x (y ∷ ys) (inl e) = inl (ap f e)
Elem-map f x (y ∷ ys) (inr m) = inr (Elem-map f x ys m)

module _ (c : Crypto) (code : Encoding) where
  -- A proof from the tree's root down to what was observed, which the check accepts.
  abbrev pub Proven : MerkleTree → ObservationMetadata → Type 0
  Proven t m =
      (p : MerkleProof) × (proof t (leaf c code m) ≡ some p)
      × (verify (merkle_combine c) p ≡ ok tt)
      × (p.root ≡ some t.root)
      × (p.leaf ≡ some (leaf c code m))

  -- The tree of what is observed has no hash cycle, which the level shows.
  abbrev pub NoCycle : (Bytes → ℕ) → List ObservationMetadata → Type 0
  NoCycle level ms =
      (t : MerkleTree)
      → build_root (merkle_combine c) (leafs_hash c code ms) ≡ ok t
      → Rises level t.entries

  proven :
      (level : Bytes → ℕ) (ms : List ObservationMetadata) (t : MerkleTree)
      → NoCycle level ms
      → build_root (merkle_combine c) (leafs_hash c code ms) ≡ ok t
      → All (Proven t) ms
  unfolding leafs_hash
  proven level ms t up e = All-Elem (Proven t) ms λ m i.
      let (u, p, eu, ep, ev, er, el) =
        verify-proof (merkle_combine c) level (leafs_hash c code ms) (leaf c code m) up
          (Elem-map (leaf c code) m ms i) in
      let same = ok-injective (sym eu ∙ e) in
      (
        p,
        ap (λ t. proof t (leaf c code m)) (sym same) ∙ ep,
        ev,
        er ∙ ap (λ t. some t.root) same,
        el,
      )

  -- What is observed gets its proofs, one for each item in order, and each has a path to the common root
  -- that the check accepts. (There is something to observe, and the tree that is built has no hash cycle:
  -- some level rises from the children of each entry to its parent.)
  pub build_observation_proofs-Proven :
      (level : Bytes → ℕ) (o : Observation) (h : Hash) (p : Proof)
      → o.observations ≢ []
      → NoCycle level o.observations
      → (t : MerkleTree) × (build_root (merkle_combine c) (leafs_hash c code o.observations) ≡ ok t)
        × (build_observation_proofs c code o h p
            ≡ ok (map (observation_proof_of c code t h p) o.observations))
        × All (Proven t) o.observations
  unfolding build_observation_proofs leafs_hash
  build_observation_proofs-Proven level o h p some_item up = by_items o.observations refl
    where
      by_items :
          (ms : List ObservationMetadata)
          → o.observations ≡ ms
          → (t : MerkleTree) × (build_root (merkle_combine c) (leafs_hash c code o.observations)
              ≡ ok t)
            × (build_observation_proofs c code o h p
                ≡ ok (map (observation_proof_of c code t h p) o.observations))
            × All (Proven t) o.observations
      by_items [] e = absurd (some_item e)
      by_items (m ∷ ms) e =
          let (t, _, et, _, _, _, _) =
            verify-proof (merkle_combine c) level (leafs_hash c code o.observations) (leaf c code m)
              up (subst (λ l. Elem (leaf c code m) (leafs_hash c code l)) (sym e) first) in
          (t, et, rw (build_observation_proofs, et) refl, proven level o.observations t up et)
        where
          first : Elem (leaf c code m) (leafs_hash c code (m ∷ ms))
          first = inl refl
