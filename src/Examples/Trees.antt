-- ===== src/Examples/Trees.antt =====
-- Merkle trees of both kinds, with a combination of hashes that counts the levels.
use Prim.Native.Nat.{max}
use redgold.Prelude.{
  ℕ_discrete, ℕ, suc, ◌≡◌, refl, inl, inr, some, List, [], ◌∷◌, ◌++◌, ok, subst, ok-injective,
  arith,
}
use redgold.Structs.{Bytes}
use redgold.Proofs.{Bytes-discrete, merkle_combine}
use redgold.Merkle.{
  MerkleTree, MerkleProof, build_root, proof, verify, verify_from, rounds, round, pad, new_tree,
}
use redgold.Merkle.Verify.{Under, verify-Under}
use redgold.Merkle.Complete.{Rises, verify-proof}
use redgold.RgMerkle.{verify_merkle_proof, verify_pairs}
use redgold.RgMerkle
use redgold.Examples.Funds.{toy}
use redgold.RgMerkle.Root.{build_root_drops_last}

-- The first byte is the height of the node.
abbrev pub height : Bytes → ℕ
height [] = 0
height (x ∷ xs) = x

abbrev pub join : Bytes → Bytes → Bytes
join l r = suc (max (height l) (height r)) ∷ l ++ r

abbrev three_leafs : List Bytes
three_leafs = (0 ∷ 7 ∷ []) ∷ (0 ∷ 8 ∷ []) ∷ (0 ∷ 9 ∷ []) ∷ []

abbrev two_nodes : MerkleProof
two_nodes = record {
  root = some (join (join (0 ∷ 7 ∷ []) (0 ∷ 8 ∷ [])) (1 ∷ []));
  leaf = some (0 ∷ 8 ∷ []);
  nodes = (0 ∷ 7 ∷ []) ∷ (0 ∷ 8 ∷ []) ∷ join (0 ∷ 7 ∷ []) (0 ∷ 8 ∷ []) ∷ (1 ∷ []) ∷ [];
}

-- The first byte rises in the tree of the three leafs.
three-Rises :
    (t : MerkleTree) → build_root (merkle_combine toy) three_leafs ≡ ok t → Rises height t.entries
unfolding build_root rounds round pad new_tree merkle_combine
three-Rises t e =
    subst (λ (t : MerkleTree). Rises height t.entries) (ok-injective e)
      ((omega arith, omega arith), ((omega arith, omega arith), ((omega arith, omega arith), tt)))

verify-proof_example :
    (t : MerkleTree) × (p : MerkleProof) × (build_root (merkle_combine toy) three_leafs ≡ ok t)
    × (proof t (0 ∷ 8 ∷ []) ≡ some p)
    × (verify (merkle_combine toy) p ≡ ok tt)
    × (p.root ≡ some t.root)
    × (p.leaf ≡ some (0 ∷ 8 ∷ []))
verify-proof_example =
    verify-proof (merkle_combine toy) height three_leafs (0 ∷ 8 ∷ []) three-Rises (inr (inl refl))

verify-Under_example : Under join (join (join (0 ∷ 7 ∷ []) (0 ∷ 8 ∷ [])) (1 ∷ [])) (0 ∷ 8 ∷ [])
unfolding verify verify_from Bytes-discrete ℕ_discrete
verify-Under_example =
    verify-Under join two_nodes (join (join (0 ∷ 7 ∷ []) (0 ∷ 8 ∷ [])) (1 ∷ [])) (0 ∷ 8 ∷ []) refl
      refl (λ e. cc) refl

build_root_drops_last_example :
    RgMerkle.build_root (λ b. b) join 4 (three_leafs ++ (0 ∷ 6 ∷ []) ∷ (0 ∷ 1 ∷ []) ∷ [])
    ≡ RgMerkle.build_root (λ b. b) join 4 (three_leafs ++ (0 ∷ 6 ∷ []) ∷ (0 ∷ 2 ∷ []) ∷ [])
build_root_drops_last_example =
    build_root_drops_last (λ b. b) join 4 0 (three_leafs ++ (0 ∷ 6 ∷ []) ∷ []) (0 ∷ 1 ∷ [])
      (0 ∷ 2 ∷ []) refl
