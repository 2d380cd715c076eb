-- ===== src/RgMerkle.antt =====
-- src/util/rg_merkle.rs: the second Merkle tree, whose odd node is carried over instead of doubled, and
-- the proofs that are searched in the list of its nodes. `dhash` and `merge_hash` (keys/src/util/mod.rs,
-- a double SHA-256) are parameters. The optional outputs are always collected.

pub mod Verify
pub mod Root
use redgold.Prelude.{
  ℕ, zero, suc, ◌+◌, Bool, true, false, Option, none, some, List, [], ◌∷◌, ◌++◌, length, find, test,
  ltb, ◌||◌, ◌&&◌, ◌%◌, if◌then◌else◌, ◌==◌, Result, ok, panic, is_some,
}
use redgold.Structs.{Bytes}
use redgold.Proofs.{Bytes-discrete}

pub record TempMerkleNode : Type 0 where
  pub parent : Bytes
  pub left : Bytes
  pub right : Bytes

abbrev pub same : Bytes → Bytes → Bool
same a b = test (Bytes-discrete a b)

abbrev pub has_child : Bytes → TempMerkleNode → Bool
has_child h n = same n.left h || same n.right h

-- `node.left == h || node.right == h`, the first such node.
abbrev pub find_node : List TempMerkleNode → Bytes → Option TempMerkleNode
find_node nodes h = find (has_child h) nodes

-- The parent of the last pair is the root.
abbrev pub is_root : Bytes → Option (Option Bytes) → Bool
is_root root none = false
is_root root (some none) = false
is_root root (some (some p)) = same p root

module _ (dhash : Bytes → Bytes) (merge_hash : Bytes → Bytes → Bytes) where
  -- `round`: the parents, the node without a partner, and the stored nodes.
  unfoldable pub round : List Bytes → List Bytes × Option Bytes × List TempMerkleNode
  round [] = ([], none, [])
  round (x ∷ []) = ([], some x, [])
  round (x ∷ y ∷ xs) =
      let (ps, rest, nodes) = round xs in
      (merge_hash x y ∷ ps, rest, record { parent = merge_hash x y; left = x; right = y } ∷ nodes)

  -- `if active_round.len() % 2 != 0 && remainder.is_some() { push }`
  abbrev pub carry : List Bytes → Option Bytes → List Bytes
  carry ps none = ps
  carry ps (some r) = if length ps % 2 == 0 then ps else ps ++ r ∷ []

  -- The result of `build_root`: the root, the intermediate hashes and the stored nodes.
  pub record Built : Type 0 where
    pub root : Bytes
    pub intermediate : List Bytes
    pub nodes : List TempMerkleNode

  -- `while active_round.len() > 1`, on fuel; `none` means that the fuel ran out.
  unfoldable pub loop : ℕ → List Bytes → List Bytes → List TempMerkleNode → Option (Result Built)
  loop fuel [] inter nodes = some (panic "unwrap")
  loop fuel (x ∷ []) inter nodes =
      some (ok (record { root = x; intermediate = inter; nodes = nodes }))
  loop zero (x ∷ y ∷ xs) inter nodes = none
  loop (suc fuel) (x ∷ y ∷ xs) inter nodes =
      let (ps, rest, made) = round (x ∷ y ∷ xs) in
      let active = carry ps rest in
      loop fuel active (if ltb 1 (length active) then inter ++ ps else inter) (nodes ++ made)

  -- A single leaf is hashed once more, and is both children of its node.
  unfoldable pub build_root : ℕ → List Bytes → Option (Result Built)
  build_root fuel (x ∷ []) = some (
      ok (record {
        root = dhash x;
        intermediate = [];
        nodes = record { parent = dhash x; left = x; right = x } ∷ [];
      }))
  build_root fuel leafs = loop fuel leafs [] []

  -- `loop { .. }` of `create_proof`, on fuel.
  unfoldable pub create_proof : ℕ → List TempMerkleNode → Bytes → Option (List Bytes)
  create_proof zero nodes h = none
  create_proof (suc fuel) nodes h = elim (find_node nodes h) [
    | none ↦ some []
    | some n ↦ elim (create_proof fuel nodes n.parent) [
      | none ↦ none
      | some rest ↦ some (n.left ∷ n.right ∷ rest)
    ]
  ]

  -- `while active_node != root`, on fuel; the `unwrap` of a node that is not found panics.
  unfoldable pub build_merkle_proof :
      ℕ → Bytes → List TempMerkleNode → Bytes → Option (Result (List Bytes))
  build_merkle_proof zero root nodes h = none
  build_merkle_proof (suc fuel) root nodes h = elim (test (Bytes-discrete h root)) [
    | true ↦ some (ok [])
    | false ↦ elim (find_node nodes h) [
      | none ↦ some (panic "unwrap")
      | some n ↦ elim (build_merkle_proof fuel root nodes n.parent) [
        | some (ok rest) ↦ some (ok (n.left ∷ n.right ∷ rest))
        | other ↦ other
      ]
    ]
  ]

  -- `verify_proof` looks at the first pair only, and at the hash of a single leaf.
  unfoldable pub verify_proof : List Bytes → Bytes → Result Bool
  verify_proof (first ∷ second ∷ []) h =
      if same first h || same second h then ok (same (dhash first) second) else ok false
  verify_proof (first ∷ second ∷ x ∷ xs) h = ok (same first h || same second h)
  verify_proof _ h = panic "unwrap"

  -- The loop of `verify_merkle_proof` over pairs, with the parent of the pair before, or the leaf.
  unfoldable pub verify_pairs : Option Bytes → Bytes → List Bytes → Option (Option Bytes)
  verify_pairs prev leaf [] = some prev
  verify_pairs prev leaf (x ∷ []) = some prev
  verify_pairs (some p) leaf (l ∷ r ∷ xs) =
      if same p l || same p r then verify_pairs (some (merge_hash l r)) leaf xs else none
  verify_pairs none leaf (l ∷ r ∷ xs) =
      if same leaf l || same leaf r then verify_pairs (some (merge_hash l r)) leaf xs else none

  unfoldable pub verify_merkle_proof : Bytes → Bytes → List Bytes → Bool
  verify_merkle_proof root leaf proof =
      if length proof % 2 == 0 then is_root root (verify_pairs none leaf proof) else false
