-- ===== src/Merkle.antt =====
-- schema/src/util/merkle.rs and schema/src/merkle_proof.rs: the Merkle tree of an observation, its
-- proofs and their check. `combine` stands for any combination of two hashes; that of the code is
-- `merkle_combine` (Proofs). Hashes are compared by their bytes, as the code does.
pub mod Verify
pub mod Build
pub mod Complete
use redgold.Prelude.{
  ℕ, zero, suc, ◌+◌, Bool, true, false, Option, none, some, List, [], ◌∷◌, ◌++◌, length, last?,
  test, ◌||◌, Result, ok, err, panic, error_info, safe_get_msg, ◌>>=◌, ◌>>◌, if◌then◌else◌, ◌==◌,
  ◌%◌, map, or_else,
}
use redgold.Structs.{Bytes}
use redgold.Proofs.{Bytes-discrete}

pub record MerkleEntry : Type 0 where
  pub parent : Bytes
  pub left : Bytes
  pub right : Bytes

-- The lookup from a child to its entry is a function of the entries; `parent_lookup` is never read.
pub record MerkleTree : Type 0 where
  pub root : Bytes
  pub entries : List MerkleEntry

pub record MerkleProof : Type 0 where
  pub root : Option Bytes
  pub leaf : Option Bytes
  pub nodes : List Bytes

-- `pad`: an odd list is made even by a copy of its last hash.
unfoldable pub pad : List Bytes → List Bytes
pad [] = []
pad (x ∷ []) = x ∷ x ∷ []
pad (x ∷ y ∷ xs) = x ∷ y ∷ pad xs

abbrev pub same : Bytes → Bytes → Bool
same a b = test (Bytes-discrete a b)

-- `MerkleTree::new`, whose root is the parent of the last entry.
unfoldable pub new_tree : List MerkleEntry → Result MerkleTree
new_tree entries = elim (last? entries) [
  | some e ↦ ok (record { root = e.parent; entries = entries })
  | none ↦ panic "Missing root"
]

-- `child_to_parent.get(k)`: a later insert of the same key replaces an earlier one, and the right
-- child of an entry goes in after the left one.
unfoldable pub child_to_parent : List MerkleEntry → Bytes → Option MerkleEntry
child_to_parent [] k = none
child_to_parent (e ∷ es) k = elim (child_to_parent es k) [
  | some f ↦ some f
  | none ↦ if same e.left k || same e.right k then some e else none
]

-- The loop of `proof`, on fuel.
unfoldable pub proof_nodes : ℕ → List MerkleEntry → Bytes → Option (List Bytes)
proof_nodes zero es active = none
proof_nodes (suc fuel) es active = elim (child_to_parent es active) [
  | none ↦ some []
  | some e ↦ elim (proof_nodes fuel es e.parent) [
    | none ↦ none
    | some rest ↦ some (e.left ∷ e.right ∷ rest)
  ]
]

-- A loop that runs longer than there are entries has met an entry twice and never ends.
unfoldable pub proof : MerkleTree → Bytes → Option MerkleProof
proof t leaf = elim (proof_nodes (suc (length t.entries)) t.entries leaf) [
  | none ↦ none
  | some nodes ↦ some (record { root = some t.root; leaf = some leaf; nodes = nodes })
]

abbrev pub parents : List MerkleEntry → List Bytes
parents = map (λ (e : MerkleEntry). e.parent)

module _ (combine : Bytes → Bytes → Bytes) where
  abbrev pub entry : Bytes → Bytes → MerkleEntry
  entry l r = record { parent = combine l r; left = l; right = r }

  -- One round of the loop on padded leafs: the entries that it makes, in order.
  unfoldable pub round : List Bytes → List MerkleEntry
  round (l ∷ r ∷ xs) = entry l r ∷ round xs
  round _ = []

  -- `while !done`, on fuel; `none` means that the fuel ran out. The loop always makes a round.
  unfoldable pub rounds : ℕ → List Bytes → List MerkleEntry → Option (List MerkleEntry)
  rounds zero leafs entries = none
  rounds (suc fuel) leafs entries =
      let made = round (pad leafs) in
      let rest = rounds fuel (parents made) (entries ++ made) in
      if length made == 1 then some (entries ++ made) else rest

  -- Each round at least halves a list of two or more, so the number of leafs is enough fuel.
  unfoldable pub build_root : List Bytes → Result MerkleTree
  build_root [] = err (error_info "Merkle tree build must have at least one leaf")
  build_root (x ∷ xs) = elim (rounds (suc (length xs)) (x ∷ xs) []) [
    | some entries ↦ new_tree entries
    | none ↦ panic "fuel"
  ]

  -- The body of the loop of `MerkleProof::verify` behind the test of the leaf: `nodes` is what is left
  -- from index `i` on. An index past the end panics.
  unfoldable pub verify_from : Option Bytes → List Bytes → Result (Unit {0})
  verify_from root [] = ok tt
  verify_from root (l ∷ []) = panic "index out of bounds"
  verify_from root (l ∷ r ∷ []) = do
    t ← safe_get_msg root "Root"
    (if same (combine l r) t
        then ok tt
        else err (error_info "Last intermediate hash merge does not match root"))
  verify_from root (l ∷ r ∷ m ∷ []) = panic "index out of bounds"
  verify_from root (l ∷ r ∷ m ∷ n ∷ xs) =
      if same m (combine l r) || same n (combine l r)
      then verify_from root (m ∷ n ∷ xs)
      else err (error_info "Intermediate hash mismatch on parent")

  unfoldable pub verify : MerkleProof → Result (Unit {0})
  verify p = elim p.nodes [
    | [] ↦ ok tt
    | l ∷ [] ↦ panic "index out of bounds"
    | l ∷ r ∷ xs ↦ safe_get_msg p.leaf "leaf missing" >>= λ leaf.
        if same leaf l || same leaf r
        then verify_from p.root (l ∷ r ∷ xs)
        else err (error_info "Leaf not found at proof start")
  ]
