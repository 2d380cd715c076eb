-- ===== src/Observations.antt =====
-- schema/src/observation.rs and the observations of schema/src/transaction.rs: what a node has observed,
-- with its proofs. The encodings of protobuf are a parameter.
pub mod Proven
pub mod Buffer
pub mod Signed
pub mod Chain
use redgold.Prelude.{
  ℕ, Option, none, some, List, [], ◌∷◌, I64, map, head?, bind?, or_else, find, get_elem?, Result,
  ok, err, panic, error_info, safe_get_msg, ◌>>=◌, filter_map,
}
use redgold.Structs.{
  Bytes, Message, Hash, UtxoId, Output, Input, Proof, PublicKey, Transaction, UtxoEntry,
  StandardData,
}
use redgold.Crypto.{Crypto}
use redgold.Proofs.{digest, merkle_combine}
use redgold.Merkle.{MerkleProof, MerkleTree, build_root, proof}
use redgold.Hashing.{calculate_hash}
use redgold.Transaction.{
  hash_or, time_of, input_of, observation_output_index, from_output_new, new_utxo_id,
}

-- `hash` is that of the struct metadata, `time` as well.
pub record ObservationMetadata : Type 0 where
  pub observed_hash : Option Hash
  pub hash : Option Hash
  pub time : Option I64
  pub validation_liveness : ℕ
  pub state : ℕ

pub record ObservationProof : Type 0 where
  pub metadata : Option ObservationMetadata
  pub merkle_proof : Option MerkleProof
  pub proof : Option Proof
  pub observation_hash : Option Hash

pub record Observation : Type 0 where
  pub merkle_root : Option Bytes
  pub observations : List ObservationMetadata
  pub parent_id : Option UtxoId
  pub ancestor_merkle_roots : List Bytes

pub record Encoding : Type 0 where
  pub encode : Observation → Message
  pub decode : Message → Option Observation
  pub serialize_metadata : ObservationMetadata → Bytes

module _ (c : Crypto) (code : Encoding) where
  unfoldable pub metadata_hash : ObservationMetadata → Hash
  metadata_hash m = or_else m.hash (digest c (code.serialize_metadata (record m { hash = none })))

  abbrev pub leaf : ObservationMetadata → Bytes
  leaf m = or_else (metadata_hash m).bytes []

  unfoldable pub leafs_hash : List ObservationMetadata → List Bytes
  leafs_hash = map leaf

  abbrev pub observation_proof_of :
      MerkleTree → Hash → Proof → ObservationMetadata → ObservationProof
  observation_proof_of t h p m = record {
    metadata = some m;
    merkle_proof = proof t (leaf m);
    proof = some p;
    observation_hash = some h;
  }

  unfoldable pub build_observation_proofs :
      Observation → Hash → Proof → Result (List ObservationProof)
  build_observation_proofs o h p =
      elim (build_root (merkle_combine c) (leafs_hash o.observations)) [
        | ok t ↦ ok (map (observation_proof_of t h p) o.observations)
        | err e ↦ panic "merkle failure"
        | panic m ↦ panic m
      ]

  -- The first output that carries an observation.
  unfoldable pub observation : Transaction → Result Observation
  observation tx =
      safe_get_msg
        (head? (
          filter_map
            (λ (o : Output).
              bind? (bind? o.data_field (λ (d : StandardData). d.observation)) code.decode)
            tx.outputs))
        "Missing observation"

  unfoldable pub observation_as_utxo_id : Transaction → Result UtxoId
  observation_as_utxo_id tx = do
    i ← observation_output_index tx
    ok (new_utxo_id (hash_or (calculate_hash c) tx) i)

  unfoldable pub observation_output : Transaction → Result Output
  observation_output tx = do
    i ← observation_output_index tx
    safe_get_msg (get_elem? tx.outputs i) "Missing observation output"

  unfoldable pub observation_output_as : Transaction → Result UtxoEntry
  observation_output_as tx = do
    i ← observation_output_index tx
    o ← observation_output tx
    t ← time_of tx
    ok (from_output_new o (hash_or (calculate_hash c) tx) i t)

  unfoldable pub observation_proof : Transaction → Result Proof
  observation_proof tx = do
    o ← observation tx
    p ← safe_get_msg o.parent_id "Missing parent id"
    i ← safe_get_msg (input_of tx p) "Missing input"
    safe_get_msg (head? i.proof) "Missing input proof"

  unfoldable pub observation_public_key : Transaction → Result PublicKey
  observation_public_key tx = do
    p ← observation_proof tx
    safe_get_msg p.public_key "Missing public key"
