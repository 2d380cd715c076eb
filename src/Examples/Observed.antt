-- ===== src/Examples/Observed.antt =====
-- Two items that alice's node observes at one tick.
use redgold.Prelude.{
  ℕ, ℕ_discrete, suc, ◌≡◌, refl, true, none, some, List, [], ◌∷◌, All, map, ok, err, panic, length,
  subst, ok-injective, arith,
}
use redgold.Structs.{Hash-discrete, UtxoId, UtxoId-discrete, Address-discrete, Transaction}
use redgold.Output.{empty_output, empty_data}
use redgold.Proofs.{new_hash, Bytes-discrete, digest, merkle_combine}
use redgold.Transaction.{
  hash_or, to_input, time_of, input_of, observation_output_index, observation_index_from,
}
use redgold.Hashing.{calculate_hash, signable_hash, sign, sign_inputs, sign_input, with_hash}
use redgold.Builder.{default_options, default_txn_data, new, with_network, with_options_height}
use redgold.Merkle.{
  MerkleTree, build_root, rounds, round, pad, new_tree, proof, proof_nodes, child_to_parent,
}
use redgold.Observations.{
  ObservationMetadata, ObservationProof, Observation, Encoding, leafs_hash, metadata_hash,
  observation_proof_of, build_observation_proofs, observation, observation_proof,
  observation_as_utxo_id, observation_output, observation_output_as,
}
use redgold.Merkle.Complete.{Rises}
use redgold.Observations.Proven.{Proven, NoCycle, build_observation_proofs-Proven}
use redgold.Observations.Buffer.{
  Keeper, ObservationBuffer, form_observation, form_from, draft, ancestor_root, observation_tx,
  with_observation, with_input, publish, proofs_of,
}
use redgold.Observations.Buffer
use redgold.Observations.Chain.{Linked, form_observation-Linked}
use redgold.Examples.Funds.{toy, alice, alice_proof, metadata}
use redgold.Examples.Trees.{height}

abbrev item : ℕ → ObservationMetadata
item n = record {
  observed_hash = some (new_hash (n ∷ []));
  hash = some (new_hash (0 ∷ n ∷ []));
  time = some 5;
  validation_liveness = 0;
  state = 1;
}

abbrev parent : UtxoId
parent = record { transaction_hash = some (new_hash (9 ∷ [])); output_index = 0 }

-- The encoding forgets all but the parent.
abbrev seen : Observation
seen = record {
  merkle_root = none;
  observations = item 7 ∷ item 8 ∷ [];
  parent_id = some parent;
  ancestor_merkle_roots = [];
}

abbrev code : Encoding
code = record {
  encode = λ o. length o.observations ∷ [];
  decode = λ m. some seen;
  serialize_metadata = λ m. [];
}

abbrev keeper : Keeper ℕ
keeper = record {
  encoding = code;
  network = 0;
  address = alice;
  prove = λ h. alice_proof;
  insert_observation_and_edges = λ s tx. ok (suc s);
  query_observation = λ s h. ok true;
  gossip_req = λ tx. ok tt;
  is_open = λ n. true;
}

abbrev latest : Transaction
latest = record {
  inputs = [];
  outputs =
      record empty_output {
        address = some alice;
        data_field = some (record empty_data { observation = some (0 ∷ []) });
      }
      ∷ [];
  struct_metadata = some (record metadata { hash = some (new_hash (9 ∷ [])) });
  options = some (record default_options {
    txn_data =
        some (record default_txn_data {
          standard_data = some (record empty_data { height = some 4 });
        });
  });
}

abbrev buffer : ObservationBuffer ℕ
buffer = record {
  store = 0;
  buffered = item 7 ∷ item 8 ∷ [];
  latest = latest;
  ancestors = [];
  subscribers = [];
  responses = [];
}

abbrev formed : ObservationBuffer ℕ
formed = (form_observation toy keeper 3 metadata buffer).0

abbrev proofs : List ObservationProof
proofs = elim (form_observation toy keeper 3 metadata buffer).1 [
  | ok ps ↦ ps
  | err e ↦ []
  | panic m ↦ []
]

items-NoCycle : NoCycle toy code height (item 7 ∷ item 8 ∷ [])
unfolding build_root rounds round pad new_tree merkle_combine leafs_hash metadata_hash
items-NoCycle t e =
    subst (λ (t : MerkleTree). Rises height t.entries) (ok-injective e)
      ((omega arith, omega arith), tt)

build_observation_proofs-Proven_example :
    (t : MerkleTree) × (build_root (merkle_combine toy) (leafs_hash toy code (item 7 ∷ item 8 ∷ []))
      ≡ ok t)
    × (build_observation_proofs toy code seen (new_hash (2 ∷ [])) alice_proof
        ≡ ok (
            map
              (observation_proof_of toy code t (new_hash (2 ∷ [])) alice_proof)
              (item 7 ∷ item 8 ∷ [])))
    × All (Proven toy code t) (item 7 ∷ item 8 ∷ [])
build_observation_proofs-Proven_example =
    build_observation_proofs-Proven toy code height seen (new_hash (2 ∷ [])) alice_proof (λ e. cc)
      items-NoCycle

form_observation-Linked_example : Linked toy keeper 3 metadata buffer formed
unfolding form_observation form_from draft publish proofs_of observation_tx with_observation
    with_input new with_network with_options_height sign sign_inputs sign_input with_hash
    calculate_hash digest signable_hash hash_or observation_as_utxo_id observation_output_index
    observation_index_from observation_output_as observation_output observation_proof observation
    build_observation_proofs leafs_hash metadata_hash build_root merkle_combine rounds round pad
    new_tree proof proof_nodes child_to_parent Address-discrete Bytes-discrete ℕ_discrete
    UtxoId-discrete Hash-discrete input_of Buffer.height ancestor_root to_input time_of
form_observation-Linked_example =
    form_observation-Linked toy keeper 3 metadata buffer formed proofs (λ e. cc) refl
