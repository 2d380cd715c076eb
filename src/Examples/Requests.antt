-- ===== src/Examples/Requests.antt =====
-- Requests for the payment of Funds on a node with a silent network.
use redgold.Prelude.{
  ◌≡◌, refl, inl, true, none, some, [], ◌∷◌, ok, err, error_message, slt, ℕ_discrete,
  transaction_already_processing,
}
use redgold.Structs.{Hash-discrete, UtxoId-discrete}
use redgold.Proofs.{
  Bytes-discrete, verify, verify_each, signed_bytes, signature_bytes, public_key_bytes, digest,
}
use redgold.Assoc.{get}
use redgold.Hashing.{signable_hash, calculate_hash}
use redgold.Transaction.{hash_or, validate_network, peer_data, node_metadata}
use redgold.Validate.{
  prevalidate, check_index, check_proof, check_message, check_input, check_inputs, check_duplicates,
  contains,
}
use redgold.Process.{RequestProcessor}
use redgold.Process.Handler.{
  Services, Request, Node, received, finished, go, expire, immediate_validation, is_peer_message,
  hash_of_transaction, receive,
}
use redgold.Process.System.{run}
use redgold.Process.Persist.{Held, run-Held}
use redgold.Process.Duplicate.{processor_of, receive_duplicate}
use redgold.Examples.Funds.{toy, checked}
use redgold.Examples.Locking.{request, coin, held}

-- A store that knows no transaction, and peers that answer nothing.
abbrev pub silent : Services (Unit {0})
silent = record {
  query_maybe_transaction = λ s h. none;
  query_utxo_id_valid = λ s h i. true;
  select_observation_edge = λ s h. [];
  insert_transaction = λ s tx. ok tt;
  delete_utxo = λ s u. ok tt;
  insert_state = λ s m. ok tt;
  broadcast = λ h i. [];
  observe_pending = λ h full. ok (1 ∷ []);
  observe_accepted = λ h full. ok (2 ∷ []);
  gossip = λ tx. ok tt;
  query_observation_proofs = λ h. [];
  invoke_wasm = λ b tx. ok none;
  send_contract_ordering_message = λ tx o. err (error_message transaction_already_processing "");
  count_unique_by_state = λ ps. ok tt;
  network = 0;
}

abbrev fresh : Request
fresh = record {
  request_id = 7;
  transaction = checked;
  current_time = 0;
  request_processor = none;
  utxo_ids = none;
  read = 0;
  proofs = [];
  stage = received;
}

abbrev processor : RequestProcessor
processor = record {
  request_id = 1;
  transaction_hash = hash_of_transaction toy silent checked;
  transaction = checked;
}

abbrev busy : Node (Unit {0})
busy = record {
  relay = record (held.relay) {
    transaction_channels = (hash_of_transaction toy silent checked, processor) ∷ [];
  };
  store = tt;
}

run-Held_example :
    Held
      (run toy silent ((go, 0) ∷ (go, 0) ∷ (expire, 0) ∷ []) busy (fresh ∷ [])).0.relay
      (coin 0)
      (request 1)
unfolding get UtxoId-discrete Hash-discrete ℕ_discrete
run-Held_example =
    run-Held toy silent ((go, 0) ∷ (go, 0) ∷ (expire, 0) ∷ []) busy (fresh ∷ []) (refl, tt) (coin 0)
      (request 1) (inl refl)

receive_duplicate_example :
    ((receive toy silent busy fresh).1.stage
      ≡ finished (
          some (
            err (
              error_message transaction_already_processing
                "Duplicate TX hash found in processing queue"))))
    × (processor_of (receive toy silent busy fresh).0.relay (hash_of_transaction toy silent checked)
        ≡ none)
unfolding immediate_validation prevalidate check_duplicates contains check_message check_inputs
    check_input check_index check_proof verify_each verify signed_bytes signature_bytes
    public_key_bytes signable_hash calculate_hash digest slt is_peer_message peer_data node_metadata
    validate_network get Hash-discrete hash_or Bytes-discrete ℕ_discrete
receive_duplicate_example = receive_duplicate toy silent busy fresh processor refl refl refl refl
