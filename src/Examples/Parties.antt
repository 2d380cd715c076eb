-- ===== src/Examples/Parties.antt =====
-- Two nodes that share a key sign with it.
use redgold.Prelude.{
  ℕ, ◌+◌, ◌≤◌, ◌<◌, ◌≡◌, ◌⊎◌, refl, sym, ok, err, none, some, List, [], ◌∷◌, map, arith, panic≢ok,
  error_info, true, slt, ℕ_discrete,
}
use redgold.Structs.{Bytes, Hash, Proof, PublicKey, PublicKey-discrete}
use redgold.Proofs.{Bytes-discrete, verify, signed_bytes, signature_bytes, public_key_bytes, digest}
use redgold.Assoc.{get, put, remove}
use redgold.Requests.{
  MultipartyIdentifier, InitiateMultipartySigningRequest, NodeMetadata, Request, Wire,
  empty_request, empty_success, as_error_info, request_hash, verify_auth, with_auth, auth_required,
}
use redgold.Requests.Auth.{SignedBy, verify_auth-with_auth}
use redgold.Multiparty.{
  Authorizations, authorize_signing, base_room, strip_suffix, online, check_mp_authorized,
  check_keygen_authorized, check_signing_authorized, party_index, index_from,
  remove_signing_authorization,
}
use redgold.Multiparty.Rooms.{verify_message, broadcast, Said, Passes, broadcast-Said}
use redgold.Multiparty.Rounds
use redgold.Multiparty.Rounds.{
  Node, fill_identifier, fill_threshold, signing_indexes, successes, default_room_id_signing,
}
use redgold.Multiparty.Signing.{
  initiate_mp_keysign, initiate_mp_keysign_authed, initiate_mp_keysign_follower, signing_request,
}
use redgold.Multiparty.Revoked.{SigningEnded, OnlyKeygen, initiate_mp_keysign-ends}
use redgold.Multiparty.Quorum.{SignsFor, fill_identifier_bounds}
use redgold.Peers.{Services, run_stages}
use redgold.Peers.Handle.{public_stages, verified_stages, request_response}
use redgold.Peers.Gate.{request_response_signs}
use redgold.Examples.Funds.{toy}

abbrev pub anna : PublicKey
anna = record { bytes = some (1 ∷ []); key_type = 0 }

abbrev pub berta : PublicKey
berta = record { bytes = some (2 ∷ []); key_type = 0 }

abbrev pair : MultipartyIdentifier
pair = record { party_keys = anna ∷ berta ∷ []; threshold = 1; uuid = 7 ∷ [] }

abbrev pub by_berta : Hash → Proof
by_berta h = record {
  signature = some (record { bytes = h.bytes; signature_type = 0 });
  public_key = some berta;
}

abbrev at_berta : NodeMetadata
at_berta = record { public_key = some berta; fields = [] }

abbrev mp : Rounds.Services ℕ
mp = record {
  self_key = anna;
  all_peers = λ s. ok ((at_berta ∷ []) ∷ []);
  ask_about = λ ks s. (s, map (λ k. (k, ok empty_success)) ks);
  broadcast_async = λ ks q s. (s, ok (map (λ k. ok empty_success) ks));
  keygen = λ room i t n s. (s + 1, ok (9 ∷ []));
  signing = λ room share is bytes s. (s + 1, ok (by_berta (digest toy bytes)));
  add_keygen = λ share room q initiator s. ok s;
  local_share_and_initiate = λ s room. ok (some (9 ∷ [], record { identifier = some pair }));
  add_signing_proof = λ room id proof q s. ok s;
  query_public_key_metadata = λ s k. ok (some at_berta);
  external_address = λ n. ok [];
}

abbrev idle : Node ℕ
idle = record {
  authorizations = record { mp_signing_authorizations = []; mp_keygen_authorizations = [] };
  store = 0;
}

initiate_mp_keysign-ends_example :
    SigningEnded
      (7 ∷ 95 ∷ 5 ∷ [])
      idle.authorizations
      (initiate_mp_keysign mp (5 ∷ []) pair (3 ∷ []) (anna ∷ berta ∷ []) none idle).0.authorizations
    × OnlyKeygen
        (7 ∷ 95 ∷ 5 ∷ [])
        idle.authorizations
        (initiate_mp_keysign mp
          (5 ∷ [])
          pair
          (3 ∷ [])
          (anna ∷ berta ∷ [])
          none
          idle).0.authorizations
unfolding initiate_mp_keysign initiate_mp_keysign_authed authorize_signing put remove
    remove_signing_authorization Bytes-discrete PublicKey-discrete ℕ_discrete successes
    as_error_info slt signing_indexes
initiate_mp_keysign-ends_example =
    initiate_mp_keysign-ends mp (5 ∷ []) pair (3 ∷ []) (anna ∷ berta ∷ []) (anna ∷ berta ∷ []) none
      idle 0 refl λ m e. panic≢ok (sym e)

abbrev wire : Wire
wire = record { request = λ q. []; response = λ r. [] }

abbrev unsigned : Request
unsigned = record empty_request {
  node_metadata = some at_berta;
  multiparty_authentication_request = some (record { message = some (4 ∷ []); room_id = [] });
}

abbrev signed : Request
signed = record unsigned { proof = some (by_berta (digest toy [])) }

verify_auth-with_auth_example : verify_auth toy wire signed ≡ ok berta
unfolding with_auth request_hash digest verify signed_bytes signature_bytes public_key_bytes
verify_auth-with_auth_example =
    verify_auth-with_auth toy wire by_berta unsigned signed at_berta berta refl refl refl refl

-- Berta speaks in the room of a round that Anna has authorized.
abbrev authorized : Authorizations
authorized = record {
  mp_signing_authorizations = (8 ∷ [], signing_request pair [] (8 ∷ []) (anna ∷ berta ∷ [])) ∷ [];
  mp_keygen_authorizations = [];
}

-- The rooms are a log of what is published.
abbrev log : Bytes → Bytes → List (Bytes × Bytes) → List (Bytes × Bytes)
log room text s = (room, text) ∷ s

broadcast-Said_example :
    ((i : ℕ) × (text : Bytes) × Said toy wire
        (λ b. ok signed)
        authorized
        (8 ∷ online)
        []
        i
        (some text)
      × (broadcast toy wire (λ b. ok signed) log authorized (8 ∷ online) [] []
          ≡ (8 ∷ online, text) ∷ []))
    ⊎ (((text : Bytes) → ¬ Passes toy wire (λ b. ok signed) authorized (8 ∷ online) [] text)
        × (broadcast toy wire (λ b. ok signed) log authorized (8 ∷ online) [] [] ≡ []))
broadcast-Said_example = broadcast-Said toy wire (λ b. ok signed) log authorized (8 ∷ online) [] []

berta_speaks :
    broadcast toy wire (λ b. ok signed) log authorized (8 ∷ online) [] []
    ≡ (8 ∷ online, 4 ∷ []) ∷ []
unfolding broadcast verify_message verify_auth request_hash digest verify signed_bytes
    signature_bytes public_key_bytes check_mp_authorized check_keygen_authorized
    check_signing_authorized base_room strip_suffix get party_index index_from PublicKey-discrete
    Bytes-discrete ℕ_discrete
berta_speaks = refl

fill_identifier_bounds_example :
    ((fill_identifier [] (anna ∷ berta ∷ []) none).threshold < 2)
    × (2 ≤ 2 → 1 ≤ (fill_identifier [] (anna ∷ berta ∷ []) none).threshold)
fill_identifier_bounds_example =
    fill_identifier_bounds [] (anna ∷ berta ∷ []) (omega arith) (omega arith)

-- Anna answers requests of others; all stores are empty.
abbrev empty_services : Services ℕ
empty_services = record {
  relay = λ s. record { utxo_channels = []; transaction_channels = []; sent = [] };
  mempool_entries = λ s. [];
  hash_or = λ t. digest toy [];
  query_maybe_transaction = λ s h. ok none;
  query_utxo_id_valid = λ s h i. ok true;
  utxo_used = λ s u. ok none;
  recent_transaction_hashes = λ s l m. ok [];
  get_genesis = λ s. ok none;
  parties_info = λ s. ok [];
  resolve_code = λ s a. ok [];
  query_recent_state = λ s a x. ok [];
  hash_query = λ s m. ok [];
  select_observation_edge = λ s h. ok [];
  peers_info = λ s. ok [];
  handle_about_node = λ s m. ok [];
  process_download_request = λ s q. err (error_info "empty");
  faucet_request = λ m o s. (s, ok []);
  submit_transaction = λ q s. (s, ok []);
  send_observation = λ o s. ok s;
}

abbrev to_sign : InitiateMultipartySigningRequest
to_sign = signing_request pair (3 ∷ []) (8 ∷ []) (anna ∷ berta ∷ [])

abbrev signing_message : Request
signing_message = record signed { initiate_signing = some to_sign; get_parties_info_request = true }

request_response_signs_example :
    (pk : PublicKey) × SignedBy toy signing_message.node_metadata signing_message.proof
      (request_hash toy wire signing_message)
      pk
    × ((u : ℕ) × SignsFor mp to_sign pk u)
unfolding request_response public_stages verified_stages run_stages verify_auth request_hash digest
    verify signed_bytes signature_bytes public_key_bytes auth_required initiate_mp_keysign_follower
    PublicKey-discrete ℕ_discrete signing_indexes
request_response_signs_example =
    request_response_signs empty_services mp toy wire signing_message to_sign 0 1
      (record empty_success {
        get_parties_info_response = some [];
        initiate_signing_response = some (record {
          proof = some (by_berta (digest toy (3 ∷ [])));
          initial_request = some to_sign;
        });
      })
      refl refl
