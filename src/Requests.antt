-- ===== src/Requests.antt =====
-- schema/src/lib.rs, schema/src/response.rs and keys/src/request_support.rs: the requests and responses that
-- nodes send each other, and their signatures. What the code only hands on is `Message`. The protobuf
-- encodings are parameters; the texts that are added to an error are left out.
pub mod Auth
use redgold.Prelude.{
  ℕ, Bool, true, false, Option, none, some, List, [], ◌∷◌, I64, String, test, is_some, Result, ok,
  err, panic, ErrorInfo, error_info, safe_get_msg, ◌>>=◌, ◌>>◌, ◌||◌, if◌then◌else◌,
}
use redgold.Structs.{
  Bytes, Message, Hash, Address, UtxoId, Proof, PublicKey, PublicKey-discrete, StateSelector,
  Transaction, ContractStateMarker, UtxoEntry,
}
use redgold.Crypto.{Crypto}
use redgold.Proofs.{digest, verify}

pub record MultipartyIdentifier : Type 0 where
  pub party_keys : List PublicKey
  pub threshold : I64
  pub uuid : Bytes

pub record InitiateMultipartyKeygenRequest : Type 0 where
  pub identifier : Option MultipartyIdentifier

pub record InitiateMultipartySigningRequest : Type 0 where
  pub identifier : Option MultipartyIdentifier
  pub signing_room_id : Bytes
  pub signing_party_keys : List PublicKey
  pub data_to_sign : Option Bytes

pub record InitiateMultipartyKeygenResponse : Type 0 where
  pub initial_request : Option InitiateMultipartyKeygenRequest

pub record InitiateMultipartySigningResponse : Type 0 where
  pub proof : Option Proof
  pub initial_request : Option InitiateMultipartySigningRequest

pub record MultipartyAuthenticationRequest : Type 0 where
  pub message : Option Bytes
  pub room_id : Bytes

-- The key, and all other fields.
pub record NodeMetadata : Type 0 where
  pub public_key : Option PublicKey
  pub fields : Message

pub record DownloadRequest : Type 0 where
  pub start_time : I64
  pub end_time : I64
  pub data_type : ℕ
  pub offset : Option I64

-- `time` is unsigned here.
pub record TransactionEntry : Type 0 where
  pub time : ℕ
  pub transaction : Option Transaction

pub record ObservationEntry : Type 0 where
  pub time : I64
  pub observation : Option Transaction

pub record DownloadResponse : Type 0 where
  pub utxo_entries : List UtxoEntry
  pub transactions : List TransactionEntry
  pub observations : List ObservationEntry
  pub observation_edges : List Message
  pub complete_response : Bool

pub record SubmitTransactionRequest : Type 0 where
  pub transaction : Option Transaction
  pub sync_query_response : Bool

pub record GetContractStateMarkerRequest : Type 0 where
  pub address : Option Address
  pub selector : Option StateSelector

pub record RecentDiscoveryTransactionsRequest : Type 0 where
  pub limit : Option I64
  pub min_time : Option I64

pub record UtxoValidResponse : Type 0 where
  pub valid : Option Bool
  pub child_transaction : Option Transaction
  pub child_transaction_input : Option I64

-- The fields that a node reads of an incoming request. `gossip_transaction_request` and
-- `gossip_observation_request` hold an optional transaction each, `query_observation_proof_request` a hash.
pub record Request : Type 0 where
  pub proof : Option Proof
  pub node_metadata : Option NodeMetadata
  pub origin : Option Message
  pub faucet_request : Option Message
  pub get_parties_info_request : Bool
  pub lookup_transaction_request : Option Hash
  pub genesis_request : Bool
  pub recent_transactions_request : Option RecentDiscoveryTransactionsRequest
  pub utxo_valid_request : Option UtxoId
  pub resolve_code_request : Option Address
  pub get_contract_state_marker_request : Option GetContractStateMarkerRequest
  pub hash_search_request : Option Message
  pub query_observation_proof_request : Option (Option Hash)
  pub submit_transaction_request : Option SubmitTransactionRequest
  pub get_peers_info_request : Bool
  pub gossip_transaction_request : Option (Option Transaction)
  pub gossip_observation_request : Option (Option Transaction)
  pub download_request : Option DownloadRequest
  pub about_node_request : Option Message
  pub initiate_keygen : Option InitiateMultipartyKeygenRequest
  pub initiate_signing : Option InitiateMultipartySigningRequest
  pub multiparty_authentication_request : Option MultipartyAuthenticationRequest

-- `error_info` is what the sender reads; the other details of the answer are left out.
pub record ResponseMetadata : Type 0 where
  pub success : Bool
  pub error_info : Option ErrorInfo

pub record Response : Type 0 where
  pub response_metadata : Option ResponseMetadata
  pub node_metadata : Option NodeMetadata
  pub proof : Option Proof
  pub faucet_response : Option Message
  pub get_parties_info_response : Option (List Message)
  pub lookup_transaction_response : Option Transaction
  pub genesis_response : Option Transaction
  pub recent_discovery_transactions_response : Option (List Hash)
  pub utxo_valid_response : Option UtxoValidResponse
  pub resolve_code_response : Option Message
  pub get_contract_state_marker_response : Option ContractStateMarker
  pub hash_search_response : Option Message
  pub query_observation_proof_response : Option (List Message)
  pub submit_transaction_response : Option Message
  pub get_peers_info_response : Option Message
  pub download_response : Option DownloadResponse
  pub about_node_response : Option Message
  pub initiate_keygen_response : Option InitiateMultipartyKeygenResponse
  pub initiate_signing_response : Option InitiateMultipartySigningResponse

-- `Request::empty()`.
abbrev pub empty_request : Request
empty_request = record {
  proof = none;
  node_metadata = none;
  origin = none;
  faucet_request = none;
  get_parties_info_request = false;
  lookup_transaction_request = none;
  genesis_request = false;
  recent_transactions_request = none;
  utxo_valid_request = none;
  resolve_code_request = none;
  get_contract_state_marker_request = none;
  hash_search_request = none;
  query_observation_proof_request = none;
  submit_transaction_request = none;
  get_peers_info_request = false;
  gossip_transaction_request = none;
  gossip_observation_request = none;
  download_request = none;
  about_node_request = none;
  initiate_keygen = none;
  initiate_signing = none;
  multiparty_authentication_request = none;
}

abbrev pub empty_success : Response
empty_success = record {
  response_metadata = some (record { success = true; error_info = none });
  node_metadata = none;
  proof = none;
  faucet_response = none;
  get_parties_info_response = none;
  lookup_transaction_response = none;
  genesis_response = none;
  recent_discovery_transactions_response = none;
  utxo_valid_response = none;
  resolve_code_response = none;
  get_contract_state_marker_response = none;
  hash_search_response = none;
  query_observation_proof_response = none;
  submit_transaction_response = none;
  get_peers_info_response = none;
  download_response = none;
  about_node_response = none;
  initiate_keygen_response = none;
  initiate_signing_response = none;
}

unfoldable pub from_error_info : ErrorInfo → Response
from_error_info e = record empty_success {
  response_metadata = some (record { success = false; error_info = some e });
}

unfoldable pub as_error_info : Response → Result (Unit {0})
as_error_info r = do
  res ← safe_get_msg r.response_metadata "unspecified optional value"
  elim res.error_info [ some e ↦ err e | none ↦ ok tt ]

unfoldable pub auth_required : Request → Bool
auth_required r = is_some r.initiate_keygen || is_some r.initiate_signing

-- The protobuf encodings.
pub record Wire : Type 0 where
  pub request : Request → Bytes
  pub response : Response → Bytes

abbrev pub same_key : PublicKey → PublicKey → String → Result (Unit {0})
same_key k j m = if test (PublicKey-discrete k j) then ok tt else err (error_info m)

abbrev pub check_intended : Option PublicKey → PublicKey → Result (Unit {0})
check_intended none pk = ok tt
check_intended (some k) pk =
    same_key pk k
      "Intended public key and proof public key mismatch on response authentication verification"

module _ (c : Crypto) (w : Wire) where
  -- `calculate_hash` behind `hash_clear`.
  unfoldable pub request_hash : Request → Hash
  request_hash r = digest c (w.request (record r { proof = none; origin = none }))

  -- The key pair is its `Proof::from_keypair_hash`; `expect` panics if the proof does not verify.
  unfoldable pub with_auth : (Hash → Proof) → Request → Result Request
  with_auth prove r = elim (verify c (prove (request_hash r)) (request_hash r)) [
    | ok done ↦ ok (record r { proof = some (prove (request_hash r)) })
    | err e ↦ panic "immediate verify"
    | panic m ↦ panic m
  ]

  unfoldable pub verify_auth : Request → Result PublicKey
  verify_auth r = do
    proof ← safe_get_msg r.proof "Missing proof on request authentication verification"
    nmd ←
        safe_get_msg r.node_metadata "Missing node metadata on request authentication verification"
    nmd_pk ←
        safe_get_msg nmd.public_key
          "Missing public key on node metadata request authentication verification"
    pk ← safe_get_msg proof.public_key "Missing public key on request authentication verification"
    verify c proof (request_hash r)
    same_key nmd_pk pk
        "Node metadata public key and proof public key mismatch on request authentication verification"
    ok pk

  unfoldable pub response_hash : Response → Hash
  response_hash r = digest c (w.response (record r { proof = none }))

  unfoldable pub response_with_auth : (Hash → Proof) → Response → Response
  response_with_auth prove r = record r { proof = some (prove (response_hash r)) }

  unfoldable pub response_verify_auth : Option PublicKey → Response → Result Response
  response_verify_auth intended r = do
    nmd ←
        safe_get_msg r.node_metadata "Missing node metadata on response authentication verification"
    nmd_pk ←
        safe_get_msg nmd.public_key
          "Missing public key on node metadata response authentication verification"
    proof ← safe_get_msg r.proof "Missing proof on response authentication verification"
    pk ←
        safe_get_msg proof.public_key
          "Missing public key on proof on response authentication verification"
    verify c proof (response_hash r)
    same_key nmd_pk pk
        "Node metadata public key and proof public key mismatch on response authentication verification"
    check_intended intended pk
    ok r
