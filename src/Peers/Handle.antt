-- ===== src/Peers/Handle.antt =====
-- src/core/peer_rx_event_handler.rs: the response to a request, and the whole way of a message. The requests
-- that start rounds of key generation and signing come last, and only for a verified key.
use redgold.Prelude.{
  String, Bool, false, Option, none, some, List, [], ◌∷◌, bind?, Result, ok, err, panic,
  safe_get_msg, ◌>>=◌, after, attempt, if◌then◌else◌,
}
use redgold.Structs.{Hash, Proof, PublicKey, Transaction, ContractStateMarker}
use redgold.Crypto.{Crypto}
use redgold.Relay.{lookup_transaction}
use redgold.Requests.{
  Request, Response, NodeMetadata, Wire, InitiateMultipartyKeygenRequest,
  InitiateMultipartySigningRequest, auth_required, verify_auth, empty_success, from_error_info,
  response_with_auth, response_verify_auth,
}
use redgold.Multiparty.Rounds
use redgold.Multiparty.Signing.{initiate_mp_keygen_follower, initiate_mp_keysign_follower}
use redgold.Peers.{
  Services, Stage, run_stages, on_some, on_true, query_stage, recent_hashes, utxo_valid,
  contract_state_marker,
}

module _ {S : Type 0} (env : Services S) where
  abbrev put_marker : Option ContractStateMarker → Response → Response
  put_marker none r = r
  put_marker (some m) r = record r { get_contract_state_marker_response = some m }

  abbrev gossiped : Option Transaction → Stage S
  gossiped none s r = (s, ok r)
  gossiped (some t) s r =
      after
        (env.submit_transaction (record { transaction = some t; sync_query_response = false }) s)
        λ u done. (u, ok r)

  -- `o.observation.unwrap()`; a channel that is gone panics.
  abbrev observed : Option Transaction → Stage S
  observed none s r = (s, panic "unwrap")
  observed (some o) s r = elim (env.send_observation o s) [
    | ok t ↦ (t, ok r)
    | err e ↦ (s, panic "gossip send failure")
    | panic m ↦ (s, panic m)
  ]

  -- The requests for everyone, in order.
  unfoldable pub public_stages : Request → List (Stage S)
  public_stages q =
      on_some q.faucet_request (λ fr s r.
        after (env.faucet_request fr q.origin s)
          λ t a. (t, ok (record r { faucet_response = some a })))
      ∷ on_true q.get_parties_info_request
          (query_stage env.parties_info λ a r. record r { get_parties_info_response = some a })
      ∷ on_some q.lookup_transaction_request (λ h.
        query_stage
          (λ s.
            lookup_transaction (env.query_maybe_transaction s) (env.mempool_entries s) (env.relay s)
              h)
          λ a r. record r { lookup_transaction_response = a })
      ∷ on_true q.genesis_request
          (query_stage env.get_genesis λ a r. record r { genesis_response = a })
      ∷ on_some q.recent_transactions_request (λ x.
        query_stage (recent_hashes env x)
          λ a r. record r { recent_discovery_transactions_response = some a })
      ∷ on_some q.utxo_valid_request
          (λ u. query_stage (utxo_valid env u) λ a r. record r { utxo_valid_response = some a })
      ∷ on_some q.resolve_code_request (λ addr.
        query_stage (λ s. env.resolve_code s addr)
          λ a r. record r { resolve_code_response = some a })
      ∷ on_some q.get_contract_state_marker_request
          (λ x. query_stage (contract_state_marker env x) put_marker)
      ∷ on_some q.hash_search_request (λ x.
        query_stage (λ s. env.hash_query s x) λ a r. record r { hash_search_response = some a })
      ∷ on_some q.query_observation_proof_request (λ x.
        query_stage
          (λ s. safe_get_msg x "unspecified optional value" >>= env.select_observation_edge s)
          λ a r. record r { query_observation_proof_response = some a })
      ∷ on_some q.submit_transaction_request (λ x s r.
        after (env.submit_transaction x s)
          λ t a. (t, ok (record r { submit_transaction_response = some a })))
      ∷ on_true q.get_peers_info_request
          (query_stage env.peers_info λ a r. record r { get_peers_info_response = some a })
      ∷ on_some q.gossip_transaction_request gossiped
      ∷ on_some q.gossip_observation_request observed
      ∷ on_some q.download_request (λ x.
        query_stage (λ s. env.process_download_request s x)
          λ a r. record r { download_response = some a })
      ∷ on_some q.about_node_request (λ x.
        query_stage (λ s. env.handle_about_node s x)
          λ a r. record r { about_node_response = some a })
      ∷ []

  module _ (mp : Rounds.Services S) where
    abbrev pub keygen_stage : InitiateMultipartyKeygenRequest → Stage S
    keygen_stage x s r =
        after (initiate_mp_keygen_follower mp x s)
          λ t a. (t, ok (record r { initiate_keygen_response = some a }))

    abbrev pub signing_stage : PublicKey → InitiateMultipartySigningRequest → Stage S
    signing_stage pk x s r =
        after (initiate_mp_keysign_follower mp x pk s)
          λ t a. (t, ok (record r { initiate_signing_response = some a }))

    -- Verified requests.
    unfoldable pub verified_stages : Request → PublicKey → List (Stage S)
    verified_stages q pk =
        on_some q.initiate_keygen keygen_stage ∷ on_some q.initiate_signing (signing_stage pk) ∷ []

    abbrev pub auth_stage : Request → Result PublicKey → Stage S
    auth_stage q (ok pk) = run_stages (verified_stages q pk)
    auth_stage q (err e) = λ s r. (s, err e)
    auth_stage q (panic m) = λ s r. (s, panic m)

    unfoldable pub request_response : Request → Result PublicKey → S → S × Result Response
    request_response q verified s =
        after (run_stages (public_stages q) s empty_success)
          (on_true (auth_required q) (auth_stage q verified))

-- What else the way of a message needs.
pub record Peer (S : Type 0) : Type 0 where
  pub self_key : PublicKey
  pub prove : Hash → Proof
  pub node_metadata : S → Result NodeMetadata
  pub query_public_key_node : S → PublicKey → Result (Option Transaction)
  pub update_last_seen : PublicKey → S → S
  -- The discovery channel.
  pub discover : NodeMetadata → S → S
  -- The response channel of the message.
  pub respond : Response → S → S

-- `map_err(from_error_info).combine()`: a panic goes on.
abbrev pub or_error : Result Response → Result Response
or_error (ok r) = ok r
or_error (err e) = ok (from_error_info e)
or_error (panic m) = panic m

-- `expect` on a result.
abbrev pub expect_ok : {A : Type 0} → Result A → String → Result A
expect_ok (ok a) m = ok a
expect_ok (err e) m = panic m
expect_ok (panic why) m = panic why

module _ (c : Crypto) (w : Wire) {S : Type 0} (env : Services S) (mp : Rounds.Services S)
    (p : Peer S) where
  -- A peer that is known was seen; one that is not is looked up if it says where it is.
  unfoldable pub note_peer : Request → S → S × Result (Unit {0})
  note_peer q s = elim (bind? q.proof λ (x : Proof). x.public_key) [
    | none ↦ (s, ok tt)
    | some pk ↦ attempt s (p.query_public_key_node s pk) λ node. elim node [
      | some tx ↦ (p.update_last_seen pk s, ok tt)
      | none ↦ elim q.node_metadata [ some nmd ↦ (p.discover nmd s, ok tt) | none ↦ (s, ok tt) ]
    ]
  ]

  -- The response as it is sent: with the node's metadata and its signature, which is checked.
  unfoldable pub signed_response : S → Response → Result Response
  signed_response s r = do
    nmd ← p.node_metadata s
    expect_ok
        (response_verify_auth c w (some p.self_key)
          (response_with_auth c w p.prove (record r { node_metadata = some nmd })))
        "immediate verify"

  abbrev answer_or_error : S × Result Response → S × Result Response
  answer_or_error (s, r) = attempt s (or_error r) λ a. (s, signed_response s a)

  -- `has_channel`: whether the message brings a response channel.
  unfoldable pub handle_incoming_message : Bool → Request → S → S × Result Response
  handle_incoming_message has_channel q s = after (note_peer q s) λ t noted.
      after (answer_or_error (request_response env mp q (verify_auth c w q) t))
        λ u r. (if has_channel then p.respond r u else u, ok r)
