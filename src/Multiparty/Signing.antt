-- ===== src/Multiparty/Signing.antt =====
-- src/multiparty/initiate_mp.rs: a round of signing, as its starter and as a follower, and the follower of a
-- round of key generation.
use redgold.Prelude.{
  ◌%◌, ◌^◌, false, Option, some, List, [], ◌∷◌, slt, length, or_else, head?, Result, ok, err, panic,
  error_info, safe_get_msg, ◌>>=◌, after, attempt, if◌then◌else◌,
}
use redgold.Structs.{Bytes, PublicKey}
use redgold.Requests.{
  MultipartyIdentifier, InitiateMultipartyKeygenRequest, InitiateMultipartySigningRequest,
  InitiateMultipartyKeygenResponse, InitiateMultipartySigningResponse, empty_request,
}
use redgold.Multiparty.{Authorizations, authorize_signing, remove_signing_authorization, index_from}
use redgold.Multiparty.Rounds.{
  Services, Node, SelfInitiateKeysignResult, default_room_id_signing, contains_key, signing_indexes,
  successes, found_or, others, finally, find_multiparty_key_pairs,
}

abbrev pub signing_request :
    MultipartyIdentifier → Bytes → Bytes → List PublicKey → InitiateMultipartySigningRequest
signing_request d data_to_sign room parties = record {
  identifier = some d;
  data_to_sign = some data_to_sign;
  signing_room_id = room;
  signing_party_keys = parties;
}

module _ {S : Type 0} (env : Services S) where
  unfoldable pub initiate_mp_keysign_authed :
      InitiateMultipartySigningRequest → S → S × Result SelfInitiateKeysignResult
  initiate_mp_keysign_authed mp_req s =
      attempt s (safe_get_msg mp_req.identifier "Missing identifier") λ d.
        attempt s (safe_get_msg mp_req.data_to_sign "Missing data") λ bytes.
          attempt s (env.local_share_and_initiate s d.uuid) λ found.
            attempt s (found_or found "Local share not found") λ share.
              after
                (env.broadcast_async (others env mp_req.signing_party_keys)
                  (record empty_request { initiate_signing = some mp_req }) s)
                λ t results.
                  if slt (successes results) d.threshold
                  then (t, err (error_info "Not enough successful peers"))
                  else after
                      (env.signing mp_req.signing_room_id share.0
                        (signing_indexes 0 mp_req.signing_party_keys d.party_keys) bytes t)
                      λ u proof.
                        attempt u
                          (env.add_signing_proof d.uuid mp_req.signing_room_id proof mp_req u)
                          λ v. (
                            v,
                            ok (record {
                              ident = d;
                              signing_room_id = mp_req.signing_room_id;
                              parties = mp_req.signing_party_keys;
                              proof = proof;
                            }),
                          )

  abbrev pub signing_round :
      InitiateMultipartySigningRequest
      → Authorizations
      → S
      → Node S × Result SelfInitiateKeysignResult
  signing_round mp_req a s =
      finally (remove_signing_authorization mp_req.signing_room_id) (authorize_signing mp_req a)
        (initiate_mp_keysign_authed mp_req s)

  -- The parties, if none are given.
  abbrev pub signing_parties : List PublicKey → S → S × Result (List PublicKey)
  signing_parties [] s = find_multiparty_key_pairs env s
  signing_parties (k ∷ ks) s = (s, ok (k ∷ ks))

  abbrev pub signing_with :
      MultipartyIdentifier
      → Bytes
      → Bytes
      → Authorizations
      → S × Result (List PublicKey)
      → Node S × Result SelfInitiateKeysignResult
  signing_with d bytes room a (s, ok parties) =
      signing_round (signing_request d bytes room parties) a s
  signing_with d bytes room a (s, err e) = (record { authorizations = a; store = s }, err e)
  signing_with d bytes room a (s, panic m) = (record { authorizations = a; store = s }, panic m)

  unfoldable pub initiate_mp_keysign :
      Bytes
      → MultipartyIdentifier
      → Bytes
      → List PublicKey
      → Option Bytes
      → Node S
      → Node S × Result SelfInitiateKeysignResult
  initiate_mp_keysign uuid d data_to_sign parties signing_room_id n =
      signing_with d data_to_sign (or_else signing_room_id (default_room_id_signing d.uuid uuid))
        n.authorizations (signing_parties parties n.store)

  -- The address of the host, whose key comes first.
  abbrev pub host_address : S → List PublicKey → Result Bytes
  host_address s keys = do
    host_key ← safe_get_msg (head? keys) "No host key"
    found ← env.query_public_key_metadata s host_key
    metadata ← safe_get_msg found "No host key metadata"
    env.external_address metadata

  unfoldable pub initiate_mp_keygen_follower :
      InitiateMultipartyKeygenRequest → S → S × Result InitiateMultipartyKeygenResponse
  initiate_mp_keygen_follower mp_req s =
      attempt s (safe_get_msg mp_req.identifier "unspecified optional value") λ d.
        attempt s (found_or (index_from 0 env.self_key d.party_keys) "Not a participant") λ index.
          attempt s (host_address s d.party_keys) λ address.
            after
              (env.keygen d.uuid (index % 2 ^ 16) (d.threshold % 2 ^ 16)
                (length d.party_keys % 2 ^ 16) s)
              λ t res. attempt t (env.add_keygen res d.uuid mp_req false t) λ u.
                attempt u (env.local_share_and_initiate u d.uuid) λ q.
                  attempt u (safe_get_msg q "Unable to query local store for room_id on keygen")
                    λ found. (u, ok (record { initial_request = some mp_req }))

  abbrev pub check_initiator : InitiateMultipartyKeygenRequest → PublicKey → Result (Unit {0})
  check_initiator init initiating_pk = do
    d ← safe_get_msg init.identifier "No identifier on stored initiate keygen"
    (if contains_key d.party_keys initiating_pk
        then ok tt
        else err (error_info "Initiating public key not found in stored initiate keygen"))

  -- What a follower finds and checks before it signs: the identifier, its local share, and the data.
  abbrev pub signing_share :
      InitiateMultipartySigningRequest
      → PublicKey
      → S
      → Result (MultipartyIdentifier × Bytes × Bytes)
  signing_share mp_req initiating_pk s = do
    d ← safe_get_msg mp_req.identifier "Missing room id for keygen on signing follower"
    address ← host_address s mp_req.signing_party_keys
    found ← env.local_share_and_initiate s d.uuid
    share ← found_or found "Local share not found"
    checked ← check_initiator share.1 initiating_pk
    bytes ← safe_get_msg mp_req.data_to_sign "unspecified optional value"
    ok (d, share.0, bytes)

  unfoldable pub initiate_mp_keysign_follower :
      InitiateMultipartySigningRequest
      → PublicKey
      → S
      → S × Result InitiateMultipartySigningResponse
  initiate_mp_keysign_follower mp_req initiating_pk s =
      attempt s (signing_share mp_req initiating_pk s) λ (d, share, bytes).
        after
          (env.signing mp_req.signing_room_id share
            (signing_indexes 0 mp_req.signing_party_keys d.party_keys) bytes s)
          λ t res.
            attempt t (env.add_signing_proof d.uuid mp_req.signing_room_id res mp_req t)
              λ u. (u, ok (record { proof = some res; initial_request = some mp_req }))
