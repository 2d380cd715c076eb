-- ===== src/Multiparty/Rounds.antt =====
-- src/multiparty/initiate_mp.rs: rounds of key generation and signing, as their starter and as a follower. The
-- GG20 tasks with their timeouts, the network, the store and the address of a host are parameters. The
-- starter's own task is spawned before the peers are asked, and stands here where it is joined; an
-- `abort` of it is left out, and so are the pauses. A new identifier (UUID) is an argument.
use redgold.Prelude.{
  ℕ, String, ◌+◌, ◌-◌, ◌/◌, ◌%◌, ◌^◌, Bool, true, false, not, Option, none, some, List, [], ◌∷◌,
  ◌++◌, I64, sub64, slt, length, filter_map, retain, any, test, head?, Result, ok, err, panic,
  error_info, safe_get_msg, expect, ◌>>=◌, after, attempt, is_ok, if◌then◌else◌, ◌==◌,
}
use redgold.Structs.{Bytes, Proof, PublicKey, PublicKey-discrete}
use redgold.Requests.{
  MultipartyIdentifier, InitiateMultipartyKeygenRequest, InitiateMultipartySigningRequest,
  NodeMetadata, Request, Response, empty_request, as_error_info,
}
use redgold.Multiparty.{Authorizations, authorize_keygen, remove_keygen_authorization}

pub record Services (S : Type 0) : Type 0 where
  pub self_key : PublicKey
  -- The node metadata of each peer.
  pub all_peers : S → Result (List (List NodeMetadata))
  -- `Relay::broadcast` of an about request, and `broadcast_async`.
  pub ask_about : List PublicKey → S → S × List (PublicKey × Result Response)
  pub broadcast_async : List PublicKey → Request → S → S × Result (List (Result Response))
  -- Room, index, threshold and number of parties.
  pub keygen : Bytes → ℕ → ℕ → ℕ → S → S × Result Bytes
  -- Room, local share, indices and data.
  pub signing : Bytes → Bytes → List ℕ → Bytes → S → S × Result Proof
  pub add_keygen : Bytes → Bytes → InitiateMultipartyKeygenRequest → Bool → S → Result S
  pub local_share_and_initiate :
      S → Bytes → Result (Option (Bytes × InitiateMultipartyKeygenRequest))
  pub add_signing_proof : Bytes → Bytes → Proof → InitiateMultipartySigningRequest → S → Result S
  pub query_public_key_metadata : S → PublicKey → Result (Option NodeMetadata)
  pub external_address : NodeMetadata → Result Bytes

pub record Node (S : Type 0) : Type 0 where
  pub authorizations : Authorizations
  pub store : S

pub record SelfInitiateKeygenResult : Type 0 where
  pub local_share : Bytes
  pub identifier : MultipartyIdentifier
  pub request : InitiateMultipartyKeygenRequest

pub record SelfInitiateKeysignResult : Type 0 where
  pub ident : MultipartyIdentifier
  pub signing_room_id : Bytes
  pub parties : List PublicKey
  pub proof : Proof

-- `format!("{}_{}", ..)`.
abbrev pub default_room_id_signing : Bytes → Bytes → Bytes
default_room_id_signing keygen_room_id uuid = keygen_room_id ++ 95 ∷ uuid

abbrev pub default_half_identifier : Bytes → List PublicKey → MultipartyIdentifier
default_half_identifier uuid kp = record { uuid = uuid; threshold = length kp / 2; party_keys = kp }

-- `n / 2`, but at least 1, and at most `n - 1`.
unfoldable pub fill_threshold : ℕ → I64
fill_threshold num_parties =
    let half = num_parties / 2 in
    let threshold = if slt half 1 then 1 else half in
    if slt (sub64 num_parties 1) threshold then sub64 num_parties 1 else threshold

unfoldable pub fill_identifier :
    Bytes → List PublicKey → Option MultipartyIdentifier → MultipartyIdentifier
fill_identifier uuid keys (some d) = record {
  uuid = uuid;
  threshold = d.threshold;
  party_keys = if length d.party_keys == 0 then keys else d.party_keys;
}
fill_identifier uuid keys none = record {
  party_keys = keys;
  threshold = fill_threshold (length keys);
  uuid = uuid;
}

abbrev pub contains_key : List PublicKey → PublicKey → Bool
contains_key keys pk = any (λ k. test (PublicKey-discrete k pk)) keys

-- The places, from one, of the party keys that sign, from index `i` on.
unfoldable pub signing_indexes : ℕ → List PublicKey → List PublicKey → List ℕ
signing_indexes i signing [] = []
signing_indexes i signing (pk ∷ pks) =
    let rest = signing_indexes (i + 1) signing pks in
    if contains_key signing pk then (i + 1) % 2 ^ 16 ∷ rest else rest

abbrev pub is_success : Result Response → Bool
is_success r = is_ok (r >>= as_error_info)

-- The number of peers that answered without an error.
unfoldable pub successes : List (Result Response) → ℕ
successes [] = 0
successes (r ∷ rs) = let rest = successes rs in if is_success r then rest + 1 else rest

abbrev pub answering : PublicKey × Result Response → Option PublicKey
answering a = if is_success a.1 then some a.0 else none

abbrev pub peer_key : List NodeMetadata → Result PublicKey
peer_key p = do n ← expect (head? p) "unwrap"; expect n.public_key "unwrap"

unfoldable pub peer_keys : List (List NodeMetadata) → Result (List PublicKey)
peer_keys [] = ok []
peer_keys (p ∷ ps) = do k ← peer_key p; ks ← peer_keys ps; ok (k ∷ ks)

-- `ok_or(error_info(..))`.
abbrev pub found_or : {A : Type 0} → Option A → String → Result A
found_or none m = err (error_info m)
found_or (some a) m = ok a

-- A panic of the round skips what follows it.
abbrev pub finally :
    {S : Type 0} {A : Type 0}
    → (Authorizations → Authorizations)
    → Authorizations
    → S × Result A
    → Node S × Result A
finally release a (s, ok r) = (record { authorizations = release a; store = s }, ok r)
finally release a (s, err e) = (record { authorizations = release a; store = s }, err e)
finally release a (s, panic m) = (record { authorizations = a; store = s }, panic m)

module _ {S : Type 0} (env : Services S) where
  abbrev pub others : List PublicKey → List PublicKey
  others = retain (λ p. not (test (PublicKey-discrete p env.self_key)))

  unfoldable pub find_multiparty_key_pairs : S → S × Result (List PublicKey)
  find_multiparty_key_pairs s = attempt s (env.all_peers s) λ peers.
      attempt s (peer_keys peers) λ pks.
        let (t, answers) = env.ask_about (others pks) s in
        let valid_pks = filter_map answering answers in
        if length valid_pks == 0
        then (t, err (error_info "No valid peers found"))
        else (t, ok (env.self_key ∷ valid_pks))

  unfoldable pub default_identifier : Bytes → S → S × Result MultipartyIdentifier
  default_identifier uuid s =
      after (find_multiparty_key_pairs s)
        λ t kp. (t, ok (record { uuid = uuid; threshold = length kp - 1; party_keys = kp }))

  -- The identifier of a round of key generation.
  abbrev pub chosen_identifier :
      Bytes
      → Option MultipartyIdentifier
      → Option (List PublicKey)
      → S
      → S × Result MultipartyIdentifier
  chosen_identifier uuid (some d) node_ids s = (s, ok d)
  chosen_identifier uuid none (some pks) s = (s, ok (default_half_identifier uuid pks))
  chosen_identifier uuid none none s = default_identifier uuid s

  abbrev store_share :
      Bool → Bytes → Bytes → InitiateMultipartyKeygenRequest → S → S × Result (Unit {0})
  store_share false share room_id req s = (s, ok tt)
  store_share true share room_id req s = attempt s (env.add_keygen share room_id req true s) λ t.
      attempt t (env.local_share_and_initiate t room_id) λ q.
        attempt t (safe_get_msg q "Unable to query local store for room_id on keygen")
          λ found. (t, ok tt)

  unfoldable pub initiate_mp_keygen_authed :
      InitiateMultipartyKeygenRequest → Bool → S → S × Result SelfInitiateKeygenResult
  initiate_mp_keygen_authed base_request store_local_share s =
      attempt s (safe_get_msg base_request.identifier "No identifier") λ d.
        after
          (env.broadcast_async (others d.party_keys)
            (record empty_request { initiate_keygen = some base_request }) s)
          λ t results.
            if slt (successes results) d.threshold
            then (t, err (error_info "Not enough successful peers"))
            else after (env.keygen d.uuid 1 (d.threshold % 2 ^ 16) (length d.party_keys % 2 ^ 16) t)
                λ u local_share.
                  after (store_share store_local_share local_share d.uuid base_request u) λ v done.
                    (
                      v,
                      ok (record {
                        local_share = local_share;
                        identifier = d;
                        request = base_request;
                      }),
                    )

  abbrev pub keygen_round :
      Bool → MultipartyIdentifier → Authorizations → S → Node S × Result SelfInitiateKeygenResult
  keygen_round store_local_share d a s =
      let base_request : InitiateMultipartyKeygenRequest = record { identifier = some d } in
      attempt (record { authorizations = a; store = s }) (authorize_keygen base_request a)
        λ b.
          finally (remove_keygen_authorization d.uuid) b
            (initiate_mp_keygen_authed base_request store_local_share s)

  abbrev pub keygen_with :
      Bool
      → Authorizations
      → S × Result MultipartyIdentifier
      → Node S × Result SelfInitiateKeygenResult
  keygen_with store_local_share a (s, ok d) = keygen_round store_local_share d a s
  keygen_with store_local_share a (s, err e) = (record { authorizations = a; store = s }, err e)
  keygen_with store_local_share a (s, panic m) = (record { authorizations = a; store = s }, panic m)

  unfoldable pub initiate_mp_keygen :
      Bytes
      → Option MultipartyIdentifier
      → Bool
      → Option (List PublicKey)
      → Node S
      → Node S × Result SelfInitiateKeygenResult
  initiate_mp_keygen uuid ident store_local_share node_ids n =
      keygen_with store_local_share n.authorizations (chosen_identifier uuid ident node_ids n.store)
