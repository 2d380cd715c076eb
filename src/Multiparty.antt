-- ===== src/Multiparty.antt =====
-- schema/src/multiparty.rs and src/core/relay.rs: who takes part in a round of key generation or signing, and
-- the rounds that the node authorizes, by the name of their room. A text is its bytes; the poisoning of
-- the locks is left out.
pub mod Members
pub mod Rooms
pub mod Rounds
pub mod Signing
pub mod Revoked
pub mod Quorum
use redgold.Prelude.{
  ℕ, ◌+◌, ◌-◌, ◌≤◌, Bool, Option, none, some, List, [], ◌∷◌, ◌++◌, length, take, drop, test, bind?,
  or_else, leb, Result, ok, err, ◌>>=◌, safe_get_msg, if◌then◌else◌,
}
use redgold.Structs.{Bytes, PublicKey, PublicKey-discrete}
use redgold.Proofs.{Bytes-discrete}
use redgold.Assoc.{get, put, remove}
use redgold.Requests.{
  MultipartyIdentifier, InitiateMultipartyKeygenRequest, InitiateMultipartySigningRequest,
}

-- `iter().enumerate().find(..)` from index `i` on, plus one.
unfoldable pub index_from : ℕ → PublicKey → List PublicKey → Option ℕ
index_from i pk [] = none
index_from i pk (k ∷ ks) =
    let rest = index_from (i + 1) pk ks in
    if test (PublicKey-discrete k pk) then some (i + 1) else rest

unfoldable pub party_index : MultipartyIdentifier → PublicKey → Option ℕ
party_index d pk = index_from 0 pk d.party_keys

pub record Authorizations : Type 0 where
  pub mp_signing_authorizations : List (Bytes × InitiateMultipartySigningRequest)
  pub mp_keygen_authorizations : List (Bytes × InitiateMultipartyKeygenRequest)

unfoldable pub authorize_signing :
    InitiateMultipartySigningRequest → Authorizations → Authorizations
authorize_signing p0 a = record a {
  mp_signing_authorizations = put Bytes-discrete p0.signing_room_id p0 a.mp_signing_authorizations;
}

unfoldable pub remove_signing_authorization : Bytes → Authorizations → Authorizations
remove_signing_authorization room_id a = record a {
  mp_signing_authorizations = remove Bytes-discrete room_id a.mp_signing_authorizations;
}

unfoldable pub check_signing_authorized : Authorizations → Bytes → PublicKey → Option ℕ
check_signing_authorized a room_id pk =
    bind? (get Bytes-discrete room_id a.mp_signing_authorizations)
      λ (x : InitiateMultipartySigningRequest). bind? x.identifier λ p. party_index p pk

unfoldable pub authorize_keygen :
    InitiateMultipartyKeygenRequest → Authorizations → Result Authorizations
authorize_keygen p0 a = do
  d ← safe_get_msg p0.identifier "missing identifier"
  ok (record a {
    mp_keygen_authorizations = put Bytes-discrete d.uuid p0 a.mp_keygen_authorizations;
  })

unfoldable pub remove_keygen_authorization : Bytes → Authorizations → Authorizations
remove_keygen_authorization room_id a = record a {
  mp_keygen_authorizations = remove Bytes-discrete room_id a.mp_keygen_authorizations;
}

unfoldable pub check_keygen_authorized : Authorizations → Bytes → PublicKey → Option ℕ
check_keygen_authorized a room_id pk =
    bind? (get Bytes-discrete room_id a.mp_keygen_authorizations)
      λ (x : InitiateMultipartyKeygenRequest). bind? x.identifier λ p. party_index p pk

-- `strip_suffix`.
unfoldable pub strip_suffix : Bytes → Bytes → Option Bytes
strip_suffix text suffix =
    let n = length text - length suffix in
    if leb (length suffix) (length text)
    then (if test (Bytes-discrete (drop n text) suffix) then some (take n text) else none)
    else none

-- "-online" and "-offline".
abbrev pub online : Bytes
online = 45 ∷ 111 ∷ 110 ∷ 108 ∷ 105 ∷ 110 ∷ 101 ∷ []

abbrev pub offline : Bytes
offline = 45 ∷ 111 ∷ 102 ∷ 102 ∷ 108 ∷ 105 ∷ 110 ∷ 101 ∷ []

-- The room without its suffixes.
unfoldable pub base_room : Bytes → Bytes
base_room room_id =
    let stripped_one = or_else (strip_suffix room_id online) room_id in
    or_else (strip_suffix stripped_one offline) stripped_one

-- Key generation first, then signing.
abbrev pub authorized_in : Authorizations → Bytes → PublicKey → Option ℕ
authorized_in a room_id pk = elim (check_keygen_authorized a room_id pk) [
  | some i ↦ some i
  | none ↦ check_signing_authorized a room_id pk
]

unfoldable pub check_mp_authorized : Authorizations → Bytes → PublicKey → Option ℕ
check_mp_authorized a room_id pk = authorized_in a (base_room room_id) pk
