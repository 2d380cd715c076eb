-- ===== src/Multiparty/Revoked.antt =====
-- The authorization of a round lasts as long as the round (src/multiparty/initiate_mp.rs): while it runs its
-- parties may speak in its room, and afterwards no longer for its sake.
use redgold.Prelude.{
  ℕ, ◌≡◌, ◌≢◌, refl, sym, ap, ◌∙◌, subst, Option, none, some, List, Elem, Bool, String, Result, ok,
  err, panic, or_else,
}
use redgold.Structs.{Bytes, PublicKey}
use redgold.Proofs.{Bytes-discrete}
use redgold.Assoc.{get, put, remove, get-put_self, get-put_other, get-remove_self, get-remove_other}
use redgold.Requests.{
  MultipartyIdentifier, InitiateMultipartyKeygenRequest, InitiateMultipartySigningRequest,
}
use redgold.Multiparty.{
  Authorizations, authorize_keygen, remove_keygen_authorization, authorize_signing,
  remove_signing_authorization, check_keygen_authorized, check_signing_authorized,
  check_mp_authorized, authorized_in, base_room, party_index,
}
use redgold.Multiparty.Members.{party_index-Elem}
use redgold.Multiparty.Rounds.{
  Services, Node, finally, initiate_mp_keygen, initiate_mp_keygen_authed, keygen_with, keygen_round,
  chosen_identifier, default_room_id_signing,
}
use redgold.Multiparty.Signing.{
  initiate_mp_keysign, initiate_mp_keysign_authed, signing_with, signing_round, signing_parties,
  signing_request,
}

-- A result that is returned, good or bad.
abbrev pub IsReturned : {A : Type 0} → Result A → Type 0
IsReturned r = (m : String) → r ≢ panic m

finally-authorizations :
    {S : Type 0} {A : Type 0} (release : Authorizations → Authorizations) (a : Authorizations)
    (x : S × Result A)
    → IsReturned (finally release a x).1
    → (finally release a x).0.authorizations ≡ release a
finally-authorizations release a (s, ok r) h = refl
finally-authorizations release a (s, err e) h = refl
finally-authorizations release a (s, panic m) h = absurd (h m refl)

-- A round came and went: no entry is left under the room, and every other entry is as it was.
abbrev pub Forgets : {V : Type 0} → Bytes → List (Bytes × V) → List (Bytes × V) → Type 0
Forgets room before after =
    (get Bytes-discrete room after ≡ none)
    × ((other : Bytes)
        → ¬ (room ≡ other)
        → get Bytes-discrete other after ≡ get Bytes-discrete other before)

remove-put-Forgets :
    {V : Type 0} (room : Bytes) (v : V) (m : List (Bytes × V))
    → Forgets room m (remove Bytes-discrete room (put Bytes-discrete room v m))
remove-put-Forgets room v m = (
  get-remove_self Bytes-discrete room (put Bytes-discrete room v m),
  λ other h.
      get-remove_other Bytes-discrete room other (put Bytes-discrete room v m) h
      ∙ get-put_other Bytes-discrete room other v m h,
)

-- The state before, and the one after a round of key generation (of signing) in the room.
abbrev pub KeygenEnded : Bytes → Authorizations → Authorizations → Type 0
KeygenEnded room a b =
    Forgets room a.mp_keygen_authorizations b.mp_keygen_authorizations
    × (b.mp_signing_authorizations ≡ a.mp_signing_authorizations)

abbrev pub SigningEnded : Bytes → Authorizations → Authorizations → Type 0
SigningEnded room a b =
    Forgets room a.mp_signing_authorizations b.mp_signing_authorizations
    × (b.mp_keygen_authorizations ≡ a.mp_keygen_authorizations)

-- In the room, under any suffix, only key generation of the same name lets anybody speak.
abbrev pub OnlyKeygen : Bytes → Authorizations → Authorizations → Type 0
OnlyKeygen id a b =
    (room : Bytes) (pk : PublicKey)
    → base_room room ≡ id
    → check_mp_authorized b room pk ≡ check_keygen_authorized a id pk

ended-OnlyKeygen : (id : Bytes) (a b : Authorizations) → SigningEnded id a b → OnlyKeygen id a b
unfolding check_mp_authorized check_keygen_authorized check_signing_authorized
ended-OnlyKeygen id a b ended room pk e =
    ap (λ r. authorized_in b r pk) e
    ∙ no_signing (check_keygen_authorized b id pk) (check_signing_authorized b id pk)
        (rw (check_signing_authorized, ended.0.0) refl)
    ∙ rw (check_keygen_authorized, ended.1) refl
  where
    no_signing : (k r : Option ℕ) → r ≡ none → (elim k [ some i ↦ some i | none ↦ r ]) ≡ k
    no_signing none r n = n
    no_signing (some i) r n = refl

module _ {S : Type 0} (env : Services S) where
  keygen_round-ends :
      (share : Bool) (d : MultipartyIdentifier) (a : Authorizations) (s : S)
      → IsReturned (keygen_round env share d a s).1
      → KeygenEnded d.uuid a (keygen_round env share d a s).0.authorizations
  unfolding authorize_keygen remove_keygen_authorization
  keygen_round-ends share d a s h =
      let p0 : InitiateMultipartyKeygenRequest = record { identifier = some d } in
      let (gone, kept) = remove-put-Forgets d.uuid p0 a.mp_keygen_authorizations in
      subst (KeygenEnded d.uuid a)
        (sym (
          finally-authorizations (remove_keygen_authorization d.uuid)
            (record a {
              mp_keygen_authorizations = put Bytes-discrete d.uuid p0 a.mp_keygen_authorizations;
            })
            (initiate_mp_keygen_authed env p0 share s) h))
        ((gone, kept), refl)

  -- However a round of key generation returns, with a share or an error, no round of key generation has
  -- its identifier afterwards, and the authorizations of all other rounds are as they were.
  pub initiate_mp_keygen-ends :
      (uuid : Bytes) (ident : Option MultipartyIdentifier) (share : Bool)
      (node_ids : Option (List PublicKey)) (n : Node S) (s : S) (d : MultipartyIdentifier)
      → chosen_identifier env uuid ident node_ids n.store ≡ (s, ok d)
      → IsReturned (initiate_mp_keygen env uuid ident share node_ids n).1
      → KeygenEnded d.uuid n.authorizations
          (initiate_mp_keygen env uuid ident share node_ids n).0.authorizations
  unfolding initiate_mp_keygen
  initiate_mp_keygen-ends uuid ident share node_ids n s d e h =
      subst
        (λ x.
          IsReturned (keygen_with env share n.authorizations x).1
          → KeygenEnded d.uuid n.authorizations
              (keygen_with env share n.authorizations x).0.authorizations)
        (sym e) (keygen_round-ends share d n.authorizations s) h

  signing_round-ends :
      (p0 : InitiateMultipartySigningRequest) (a : Authorizations) (s : S)
      → IsReturned (signing_round env p0 a s).1
      → SigningEnded p0.signing_room_id a (signing_round env p0 a s).0.authorizations
  unfolding authorize_signing remove_signing_authorization
  signing_round-ends p0 a s h =
      let (gone, kept) = remove-put-Forgets p0.signing_room_id p0 a.mp_signing_authorizations in
      subst (SigningEnded p0.signing_room_id a)
        (sym (
          finally-authorizations (remove_signing_authorization p0.signing_room_id)
            (authorize_signing p0 a) (initiate_mp_keysign_authed env p0 s) h))
        ((gone, kept), refl)

  -- However a round of signing among known parties returns, with a proof or an error, its authorization
  -- is gone: whoever may speak in its room afterwards, under any suffix, is a member of a round of key
  -- generation of the same name that was authorized before, with the index there. The authorizations of
  -- all other rounds are as they were.
  pub initiate_mp_keysign-ends :
      (uuid : Bytes) (d : MultipartyIdentifier) (bytes : Bytes) (parties known : List PublicKey)
      (room : Option Bytes) (n : Node S) (s : S)
      → signing_parties env parties n.store ≡ (s, ok known)
      → IsReturned (initiate_mp_keysign env uuid d bytes parties room n).1
      → SigningEnded
          (or_else room (default_room_id_signing d.uuid uuid))
          n.authorizations
          (initiate_mp_keysign env uuid d bytes parties room n).0.authorizations
        × OnlyKeygen
            (or_else room (default_room_id_signing d.uuid uuid))
            n.authorizations
            (initiate_mp_keysign env uuid d bytes parties room n).0.authorizations
  unfolding initiate_mp_keysign
  initiate_mp_keysign-ends uuid d bytes parties known room n s e h =
      let id = or_else room (default_room_id_signing d.uuid uuid) in
      let ended : SigningEnded id n.authorizations
          (initiate_mp_keysign env uuid d bytes parties room n).0.authorizations =
        subst
          (λ x.
            IsReturned (signing_with env d bytes id n.authorizations x).1
            → SigningEnded id n.authorizations
                (signing_with env d bytes id n.authorizations x).0.authorizations)
          (sym e) (signing_round-ends (signing_request d bytes id known) n.authorizations s) h in
      (ended, ended-OnlyKeygen id n.authorizations _ ended)

keygen_free :
    (p0 : InitiateMultipartySigningRequest) (a : Authorizations) (pk : PublicKey)
    → get Bytes-discrete p0.signing_room_id a.mp_keygen_authorizations ≡ none
    → check_keygen_authorized (authorize_signing p0 a) p0.signing_room_id pk ≡ none
unfolding authorize_signing check_keygen_authorized
keygen_free p0 a pk free = rw (check_keygen_authorized, free) refl

signing_admits :
    (p0 : InitiateMultipartySigningRequest) (d : MultipartyIdentifier) (a : Authorizations)
    (pk : PublicKey) (j : ℕ)
    → p0.identifier ≡ some d
    → party_index d pk ≡ some j
    → check_signing_authorized (authorize_signing p0 a) p0.signing_room_id pk ≡ some j
unfolding authorize_signing check_signing_authorized
signing_admits p0 d a pk j ed ej =
    let p1 = get-put_self Bytes-discrete p0.signing_room_id p0 a.mp_signing_authorizations in
    rw (check_signing_authorized, p1) (rw ed ej)

-- While a round of signing is authorized, each of its parties has an index in its room, with or without
-- a suffix, if no round of key generation has the same name.
pub authorize_signing-admits :
    (p0 : InitiateMultipartySigningRequest) (d : MultipartyIdentifier) (a : Authorizations)
    (room : Bytes) (pk : PublicKey)
    → p0.identifier ≡ some d
    → Elem pk d.party_keys
    → base_room room ≡ p0.signing_room_id
    → get Bytes-discrete p0.signing_room_id a.mp_keygen_authorizations ≡ none
    → (j : ℕ) × (check_mp_authorized (authorize_signing p0 a) room pk ≡ some j)
unfolding check_mp_authorized
authorize_signing-admits p0 d a room pk ed m eb free =
    let (j, ej) = party_index-Elem d pk m in
    (
      j,
      ap (λ b. authorized_in (authorize_signing p0 a) b pk) eb
          ∙ rw (authorized_in, keygen_free p0 a pk free, signing_admits p0 d a pk j ed ej) refl,
    )
