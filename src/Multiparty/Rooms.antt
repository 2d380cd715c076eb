-- ===== src/Multiparty/Rooms.antt =====
-- src/multiparty/gg20_sm_manager.rs: which messages the host of the rooms takes. Parsing the JSON of a message
-- is a parameter. The rooms themselves, their histories and subscriptions, are those of the GG20
-- library's example server: publishing is a parameter.
use redgold.Prelude.{
  ℕ, ◌%◌, ◌^◌, ◌≡◌, ◌⊎◌, refl, ap, sym, ◌∙◌, inl, inr, Option, none, some, Option-cases, none≢some,
  some_inj, Result, ok, err, panic, Result-cases,
}
use redgold.Structs.{Bytes, PublicKey}
use redgold.Crypto.{Crypto}
use redgold.Requests.{Request, MultipartyAuthenticationRequest, Wire, verify_auth, request_hash}
use redgold.Requests.Auth.{SignedBy, verify_auth-SignedBy}
use redgold.Multiparty.{Authorizations, check_mp_authorized, base_room}
use redgold.Multiparty.Members.{IsKeygenMember, IsSigningMember, check_mp_authorized-member}

module _ (c : Crypto) (w : Wire) (json_from : Bytes → Result Request) where
  -- The index of the sender, and the text.
  abbrev pub verify_request :
      Authorizations → Bytes → Request → Result PublicKey → Option (ℕ × Option Bytes)
  verify_request a room_id d (ok pk) = elim d.multiparty_authentication_request [
    | some m ↦ elim (check_mp_authorized a room_id pk) [
      | some i ↦ some (i, m.message)
      | none ↦ none
    ]
    | none ↦ none
  ]
  verify_request a room_id d (err e) = none
  verify_request a room_id d (panic m) = none

  unfoldable pub verify_message : Authorizations → Bytes → Bytes → Option (ℕ × Option Bytes)
  verify_message a room_id message = elim (json_from message) [
    | ok d ↦ verify_request a room_id d (verify_auth c w d)
    | err e ↦ none
    | panic m ↦ none
  ]

  -- Strangers get the index 5000.
  unfoldable pub issue_idx : Authorizations → Bytes → Bytes → ℕ
  issue_idx a room_id message = elim (verify_message a room_id message) [
    | some (i, text) ↦ i % 2 ^ 16
    | none ↦ 5000
  ]

  -- What is published in the room.
  unfoldable pub broadcast :
      {S : Type 0} → (Bytes → Bytes → S → S) → Authorizations → Bytes → Bytes → S → S
  broadcast publish a room_id message s = elim (verify_message a room_id message) [
    | some (i, some msg) ↦ publish room_id msg s
    | some (i, none) ↦ s
    | none ↦ s
  ]

  -- The message is a request with this text, by a member of a round that the node has authorized under
  -- the base name of the room.
  abbrev pub Said : Authorizations → Bytes → Bytes → ℕ → Option Bytes → Type 0
  Said a room message i text =
      (d : Request) × (pk : PublicKey) × (m : MultipartyAuthenticationRequest) × (json_from message
        ≡ ok d)
      × (d.multiparty_authentication_request ≡ some m)
      × (m.message ≡ text)
      × SignedBy c d.node_metadata d.proof (request_hash c w d) pk
      × (IsKeygenMember a (base_room room) pk i ⊎ IsSigningMember a (base_room room) pk i)

  verify_request-member :
      (a : Authorizations) (room : Bytes) (d : Request) (r : Result PublicKey) (i : ℕ)
      (text : Option Bytes)
      → verify_auth c w d ≡ r
      → verify_request a room d r ≡ some (i, text)
      → (pk : PublicKey) × (m : MultipartyAuthenticationRequest)
        × (d.multiparty_authentication_request ≡ some m)
        × (m.message ≡ text)
        × SignedBy c d.node_metadata d.proof (request_hash c w d) pk
        × (IsKeygenMember a (base_room room) pk i ⊎ IsSigningMember a (base_room room) pk i)
  verify_request-member a room d (ok pk) i text v e =
      elim (Option-cases d.multiparty_authentication_request) [
        | inl n ↦ absurd (none≢some (rw n at e))
        | inr (m, em) ↦ elim (Option-cases (check_mp_authorized a room pk)) [
          | inl n ↦ absurd (none≢some (rw (verify_request, em, n) at e))
          | inr (j, ej) ↦
              let found = some_inj (rw (verify_request, em, ej) at e) in
              (
                pk,
                m,
                em,
                ap (λ x. x.1) found,
                verify_auth-SignedBy c w d pk v,
                check_mp_authorized-member a room pk i (ej ∙ ap (λ x. some x.0) found),
              )
        ]
      ]
  verify_request-member a room d (err x) i text v e = absurd (none≢some e)
  verify_request-member a room d (panic m) i text v e = absurd (none≢some e)

  verify_message-Said :
      (a : Authorizations) (room message : Bytes) (i : ℕ) (text : Option Bytes)
      → verify_message a room message ≡ some (i, text)
      → Said a room message i text
  unfolding verify_message
  verify_message-Said a room message i text e = elim (Result-cases (json_from message)) [
    | inl (d, ed) ↦
        let (pk, m, em, et, s, k) =
          verify_request-member a room d (verify_auth c w d) i text refl
            (rw (verify_message, ed) at e) in
        (d, pk, m, ed, em, et, s, k)
    | inr (inl (x, ex)) ↦ absurd (none≢some (rw (verify_message, ex) at e))
    | inr (inr (x, ex)) ↦ absurd (none≢some (rw (verify_message, ex) at e))
  ]

  -- The message passes: the node checks the signature of its request, and authorizes its key in the room.
  abbrev pub Passes : Authorizations → Bytes → Bytes → Bytes → Type 0
  Passes a room message text =
      (d : Request) × (pk : PublicKey) × (m : MultipartyAuthenticationRequest) × (i : ℕ)
      × (json_from message ≡ ok d)
      × (verify_auth c w d ≡ ok pk)
      × (d.multiparty_authentication_request ≡ some m)
      × (check_mp_authorized a room pk ≡ some i)
      × (m.message ≡ some text)

  Passes-verify_message :
      (a : Authorizations) (room message text : Bytes)
      → Passes a room message text
      → (i : ℕ) × (verify_message a room message ≡ some (i, some text))
  unfolding verify_message
  Passes-verify_message a room message text (d, pk, m, i, ed, ev, em, ei, et) =
      (i, rw (verify_message, ed, ev, verify_request, em, ei) (ap (λ t. some (i, t)) et))

  -- A message that reaches a room either has the effect of publishing there the text of a request that is
  -- signed by a member of a round that the node has authorized under the base name of the room, or it
  -- leaves the rooms as they are; the latter only if no request with a text, a checked signature and an
  -- authorized key is read from it.
  pub broadcast-Said :
      {S : Type 0} (publish : Bytes → Bytes → S → S) (a : Authorizations) (room message : Bytes)
      (s : S)
      → ((i : ℕ) × (text : Bytes) × Said a room message i (some text)
          × (broadcast publish a room message s ≡ publish room text s))
        ⊎ (((text : Bytes) → ¬ Passes a room message text)
            × (broadcast publish a room message s ≡ s))
  unfolding broadcast
  broadcast-Said publish a room message s = elim (Option-cases (verify_message a room message)) [
    | inl n ↦ inr (
      λ text p. none≢some (sym n ∙ (Passes-verify_message a room message text p).1),
      rw (n, broadcast) refl,
    )
    | inr ((i, none), e) ↦ inr (
      λ text p.
          none≢some
            (ap (λ x. x.1) (some_inj (sym e ∙ (Passes-verify_message a room message text p).1))),
      rw (e, broadcast) refl,
    )
    | inr ((i, some text), e) ↦
        inl (i, text, verify_message-Said a room message i (some text) e, rw (e, broadcast) refl)
  ]
