-- ===== src/Peers/Gate.antt =====
-- Only signed requests start rounds of key generation or signing (src/core/peer_rx_event_handler.rs).
use redgold.Prelude.{
  ◌≡◌, ◌≢◌, refl, ap, ◌∙◌, subst, inl, inr, [], ◌∷◌, Result-cases, Bool, true, false, some, Result,
  ok, err, panic, ErrorInfo, err≢ok, panic≢ok, after, after-eq-ok, is_some, ◌||◌,
}
use redgold.Structs.{PublicKey}
use redgold.Crypto.{Crypto}
use redgold.Requests.{
  Request, Response, Wire, InitiateMultipartySigningRequest, auth_required, verify_auth,
  request_hash, empty_success,
}
use redgold.Requests.Auth.{SignedBy, verify_auth-SignedBy}
use redgold.Multiparty.Rounds
use redgold.Multiparty.Signing.{initiate_mp_keysign_follower}
use redgold.Multiparty.Quorum.{SignsFor, initiate_mp_keysign_follower-member}
use redgold.Peers.{Services, run_stages, on_some, on_true}
use redgold.Peers.Handle.{
  public_stages, keygen_stage, signing_stage, verified_stages, auth_stage, request_response,
}

-- A stage that always fails with `e`.
after_fails :
    {S : Type 0} (e : ErrorInfo) (x : S × Result Response)
    → ((after {B = Response} x λ s r. (s, err e)).0 ≡ x.0)
      × ((a : Response) → (after {B = Response} x λ s r. (s, err e)).1 ≢ ok a)
after_fails e (s, ok r) = (refl, λ a k. err≢ok k)
after_fails e (s, err i) = (refl, λ a k. err≢ok k)
after_fails e (s, panic m) = (refl, λ a k. panic≢ok k)

or_true : (b : Bool) → (b || true) ≡ true
or_true true = refl
or_true false = refl

signing_auth_required :
    (q : Request) {x : InitiateMultipartySigningRequest}
    → q.initiate_signing ≡ some x
    → auth_required q ≡ true
unfolding auth_required
signing_auth_required q e =
    ap (λ o. is_some q.initiate_keygen || is_some o) e ∙ or_true (is_some q.initiate_keygen)

module _ {S : Type 0} (env : Services S) (mp : Rounds.Services S) where
  -- A request that needs an authorization is refused if its check failed, and the state is what the parts
  -- of the request that are open to everyone made of it.
  pub request_response_refuses :
      (q : Request) (e : ErrorInfo) (s : S)
      → auth_required q ≡ true
      → ((request_response env mp q (err e) s).0
          ≡ (run_stages (public_stages env q) s empty_success).0)
        × ((a : Response) → (request_response env mp q (err e) s).1 ≢ ok a)
  unfolding request_response
  request_response_refuses q e s a =
      rw (request_response, a) (after_fails e (run_stages (public_stages env q) s empty_success))

  signing_stage-SignsFor :
      (pk : PublicKey) (x : InitiateMultipartySigningRequest) (s t : S) (a r : Response)
      → signing_stage env mp pk x s a ≡ (t, ok r)
      → (u : S) × SignsFor mp x pk u
  signing_stage-SignsFor pk x s t a r e =
      let (u, answer, eu, f) = after-eq-ok (initiate_mp_keysign_follower mp x pk s) _ e in
      (s, initiate_mp_keysign_follower-member mp x pk s u answer eu)

  verified_stages-SignsFor :
      (q : Request) (pk : PublicKey) (x : InitiateMultipartySigningRequest) (s t : S)
      (a r : Response)
      → q.initiate_signing ≡ some x
      → run_stages (verified_stages env mp q pk) s a ≡ (t, ok r)
      → (u : S) × SignsFor mp x pk u
  unfolding verified_stages run_stages
  verified_stages-SignsFor q pk x s t a r ex e =
      let (u, b, eu, f) =
        after-eq-ok (on_some q.initiate_keygen (keygen_stage env mp) s a)
          (run_stages (on_some q.initiate_signing (signing_stage env mp pk) ∷ [])) e in
      let (v, d, ev, g) =
        after-eq-ok (on_some q.initiate_signing (signing_stage env mp pk) u b) (run_stages []) f in
      signing_stage-SignsFor pk x u v b d
        (subst (λ o. on_some o (signing_stage env mp pk) u b ≡ (v, ok d)) ex ev)

  -- The node signs with its share of a party's key only for a request that is signed, with a key that took
  -- part in the generation of the party's key.
  pub request_response_signs :
      (c : Crypto) (w : Wire) (q : Request) (x : InitiateMultipartySigningRequest) (s t : S)
      (r : Response)
      → q.initiate_signing ≡ some x
      → request_response env mp q (verify_auth c w q) s ≡ (t, ok r)
      → (pk : PublicKey) × SignedBy c q.node_metadata q.proof (request_hash c w q) pk
        × ((u : S) × SignsFor mp x pk u)
  unfolding request_response
  request_response_signs c w q x s t r ex e =
      let (u, a, eu, f) =
        after-eq-ok (run_stages (public_stages env q) s empty_success)
          (on_true (auth_required q) (auth_stage env mp q (verify_auth c w q))) e in
      let g =
        subst (λ b. on_true b (auth_stage env mp q (verify_auth c w q)) u a ≡ (t, ok r))
          (signing_auth_required q ex) f in
      elim (Result-cases (verify_auth c w q)) [
        | inl (pk, v) ↦ (
          pk,
          verify_auth-SignedBy c w q pk v,
          verified_stages-SignsFor q pk x u t a r ex
              (subst (λ y. auth_stage env mp q y u a ≡ (t, ok r)) v g),
        )
        | inr (inl (i, v)) ↦
            absurd (err≢ok (ap (λ y. y.1) (subst (λ y. auth_stage env mp q y u a ≡ (t, ok r)) v g)))
        | inr (inr (m, v)) ↦
            absurd
              (panic≢ok (ap (λ y. y.1) (subst (λ y. auth_stage env mp q y u a ≡ (t, ok r)) v g)))
      ]
