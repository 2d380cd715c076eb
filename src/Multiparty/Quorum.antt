-- ===== src/Multiparty/Quorum.antt =====
-- How many parties a round needs, and whose request a follower signs (src/multiparty/initiate_mp.rs).
use redgold.Prelude.{
  ℕ, ◌^◌, ◌≤◌, ◌<◌, ◌≡◌, sym, ap, ◌∙◌, inl, inr, true, Bool-cases, String, ErrorInfo, true≢false,
  Option, none, some, List, [], ◌∷◌, Elem, any, test, test→holds, length, arith, sub64, slt, ok,
  err, err≢ok, >>=-eq-ok, ok-injective, safe_get_msg-eq-ok, attempt-eq-ok, if◌then◌else◌,
}
use redgold.Structs.{Bytes, PublicKey, PublicKey-discrete}
use redgold.Requests.{
  MultipartyIdentifier, InitiateMultipartyKeygenRequest, InitiateMultipartySigningRequest,
  InitiateMultipartySigningResponse,
}
use redgold.Multiparty.Rounds.{Services, fill_threshold, fill_identifier, contains_key, found_or}
use redgold.Multiparty.Signing.{
  initiate_mp_keysign_follower, check_initiator, host_address, signing_share,
}

fill_threshold_bounds :
    (n : ℕ) → 1 ≤ n → n < 2 ^ 63 → (fill_threshold n < n) × (2 ≤ n → 1 ≤ fill_threshold n)
unfolding fill_threshold slt sub64
fill_threshold_bounds n h k = ground arith

Elem-contains_key : (ks : List PublicKey) (pk : PublicKey) → contains_key ks pk ≡ true → Elem pk ks
Elem-contains_key [] pk e = absurd (true≢false (sym e))
Elem-contains_key (k ∷ ks) pk e = elim (Bool-cases (test (PublicKey-discrete k pk))) [
  | inl t ↦ inl (sym (test→holds (PublicKey-discrete k pk) t))
  | inr f ↦ inr (Elem-contains_key ks pk (rw (any, f) at e))
]

found_or-eq-ok : {A : Type 0} (o : Option A) (m : String) {a : A} → found_or o m ≡ ok a → o ≡ some a
found_or-eq-ok none m e = absurd (err≢ok e)
found_or-eq-ok (some b) m e = ap some (ok-injective e)

-- A test that guards a result.
checks :
    (ks : List PublicKey) (pk : PublicKey) (i : ErrorInfo) {u : Unit {0}}
    → (if contains_key ks pk then ok tt else err i) ≡ ok u
    → contains_key ks pk ≡ true
checks ks pk i e = elim (Bool-cases (contains_key ks pk)) [
  | inl t ↦ t
  | inr f ↦ absurd (err≢ok (rw f at e))
]

module _ {S : Type 0} (env : Services S) where
  -- The key is among those that made the party's key, by the request that is stored with the share.
  abbrev pub SignsFor : InitiateMultipartySigningRequest → PublicKey → S → Type 0
  SignsFor mp_req pk s =
      (d : MultipartyIdentifier) × (share : Bytes) × (init : InitiateMultipartyKeygenRequest)
      × (stored : MultipartyIdentifier) × (mp_req.identifier ≡ some d)
      × (env.local_share_and_initiate s d.uuid ≡ ok (some (share, init)))
      × (init.identifier ≡ some stored)
      × Elem pk stored.party_keys

  signing_share-member :
      (mp_req : InitiateMultipartySigningRequest) (pk : PublicKey) (s : S)
      (found : MultipartyIdentifier × Bytes × Bytes)
      → signing_share env mp_req pk s ≡ ok found
      → SignsFor mp_req pk s
  signing_share-member mp_req pk s found e =
      let (d, ed, f1) = >>=-eq-ok _ _ e in
      let (a, ea, f2) = >>=-eq-ok (host_address env s mp_req.signing_party_keys) _ f1 in
      let (o, eo, f3) = >>=-eq-ok (env.local_share_and_initiate s d.uuid) _ f2 in
      let (x, ex, f4) = >>=-eq-ok (found_or o "Local share not found") _ f3 in
      let (u, eu, f5) = >>=-eq-ok (check_initiator env x.1 pk) _ f4 in
      let (stored, es, g) = >>=-eq-ok _ _ eu in
      (
        d,
        x.0,
        x.1,
        stored,
        safe_get_msg-eq-ok _ _ ed,
        eo ∙ ap ok (found_or-eq-ok o _ ex),
        safe_get_msg-eq-ok _ _ es,
        Elem-contains_key stored.party_keys pk (checks stored.party_keys pk _ g),
      )

  -- A follower signs only for a key that took part in the generation of the party's key: the request of
  -- that round, stored with the local share, lists the key.
  pub initiate_mp_keysign_follower-member :
      (mp_req : InitiateMultipartySigningRequest) (pk : PublicKey) (s t : S)
      (answer : InitiateMultipartySigningResponse)
      → initiate_mp_keysign_follower env mp_req pk s ≡ (t, ok answer)
      → SignsFor mp_req pk s
  unfolding initiate_mp_keysign_follower
  initiate_mp_keysign_follower-member mp_req pk s t answer e =
      let (found, ef, f) = attempt-eq-ok s (signing_share env mp_req pk s) _ e in
      signing_share-member mp_req pk s found ef

-- The threshold that is filled in for at least one and fewer than 2 ^ 63 keys is below their number, and at
-- least 1 if there are two or more.
pub fill_identifier_bounds :
    (uuid : Bytes) (keys : List PublicKey)
    → 1 ≤ length keys
    → length keys < 2 ^ 63
    → ((fill_identifier uuid keys none).threshold < length keys)
      × (2 ≤ length keys → 1 ≤ (fill_identifier uuid keys none).threshold)
unfolding fill_identifier
fill_identifier_bounds uuid keys h k = fill_threshold_bounds (length keys) h k
