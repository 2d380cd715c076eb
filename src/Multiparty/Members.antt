-- ===== src/Multiparty/Members.antt =====
-- The index of a party: only members have one, the place of their key (schema/src/multiparty.rs), and only
-- members of an authorized round may speak in its room (src/core/relay.rs).
use redgold.Prelude.{
  ℕ, zero, suc, subst, Elem, holds→test, ◌+◌, ◌-◌, ◌≤◌, ◌<◌, ◌≡◌, ◌⊎◌, refl, sym, ap, ◌∙◌, inl, inr,
  Option, none, some, Option-cases, none≢some, List, [], ◌∷◌, Bool-cases, get_elem?, length, arith,
  test, test→holds, some_inj, bind?,
}
use redgold.Structs.{Bytes, PublicKey, PublicKey-discrete}
use redgold.Proofs.{Bytes-discrete}
use redgold.Assoc.{get}
use redgold.Requests.{
  MultipartyIdentifier, InitiateMultipartyKeygenRequest, InitiateMultipartySigningRequest,
}
use redgold.Multiparty.{
  index_from, party_index, Authorizations, check_keygen_authorized, check_signing_authorized,
  check_mp_authorized, authorized_in, base_room,
}

index_from-eq-some :
    (i : ℕ) (pk : PublicKey) (ks : List PublicKey) (j : ℕ)
    → index_from i pk ks ≡ some j
    → (n : ℕ) × (j ≡ suc (i + n)) × (get_elem? ks n ≡ some pk)
unfolding index_from
index_from-eq-some i pk [] j e = absurd (none≢some e)
index_from-eq-some i pk (k ∷ ks) j e = elim (Bool-cases (test (PublicKey-discrete k pk))) [
  | inl t ↦
      let e' : i + 1 ≡ j = some_inj (rw (index_from, t) at e) in
      (0, omega (arith, e'), ap some (test→holds (PublicKey-discrete k pk) t))
  | inr f ↦
      let (n, en, g) = index_from-eq-some (i + 1) pk ks j (rw (index_from, f) at e) in
      (suc n, omega (arith, en), g)
]

get_elem?-lt : {A : Type 0} (xs : List A) (n : ℕ) {a : A} → get_elem? xs n ≡ some a → n < length xs
get_elem?-lt [] n e = absurd (none≢some e)
get_elem?-lt (x ∷ xs) zero e = omega arith
get_elem?-lt (x ∷ xs) (suc n) e = omega (arith, get_elem?-lt xs n e)

-- An index is between 1 and the number of parties, and the key stands at that place.
pub party_index-eq-some :
    (d : MultipartyIdentifier) (pk : PublicKey) (j : ℕ)
    → party_index d pk ≡ some j
    → (1 ≤ j) × (j ≤ length d.party_keys) × (get_elem? d.party_keys (j - 1) ≡ some pk)
unfolding party_index
party_index-eq-some d pk j e =
    let (n, en, g) = index_from-eq-some 0 pk d.party_keys j e in
    (
      omega (arith, en),
      omega (arith, en, get_elem?-lt d.party_keys n g),
      subst (λ m. get_elem? d.party_keys m ≡ some pk) (omega (arith, en)) g,
    )

-- Every member has an index.
index_from-Elem :
    (i : ℕ) (pk : PublicKey) (ks : List PublicKey)
    → Elem pk ks
    → (j : ℕ) × (index_from i pk ks ≡ some j)
unfolding index_from
index_from-Elem i pk [] m = absurd m
index_from-Elem i pk (k ∷ ks) (inl m) =
    (i + 1, rw (index_from, holds→test (PublicKey-discrete k pk) (sym m)) refl)
index_from-Elem i pk (k ∷ ks) (inr m) = elim (Bool-cases (test (PublicKey-discrete k pk))) [
  | inl t ↦ (i + 1, rw (index_from, t) refl)
  | inr f ↦ let (j, e) = index_from-Elem (i + 1) pk ks m in (j, rw (index_from, f) e)
]

pub party_index-Elem :
    (d : MultipartyIdentifier) (pk : PublicKey)
    → Elem pk d.party_keys
    → (j : ℕ) × (party_index d pk ≡ some j)
unfolding party_index
party_index-Elem d pk = index_from-Elem 0 pk d.party_keys

-- The key stands at the place `j`, counted from one, among the parties.
abbrev pub IsParty : Option MultipartyIdentifier → PublicKey → ℕ → Type 0
IsParty o pk j =
    (d : MultipartyIdentifier) × (o ≡ some d)
    × (1 ≤ j)
    × (j ≤ length d.party_keys)
    × (get_elem? d.party_keys (j - 1) ≡ some pk)

abbrev pub IsKeygenMember : Authorizations → Bytes → PublicKey → ℕ → Type 0
IsKeygenMember a room pk j =
    (x : InitiateMultipartyKeygenRequest) × (get Bytes-discrete room a.mp_keygen_authorizations
      ≡ some x)
    × IsParty x.identifier pk j

abbrev pub IsSigningMember : Authorizations → Bytes → PublicKey → ℕ → Type 0
IsSigningMember a room pk j =
    (x : InitiateMultipartySigningRequest) × (get Bytes-discrete room a.mp_signing_authorizations
      ≡ some x)
    × IsParty x.identifier pk j

bind?-eq-some :
    {A : Type 0} {B : Type 0} (o : Option A) (f : A → Option B) {b : B}
    → bind? o f ≡ some b
    → (a : A) × (o ≡ some a) × (f a ≡ some b)
bind?-eq-some none f e = absurd (none≢some e)
bind?-eq-some (some a) f e = (a, refl, e)

check_keygen_authorized-IsKeygenMember :
    (a : Authorizations) (room : Bytes) (pk : PublicKey) (j : ℕ)
    → check_keygen_authorized a room pk ≡ some j
    → IsKeygenMember a room pk j
unfolding check_keygen_authorized
check_keygen_authorized-IsKeygenMember a room pk j e =
    let (x, ex, f) = bind?-eq-some _ _ e in
    let (d, ed, g) = bind?-eq-some _ _ f in
    let (low, high, at_place) = party_index-eq-some d pk j g in
    (x, ex, (d, ed, low, high, at_place))

check_signing_authorized-IsSigningMember :
    (a : Authorizations) (room : Bytes) (pk : PublicKey) (j : ℕ)
    → check_signing_authorized a room pk ≡ some j
    → IsSigningMember a room pk j
unfolding check_signing_authorized
check_signing_authorized-IsSigningMember a room pk j e =
    let (x, ex, f) = bind?-eq-some _ _ e in
    let (d, ed, g) = bind?-eq-some _ _ f in
    let (low, high, at_place) = party_index-eq-some d pk j g in
    (x, ex, (d, ed, low, high, at_place))

-- Only a member of a round of key generation or signing that the node has authorized under the base
-- name of the room is authorized in it, with the place of its key.
pub check_mp_authorized-member :
    (a : Authorizations) (room : Bytes) (pk : PublicKey) (j : ℕ)
    → check_mp_authorized a room pk ≡ some j
    → IsKeygenMember a (base_room room) pk j ⊎ IsSigningMember a (base_room room) pk j
unfolding check_mp_authorized
check_mp_authorized-member a room pk j e =
    elim (Option-cases (check_keygen_authorized a (base_room room) pk)) [
      | inl n ↦ inr (
          check_signing_authorized-IsSigningMember a (base_room room) pk j
            (rw (authorized_in, n) at e))
      | inr (i, s) ↦ inl (
          check_keygen_authorized-IsKeygenMember a (base_room room) pk j
            (s ∙ (rw (authorized_in, s) at e)))
    ]
