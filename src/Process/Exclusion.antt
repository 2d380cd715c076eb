-- ===== src/Process/Exclusion.antt =====
-- Two requests in one conflict do not both go on (src/core/process_transaction.rs).
use redgold.Prelude.{
  ◌≡◌, ◌≢◌, refl, ap, ◌∙◌, inl, inr, Bool-cases, List, [], ◌∷◌, ◌++◌, Elem, ok, err≢ok, >>=-eq-ok,
  test, test→holds, or_else,
}
use redgold.Structs.{Bytes}
use redgold.Proofs.{Bytes-discrete}
use redgold.Process.{Conflict, Relay, resolve_conflict, conflict_hashes, settle}
use redgold.Process.Winner.{resolve_conflict_agrees}

abbrev pub hash_of : Conflict → Bytes
hash_of c = or_else c.transaction_hash.bytes []

-- The hashes that a request compares: those it is in conflict with, and its own.
abbrev pub compared : Conflict → List Conflict → List Bytes
compared self cs = conflict_hashes (cs ++ self ∷ [])

settle-resolve_conflict :
    (self : Conflict) (cs : List Conflict) (s : Relay) {t : Relay}
    → cs ≢ []
    → settle self cs s ≡ ok t
    → resolve_conflict (compared self cs) ≡ ok (hash_of self)
unfolding settle
settle-resolve_conflict self [] s n e = absurd (n refl)
settle-resolve_conflict self (c ∷ cs) s n e =
    let (w, e1, e2) = >>=-eq-ok (resolve_conflict (compared self (c ∷ cs))) _ e in
    elim (Bool-cases (test (Bytes-discrete w (hash_of self)))) [
      | inl t ↦ e1 ∙ ap ok (test→holds (Bytes-discrete w (hash_of self)) t)
      | inr f ↦ absurd (err≢ok (rw f at e2))
    ]

-- Two requests that are both in conflict, and compare the same set of hashes, go on only if they are
-- for the same transaction hash.
pub settle_excludes :
    (a b : Conflict) (cs ds : List Conflict) (s t : Relay) {u v : Relay}
    → cs ≢ []
    → ds ≢ []
    → ((x : Bytes) → Elem x (compared a cs) → Elem x (compared b ds))
    → ((x : Bytes) → Elem x (compared b ds) → Elem x (compared a cs))
    → settle a cs s ≡ ok u
    → settle b ds t ≡ ok v
    → hash_of a ≡ hash_of b
settle_excludes a b cs ds s t n m f g d e =
    resolve_conflict_agrees (compared a cs) (compared b ds) f g (settle-resolve_conflict a cs s n d)
      (settle-resolve_conflict b ds t m e)
