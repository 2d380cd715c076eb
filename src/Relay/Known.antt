-- ===== src/Relay/Known.antt =====
-- Known transactions and those that can be looked up (src/core/relay.rs).
use redgold.Prelude.{
  ◌≡◌, refl, inl, inr, none, some, Option-cases, List, ok, is_some, ◌>>=◌, Result-cases,
}
use redgold.Structs.{Hash, Hash-discrete, Transaction}
use redgold.Assoc.{get}
use redgold.Process.{Relay}
use redgold.Relay.{Query, transaction_known, lookup_transaction}

-- A hash is known exactly when its transaction can be looked up, and both fail in the same way.
pub transaction_known-lookup_transaction :
    (query : Query) (entries : List (Hash × Transaction)) (s : Relay) (h : Hash)
    → transaction_known query entries s h
      ≡ (lookup_transaction query entries s h >>= λ o. ok (is_some o))
unfolding transaction_known lookup_transaction
transaction_known-lookup_transaction query entries s h =
    elim (Option-cases (get Hash-discrete h entries)) [
      | inr (t, e) ↦ rw (transaction_known, lookup_transaction, e) refl
      | inl e ↦ elim (Option-cases (get Hash-discrete h s.transaction_channels)) [
        | inr (p, f) ↦ rw (transaction_known, lookup_transaction, e, f) refl
        | inl f ↦ elim (Result-cases (query h)) [
          | inl (none, g) ↦ rw (transaction_known, lookup_transaction, e, f, g) refl
          | inl (some t, g) ↦ rw (transaction_known, lookup_transaction, e, f, g) refl
          | inr (inl (i, g)) ↦ rw (transaction_known, lookup_transaction, e, f, g) refl
          | inr (inr (m, g)) ↦ rw (transaction_known, lookup_transaction, e, f, g) refl
        ]
      ]
    ]
