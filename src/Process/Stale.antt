-- ===== src/Process/Stale.antt =====
-- A request loses against any hash below its own that it met, whether or not that request still lives
-- (src/core/process_transaction.rs).
use redgold.Prelude.{
  ◌≡◌, sym, ap, ◌∙◌, inl, inr, true, false, List, [], ◌∷◌, Elem, err, error_message,
  transaction_rejected_double_spend, subst, fails→test, true≢false,
}
use redgold.Proofs.{Bytes-discrete}
use redgold.Process.{Conflict, Relay, bytes_lt, least_hash, resolve_conflict, settle}
use redgold.Process.Winner.{least_hash-IsLeast}
use redgold.Process.Exclusion.{hash_of, compared}

hash_of-Elem :
    (k : Conflict) (ks : List Conflict) (self : Conflict)
    → Elem k ks
    → Elem (hash_of k) (compared self ks)
hash_of-Elem k [] self m = absurd m
hash_of-Elem k (x ∷ ks) self (inl e) = inl (ap hash_of e)
hash_of-Elem k (x ∷ ks) self (inr m) = inr (hash_of-Elem k ks self m)

-- Who meets a conflict with a smaller hash never passes the conflict stage.
pub settle_loses :
    (self k : Conflict) (ks : List Conflict) (s : Relay)
    → Elem k ks
    → bytes_lt (hash_of k) (hash_of self) ≡ true
    → settle self ks s
      ≡ err (
          error_message transaction_rejected_double_spend
            "Lost conflict to other transaction winner")
unfolding settle resolve_conflict
settle_loses self k [] s m l = absurd m
settle_loses self k (x ∷ ks) s m l = rw (
    fails→test (Bytes-discrete (least_hash (hash_of x) (compared self ks)) (hash_of self)) (λ e.
      true≢false (
        sym l
        ∙ subst (λ w. bytes_lt (hash_of k) w ≡ false) e
            ((least_hash-IsLeast (hash_of x) (compared self ks)).1 (hash_of k)
              (hash_of-Elem k (x ∷ ks) self m)))))
