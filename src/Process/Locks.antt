-- ===== src/Process/Locks.antt =====
-- Taking and giving back the outputs of a request (src/core/process_transaction.rs).
use mathlib.Core.List.{append-nil}
use redgold.Prelude.{
  Distinct, ℕ, ◌≡◌, refl, sym, ap, ◌∙◌, inl, inr, true, false, Option, none, some, List, [], ◌∷◌,
  ◌++◌, Option-cases, Elem, All, or_else, subst, ◌==◌, arith,
}
use redgold.Structs.{UtxoId, UtxoId-discrete}
use redgold.Assoc.{get, get-put_self, get-put_other}
use redgold.Process.{
  Conflict, Relay, Acquired, acquire_one, acquire, remove_request, clean_one, clean_utxo,
}

-- The requests that hold an output.
abbrev pub holders : Relay → UtxoId → Option (List Conflict)
holders s u = get UtxoId-discrete u s.utxo_channels

-- No holder has this identifier.
abbrev pub IsFresh : ℕ → List Conflict → Type 0
IsFresh id = All (λ c. (c.request_processer.request_id == id) ≡ false)

pub acquire_one_self :
    (self : Conflict) (u : UtxoId) (a : Acquired)
    → holders (acquire_one self u a).relay u ≡ some (or_else (holders a.relay u) [] ++ self ∷ [])
unfolding acquire_one
acquire_one_self self u a = elim (Option-cases (holders a.relay u)) [
  | inl e ↦ rw (e, acquire_one) (get-put_self UtxoId-discrete u _ a.relay.utxo_channels)
  | inr (c, e) ↦ rw (e, acquire_one) (get-put_self UtxoId-discrete u _ a.relay.utxo_channels)
]

pub acquire_one-other :
    (self : Conflict) (u v : UtxoId) (a : Acquired)
    → ¬ (u ≡ v)
    → holders (acquire_one self u a).relay v ≡ holders a.relay v
unfolding acquire_one
acquire_one-other self u v a n = elim (Option-cases (holders a.relay u)) [
  | inl e ↦ rw (e, acquire_one) (get-put_other UtxoId-discrete u v _ a.relay.utxo_channels n)
  | inr (c, e) ↦ rw (e, acquire_one) (get-put_other UtxoId-discrete u v _ a.relay.utxo_channels n)
]

acquire-other :
    (self : Conflict) (us : List UtxoId) (v : UtxoId) (a : Acquired)
    → ¬ (Elem v us)
    → holders (acquire self us a).relay v ≡ holders a.relay v
unfolding acquire
acquire-other self [] v a n = refl
acquire-other self (u ∷ us) v a n =
    acquire-other self us v (acquire_one self u a) (λ m. n (inr m))
    ∙ acquire_one-other self u v a (λ e. n (inl (sym e)))

acquire_self :
    (self : Conflict) (us : List UtxoId) (v : UtxoId) (a : Acquired)
    → Distinct us
    → Elem v us
    → holders (acquire self us a).relay v ≡ some (or_else (holders a.relay v) [] ++ self ∷ [])
unfolding acquire
acquire_self self [] v a d m = absurd m
acquire_self self (u ∷ us) v a d (inl e) =
    rw e (acquire-other self us u (acquire_one self u a) d.0 ∙ acquire_one_self self u a)
acquire_self self (u ∷ us) v a d (inr m) =
    acquire_self self us v (acquire_one self u a) d.1 m
    ∙ ap (λ h. some (or_else h [] ++ self ∷ []))
        (acquire_one-other self u v a (λ e. d.0 (subst (λ w. Elem w us) (sym e) m)))

clean_one_self :
    (id : ℕ) (u : UtxoId) (s : Relay) (cs : List Conflict)
    → holders s u ≡ some cs
    → holders (clean_one id u s) u ≡ some (remove_request id cs)
unfolding clean_one
clean_one_self id u s cs e = rw (e, clean_one) (get-put_self UtxoId-discrete u _ s.utxo_channels)

clean_one-other :
    (id : ℕ) (u v : UtxoId) (s : Relay) → ¬ (u ≡ v) → holders (clean_one id u s) v ≡ holders s v
unfolding clean_one
clean_one-other id u v s n = elim (Option-cases (holders s u)) [
  | inl e ↦ rw (e, clean_one)
  | inr (c, e) ↦ rw (e, clean_one) (get-put_other UtxoId-discrete u v _ s.utxo_channels n)
]

clean_utxo-other :
    (id : ℕ) (us : List UtxoId) (v : UtxoId) (s : Relay)
    → ¬ (Elem v us)
    → holders (clean_utxo id us s) v ≡ holders s v
unfolding clean_utxo
clean_utxo-other id [] v s n = refl
clean_utxo-other id (u ∷ us) v s n =
    clean_utxo-other id us v (clean_one id u s) (λ m. n (inr m))
    ∙ clean_one-other id u v s (λ e. n (inl (sym e)))

clean_utxo_self :
    (id : ℕ) (us : List UtxoId) (v : UtxoId) (s : Relay) (cs : List Conflict)
    → Distinct us
    → Elem v us
    → holders s v ≡ some cs
    → holders (clean_utxo id us s) v ≡ some (remove_request id cs)
unfolding clean_utxo
clean_utxo_self id [] v s cs d m e = absurd m
clean_utxo_self id (u ∷ us) v s cs d (inl k) e =
    rw k (clean_utxo-other id us u (clean_one id u s) d.0 ∙ clean_one_self id u s cs (rw k at e))
clean_utxo_self id (u ∷ us) v s cs d (inr m) e =
    clean_utxo_self id us v (clean_one id u s) cs d.1 m
      (clean_one-other id u v s (λ k. d.0 (subst (λ w. Elem w us) (sym k) m)) ∙ e)

remove_request-snoc :
    (self : Conflict) (cs : List Conflict)
    → IsFresh self.request_processer.request_id cs
    → remove_request self.request_processer.request_id (cs ++ self ∷ []) ≡ cs
unfolding remove_request
remove_request-snoc self [] h = ground arith
remove_request-snoc self (c ∷ cs) h = rw h.0 (ap (◌∷◌ c) (remove_request-snoc self cs h.1))

-- A request that takes distinct outputs and gives them back leaves each of them with the holders that
-- it had, if none of those has the request's identifier; every other output is untouched. An output
-- that nobody held is left with an empty pool.
pub clean_utxo-acquire :
    (self : Conflict) (us : List UtxoId) (a : Acquired) (v : UtxoId)
    → Distinct us
    → IsFresh self.request_processer.request_id (or_else (holders a.relay v) [])
    → (Elem v us
        → holders (clean_utxo self.request_processer.request_id us (acquire self us a).relay) v
          ≡ some (or_else (holders a.relay v) []))
      × (¬ (Elem v us)
          → holders (clean_utxo self.request_processer.request_id us (acquire self us a).relay) v
            ≡ holders a.relay v)
clean_utxo-acquire self us a v d h = (
  λ m.
      clean_utxo_self _ us v (acquire self us a).relay _ d m (acquire_self self us v a d m)
      ∙ ap some (remove_request-snoc self _ h),
  λ n. clean_utxo-other _ us v (acquire self us a).relay n ∙ acquire-other self us v a n,
)

acquire_one-empty_pool :
    (self : Conflict) (u : UtxoId) (a : Acquired)
    → holders a.relay u ≡ some []
    → ((acquire_one self u a).conflict_detected ≡ true)
      × ((acquire_one self u a).conflicts ≡ a.conflicts)
unfolding acquire_one
acquire_one-empty_pool self u a e = rw (e, acquire_one) (refl, append-nil a.conflicts)

-- `self` took an output that nobody held, and gave it back: `other`, which asks for it next, is told of
-- a conflict, although it finds nobody to conflict with.
pub acquire_one-clean_utxo :
    (self other : Conflict) (u : UtxoId) (a : Acquired)
    → holders a.relay u ≡ none
    → ((acquire_one other u (record a {
      relay = clean_utxo self.request_processer.request_id (u ∷ []) (acquire self (u ∷ []) a).relay;
    })).conflict_detected
        ≡ true)
      × ((acquire_one other u (record a {
        relay =
            clean_utxo self.request_processer.request_id (u ∷ []) (acquire self (u ∷ []) a).relay;
      })).conflicts
          ≡ a.conflicts)
acquire_one-clean_utxo self other u a e = acquire_one-empty_pool other u _ (
    (clean_utxo-acquire self (u ∷ []) a u ((λ m. m), tt) (rw e tt)).0 (inl refl)
    ∙ ap (λ h. some (or_else h [])) e)
