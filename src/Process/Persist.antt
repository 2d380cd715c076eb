-- ===== src/Process/Persist.antt =====
-- The locks on outputs are never released: `request_processor` is set nowhere, so the cleanup does not
-- reach them (src/core/process_transaction.rs).
use redgold.Prelude.{
  Elem-append_left, ℕ, ◌+◌, zero, suc, ◌≡◌, refl, sym, ap, ◌∙◌, subst, inl, inr, Bool, Bool-cases,
  Option, none, some, Option-cases, List, [], ◌∷◌, ◌++◌, Elem, All, or_else, Result, ok, err, panic,
  err≢ok, >>=-eq-ok, ok-injective, get_elem?, test,
}
use redgold.Structs.{Hash, Hash-discrete, UtxoId, UtxoId-discrete, Transaction}
use redgold.Crypto.{Crypto}
use redgold.Proofs.{Bytes-discrete}
use redgold.Assoc.{get}
use redgold.Process.{
  RequestProcessor, Conflict, Relay, Acquired, create_receiver_or_err, acquire, acquire_one,
  cleanup, resolve_conflict, conflict_hashes, settle,
}
use redgold.Process.Locks.{holders, acquire_one_self, acquire_one-other}
use redgold.Process.Exclusion.{hash_of}
use redgold.Process.Handler.{
  Services, Stage, received, registered, resolved, acquired, waiting, settled, accepted, finished,
  Request, Node, Event, go, expire, give_up, proceed, immediate_validation, insert_accepted,
  run_contracts, enter, receive, resolve_first, take_locks, resolve_again, hear, not_aborted,
  listen, decide, accept, respond, advance, is_peer_message, inbox, hash_of_transaction,
}
use redgold.Process.System.{Schedule, step, run}

abbrev pub Held : Relay → UtxoId → Conflict → Type 0
Held s u k = Elem k (or_else (holders s u) [])

acquire_one-Held :
    (self : Conflict) (v : UtxoId) (a : Acquired) (u : UtxoId) (k : Conflict)
    → Held a.relay u k
    → Held (acquire_one self v a).relay u k
acquire_one-Held self v a u k m = elim (UtxoId-discrete v u) [
  | yes e ↦
      subst (λ w. Elem k (or_else w []))
        (sym (ap (holders (acquire_one self v a).relay) (sym e) ∙ acquire_one_self self v a))
        (Elem-append_left k _ _ (subst (λ w. Held a.relay w k) (sym e) m))
  | no n ↦ subst (λ w. Elem k (or_else w [])) (sym (acquire_one-other self v u a n)) m
]

acquire-Held :
    (self : Conflict) (vs : List UtxoId) (a : Acquired) (u : UtxoId) (k : Conflict)
    → Held a.relay u k
    → Held (acquire self vs a).relay u k
unfolding acquire
acquire-Held self [] a u k m = m
acquire-Held self (v ∷ vs) a u k m =
    acquire-Held self vs (acquire_one self v a) u k (acquire_one-Held self v a u k m)

holders-cleanup :
    (h : Hash) (p : Option RequestProcessor) (ids : Option (List UtxoId)) (s : Relay) (u : UtxoId)
    → p ≡ none
    → holders (cleanup h p ids s) u ≡ holders s u
unfolding cleanup
holders-cleanup h none ids s u e = refl
holders-cleanup h (some p) ids s u e = cc

utxo_channels-create :
    (h : Hash) (id : ℕ) (tx : Transaction) (s : Relay) (made : Relay × RequestProcessor)
    → create_receiver_or_err h id tx s ≡ ok made
    → made.0.utxo_channels ≡ s.utxo_channels
unfolding create_receiver_or_err
utxo_channels-create h id tx s made e =
    elim (Option-cases (get Hash-discrete h s.transaction_channels)) [
      | inl n ↦
          ap (λ (m : Relay × RequestProcessor). m.0.utxo_channels)
            (sym (ok-injective (rw (n, create_receiver_or_err) at e)))
      | inr (p, n) ↦ absurd (err≢ok (rw (n, create_receiver_or_err) at e))
    ]

utxo_channels-settle :
    (self : Conflict) (ks : List Conflict) (s t : Relay)
    → settle self ks s ≡ ok t
    → t.utxo_channels ≡ s.utxo_channels
unfolding settle
utxo_channels-settle self [] s t e = ap (λ (r : Relay). r.utxo_channels) (sym (ok-injective e))
utxo_channels-settle self (k ∷ ks) s t e =
    let (w, _, e2) = >>=-eq-ok (resolve_conflict (conflict_hashes ((k ∷ ks) ++ self ∷ []))) _ e in
    elim (Bool-cases (test (Bytes-discrete w (hash_of self)))) [
      | inl y ↦ ap (λ (r : Relay). r.utxo_channels) (sym (ok-injective (rw y at e2)))
      | inr f ↦ absurd (err≢ok (rw f at e2))
    ]

module _ (c : Crypto) {S : Type 0} (env : Services S) where
  -- Whoever held an output before holds it after, and the request has still no processor.
  abbrev Keeps : Node S → Node S × Request → Type 0
  Keeps n m =
      ((u : UtxoId) (k : Conflict) → Held n.relay u k → Held m.0.relay u k)
      × (m.1.request_processor ≡ none)

  proceed-Keeps {ℓ} :
      {A : Type ℓ} (n0 n : Node S) (r : Request) (m : Result A) (k : A → Node S × Request)
      → r.request_processor ≡ none
      → ((u : UtxoId) (x : Conflict) → Held n0.relay u x → Held n.relay u x)
      → ((a : A) → m ≡ ok a → Keeps n0 (k a))
      → Keeps n0 (proceed c env n r m k)
  unfolding give_up
  proceed-Keeps n0 n r (ok a) k e keep rest = rest a refl
  proceed-Keeps n0 n r (err i) k e keep rest = (
    λ u x h.
        subst (λ w. Elem x (or_else w []))
          (sym (
            holders-cleanup (hash_of_transaction c env r.transaction) r.request_processor r.utxo_ids
              n.relay u e))
          (keep u x h),
    e,
  )
  proceed-Keeps n0 n r (panic i) k e keep rest = (keep, e)

  same_channels :
      (s t : Relay)
      → t.utxo_channels ≡ s.utxo_channels
      → (u : UtxoId) (x : Conflict) → Held s u x
      → Held t u x
  same_channels s t e u x h = subst (λ w. Elem x (or_else (get UtxoId-discrete u w) [])) (sym e) h

  hear-Keeps :
      (q : RequestProcessor) (full : Bool) (ks : List Conflict) (n : Node S) (r : Request)
      (m : Option Conflict)
      → r.request_processor ≡ none
      → Keeps n (hear c env q full ks n r m)
  unfolding hear
  hear-Keeps q full ks n r none p = ((λ u x h. h), p)
  hear-Keeps q full ks n r (some m) p =
      proceed-Keeps n n (record r { read = r.read + 1 }) (not_aborted c env m) _ p (λ u x h. h)
        (λ a _. ((λ u x h. h), p))

  enter-Keeps : (n : Node S) (r : Request) → r.request_processor ≡ none → Keeps n (enter c env n r)
  unfolding enter
  enter-Keeps n r p =
      proceed-Keeps n n r (immediate_validation c env n.store r.transaction) _ p (λ u x h. h)
        λ a _.
          proceed-Keeps n n r (create_receiver_or_err h r.request_id r.transaction n.relay) _ p
            (λ u x h. h)
            λ made e. (
              (λ u x.
                  same_channels n.relay made.0
                    (utxo_channels-create h r.request_id r.transaction n.relay made e) u x),
              p,
            )
    where
      h : Hash
      h = hash_of_transaction c env r.transaction

  accept-Keeps :
      (full : Bool) (n : Node S) (r : Request)
      → r.request_processor ≡ none
      → Keeps n (accept c env full n r)
  unfolding accept
  accept-Keeps full n r p =
      proceed-Keeps n n r (env.observe_accepted (hash_of_transaction c env r.transaction) full) _ p
        (λ u x h. h)
        λ a _.
          proceed-Keeps n (record n { store = w.0 }) r w.1 _ p (λ u x h. h)
            (λ b _. ((λ u x h. h), p))
    where
      w : S × Result (Unit {0})
      w = insert_accepted c env n.store r.transaction

  respond-Keeps :
      (n : Node S) (r : Request) → r.request_processor ≡ none → Keeps n (respond c env n r)
  unfolding respond
  respond-Keeps n r p =
      proceed-Keeps n
        (record n { store = (run_contracts c env n.store r.transaction r.transaction.outputs).0 }) r
        _ _ p (λ u x h. h)
        λ a _. (
          (λ u x h.
              subst (λ w. Elem x (or_else w []))
                (sym (
                  holders-cleanup (hash_of_transaction c env r.transaction) r.request_processor
                    r.utxo_ids n.relay u p))
                h),
          p,
        )

  advance-Keeps :
      (e : Event) (st : Stage) (n : Node S) (r : Request)
      → r.request_processor ≡ none
      → Keeps n (advance c env e st n r)
  unfolding advance receive resolve_first take_locks resolve_again listen decide accept respond
  advance-Keeps e received n r p = elim (Bool-cases (is_peer_message r.transaction)) [
    | inl t ↦ rw t ((λ u x h. h), p)
    | inr f ↦ rw f (enter-Keeps n r p)
  ]
  advance-Keeps e (registered q) n r p =
      proceed-Keeps n n r _ _ p (λ u x h. h) (λ a _. ((λ u x h. h), p))
  advance-Keeps e (resolved q) n r p = ((λ u x h. acquire-Held _ _ _ u x h), p)
  advance-Keeps e (acquired q d ks) n r p =
      proceed-Keeps n n r _ _ p (λ u x h. h) (λ a _. ((λ u x h. h), p))
  advance-Keeps go (waiting q full ks) n r p =
      hear-Keeps q full ks n r (get_elem? (inbox r.request_id n.relay) r.read) p
  advance-Keeps expire (waiting q full ks) n r p =
      proceed-Keeps n n r _ _ p (λ u x h. h)
        (λ s e.
          ((λ u x h. same_channels n.relay s (utxo_channels-settle _ ks n.relay s e) u x h), p))
  advance-Keeps e (settled q full) n r p = accept-Keeps full n r p
  advance-Keeps e accepted n r p = respond-Keeps n r p
  advance-Keeps e (finished o) n r p = ((λ u x h. h), p)

  step-Keeps :
      (e : Event) (i : ℕ) (n : Node S) (rs : List Request)
      → All (λ (r : Request). r.request_processor ≡ none) rs
      → ((u : UtxoId) (k : Conflict) → Held n.relay u k → Held (step c env e i n rs).0.relay u k)
        × All (λ (r : Request). r.request_processor ≡ none) (step c env e i n rs).1
  unfolding step
  step-Keeps e i n [] p = ((λ u k h. h), tt)
  step-Keeps e zero n (r ∷ rs) p =
      let (held, none_set) = advance-Keeps e r.stage n r p.0 in (held, (none_set, p.1))
  step-Keeps e (suc i) n (r ∷ rs) p =
      let (held, none_set) = step-Keeps e i n rs p.1 in (held, (p.0, none_set))

  -- Whatever the requests of a node do, in any order, one that has taken an output holds it from then
  -- on, also when it has ended: no pool ever loses a member. (Requests start without a processor.)
  pub run-Held :
      (es : Schedule) (n : Node S) (rs : List Request)
      → All (λ (r : Request). r.request_processor ≡ none) rs
      → (u : UtxoId) (k : Conflict) → Held n.relay u k
      → Held (run c env es n rs).0.relay u k
  unfolding run
  run-Held [] n rs p u k h = h
  run-Held ((e, i) ∷ es) n rs p u k h =
      let (held, none_set) = step-Keeps e i n rs p in
      run-Held es (step c env e i n rs).0 (step c env e i n rs).1 none_set u k (held u k h)
