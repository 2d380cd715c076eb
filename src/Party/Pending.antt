-- ===== src/Party/Pending.antt =====
-- The orders of the party, until they are fulfilled (src/multiparty/party_stream.rs).
use redgold.Prelude.{
  ℕ, ◌+◌, ◌≤◌, ◌≡◌, refl, ap, subst, inl, inr, ◌⊎◌, Bool, true, false, Bool-cases, Option, none,
  some, List, [], ◌∷◌, ◌++◌, I64, Elem, Elem-append_left, Elem-append_right, length, length-append,
  arith, ok, if◌then◌else◌, >>=-eq-ok, ok-injective,
}
use redgold.Structs.{Bytes}
use redgold.Crypto.{Crypto}
use redgold.Market.{fulfill_taker_order}
use redgold.Market.Quotes.{generate_default}
use redgold.Party.{
  AddressEvent, external, internal, ExternalTimedTransaction, TransactionWithObservations, time,
  is_input_address, output_external_txids,
}
use redgold.Party.Stream.{
  Party, Order, PartyEvents, remove_unconfirmed_event, retained, fulfilled, push_deposit,
  push_withdrawal, retain_unfulfilled_deposits, retain_unfulfilled_withdrawals, settle_withdrawals,
  settle_deposits, depositor, process_deposit, process_receipt, process_external, withdrawal,
  received_amount, process_internal, requote, process_confirmed_event, process_event,
  process_events,
}

module _ (c : Crypto) (y : Party) where
  abbrev Made : Type 0
  Made = Order c y × AddressEvent

  -- An order waits, as a deposit or a withdrawal, or has been fulfilled by an event.
  abbrev pub Tracked : Order c y × AddressEvent → PartyEvents c y → Type 0
  Tracked o p =
      Elem o p.unfulfilled_deposits
      ⊎ (Elem o p.unfulfilled_withdrawals
          ⊎ ((e : AddressEvent) × Elem (o, e) p.fulfillment_history))

  -- How many there are of both.
  abbrev pub tracked : PartyEvents c y → ℕ
  tracked p =
      length p.unfulfilled_deposits
      + length p.unfulfilled_withdrawals
      + length p.fulfillment_history

  -- What is not retained is fulfilled, and nothing is both.
  split-Elem :
      (keep : AddressEvent → Bool) (e : AddressEvent) (o : Made) (os : List Made)
      → Elem o os
      → Elem o (retained c y keep os) ⊎ Elem (o, e) (fulfilled c y keep e os)
  unfolding retained fulfilled
  split-Elem keep e o [] m = absurd m
  split-Elem keep e o (x ∷ os) m = elim (Bool-cases (keep x.1)) [
    | inl t ↦ rw t (elim m [
      | inl h ↦ inl (inl h)
      | inr k ↦ elim (split-Elem keep e o os k) [ inl a ↦ inl (inr a) | inr b ↦ inr b ]
    ])
    | inr f ↦ rw f (elim m [
      | inl h ↦ inr (inl (ap (λ z. (z, e)) h))
      | inr k ↦ elim (split-Elem keep e o os k) [ inl a ↦ inl a | inr b ↦ inr (inr b) ]
    ])
  ]

  split-length :
      (keep : AddressEvent → Bool) (e : AddressEvent) (os : List Made)
      → length (retained c y keep os) + length (fulfilled c y keep e os) ≡ length os
  unfolding retained fulfilled
  split-length keep e [] = refl
  split-length keep e (x ∷ os) = elim (Bool-cases (keep x.1)) [
    | inl t ↦ rw t (omega (arith, split-length keep e os))
    | inr f ↦ rw f (omega (arith, split-length keep e os))
  ]

  -- Nothing is lost from `p` to `q`, and `n` orders are new.
  record Grows (n : ℕ) (p q : PartyEvents c y) : Type 0 where
    keeps : (o : Order c y × AddressEvent) → Tracked o p → Tracked o q
    counts : tracked q ≡ n + tracked p

  Grows-trans : (n m : ℕ) (p q r : PartyEvents c y) → Grows n p q → Grows m q r → Grows (n + m) p r
  Grows-trans n m p q r g h = record {
    keeps = λ o t. h.keeps o (g.keeps o t);
    counts = omega (arith, g.counts, h.counts);
  }

  settle_withdrawals-Grows :
      (t : ExternalTimedTransaction) (p : PartyEvents c y) → Grows 0 p (settle_withdrawals c y t p)
  unfolding settle_withdrawals remove_unconfirmed_event
  settle_withdrawals-Grows t p = record {
    keeps = λ o k. elim k [
      | inl m ↦ inl m
      | inr (inl m) ↦
          elim (split-Elem (retain_unfulfilled_withdrawals c y t) (external t) o
            p.unfulfilled_withdrawals m) [
              | inl a ↦ inr (inl a)
              | inr b ↦ inr (inr (external t, Elem-append_right _ p.fulfillment_history _ b))
            ]
      | inr (inr (e, m)) ↦ inr (inr (e, Elem-append_left _ p.fulfillment_history _ m))
    ];
    counts = omega (
      arith,
      split-length (retain_unfulfilled_withdrawals c y t) (external t) p.unfulfilled_withdrawals,
      length-append p.fulfillment_history (
          fulfilled c y (retain_unfulfilled_withdrawals c y t) (external t)
            p.unfulfilled_withdrawals),
    );
  }

  settle_deposits-Grows :
      (e : AddressEvent) (ids : List Bytes) (p : PartyEvents c y)
      → Grows 0 p (settle_deposits c y e ids p)
  unfolding settle_deposits remove_unconfirmed_event
  settle_deposits-Grows e [] p = record { keeps = λ o k. k; counts = omega arith }
  settle_deposits-Grows e (id ∷ ids) p =
      Grows-trans 0 0 p _ _
        (record {
          keeps = λ o k. elim k [
            | inl m ↦
                elim (split-Elem (retain_unfulfilled_deposits c y id) e o p.unfulfilled_deposits
                  m) [
                    | inl a ↦ inl a
                    | inr b ↦ inr (inr (e, Elem-append_right _ p.fulfillment_history _ b))
                  ]
            | inr (inl m) ↦ inr (inl m)
            | inr (inr (d, m)) ↦ inr (inr (d, Elem-append_left _ p.fulfillment_history _ m))
          ];
          counts = omega (
            arith,
            split-length (retain_unfulfilled_deposits c y id) e p.unfulfilled_deposits,
            length-append p.fulfillment_history
                (fulfilled c y (retain_unfulfilled_deposits c y id) e p.unfulfilled_deposits),
          );
        })
        (settle_deposits-Grows e ids _)

  push_deposit-Grows :
      (e : AddressEvent) (f : Option (Order c y)) (p : PartyEvents c y)
      → (n : ℕ) × (n ≤ 1) × Grows n p (push_deposit c y e f p)
  push_deposit-Grows e none p = (0, omega arith, record { keeps = λ o k. k; counts = omega arith })
  push_deposit-Grows e (some f) p = (
    1,
    omega arith,
    record {
      keeps = λ o k. elim k [
        | inl m ↦ inl (Elem-append_left o p.unfulfilled_deposits _ m)
        | inr m ↦ inr m
      ];
      counts = omega (arith, length-append p.unfulfilled_deposits ((f, e) ∷ []));
    },
  )

  push_withdrawal-Grows :
      (e : AddressEvent) (f : Option (Order c y)) (p : PartyEvents c y)
      → (n : ℕ) × (n ≤ 1) × Grows n p (push_withdrawal c y e f p)
  push_withdrawal-Grows e none p =
      (0, omega arith, record { keeps = λ o k. k; counts = omega arith })
  push_withdrawal-Grows e (some f) p = (
    1,
    omega arith,
    record {
      keeps = λ o k. elim k [
        | inl m ↦ inl m
        | inr (inl m) ↦ inr (inl (Elem-append_left o p.unfulfilled_withdrawals _ m))
        | inr (inr m) ↦ inr (inr m)
      ];
      counts = omega (arith, length-append p.unfulfilled_withdrawals ((f, e) ∷ []));
    },
  )

  -- At most one order is new.
  Grown : PartyEvents c y → PartyEvents c y → Type 0
  Grown p q = (n : ℕ) × (n ≤ 1) × Grows n p q

  requote-Grown :
      (now : I64) (p : PartyEvents c y) (x : PartyEvents c y × Option (Order c y))
      {q : PartyEvents c y}
      → requote c y now x ≡ ok q
      → Grown p x.0
      → Grown p q
  unfolding requote Grown
  requote-Grown now p (r, f) e (n, le, g) =
      let (quotes, _, h) = >>=-eq-ok (generate_default y.prices _ _ _ _) _ e in
      subst (λ (q : PartyEvents c y). Grown p q) (ok-injective h)
        (n, le, record { keeps = g.keeps; counts = g.counts })

  process_internal-Grown :
      (t : TransactionWithObservations) (now : I64) (p : PartyEvents c y)
      → Grown p (process_internal c y t now p).0
  unfolding process_internal Grown
  process_internal-Grown t now p = elim (Bool-cases (is_input_address c t.tx y.key_address)) [
    | inl h ↦
        let g = settle_deposits-Grows (internal t) (output_external_txids t.tx) p in
        rw h (0, omega arith, record { keeps = g.keeps; counts = g.counts })
    | inr h ↦
        let (n, le, g) =
          push_withdrawal-Grows (internal t) (withdrawal c y t.tx (received_amount c y t.tx) now p)
            p in
        rw h (n, le, record { keeps = g.keeps; counts = g.counts })
  ]

  process_external-Grown :
      (t : ExternalTimedTransaction) (now : I64) (p : PartyEvents c y)
      {x : PartyEvents c y × Option (Order c y)}
      → process_external c y t now p ≡ ok x
      → Grown p x.0
  unfolding process_external process_deposit process_receipt Grown
  process_external-Grown t now p {x} e = by_direction t.incoming e
    where
      by_direction :
          (b : Bool)
          → (if b then process_deposit c y t now p else ok (process_receipt c y t p, none)) ≡ ok x
          → Grown p x.0
      by_direction true h =
          let (a, _, k) = >>=-eq-ok (depositor c y t) _ h in
          let (n, le, g) =
            push_deposit-Grows (external t)
              (fulfill_taker_order y.prices.floats p.bid_ask t.amount true now (some t.tx_id) a)
              p in
          subst (λ (x : PartyEvents c y × Option (Order c y)). Grown p x.0) (ok-injective k)
            (n, le, record { keeps = g.keeps; counts = g.counts })
      by_direction false h =
          let g = settle_withdrawals-Grows t p in
          subst (λ (x : PartyEvents c y × Option (Order c y)). Grown p x.0) (ok-injective h)
            (0, omega arith, record { keeps = g.keeps; counts = g.counts })

  process_event-Grown :
      (e : AddressEvent) (p : PartyEvents c y) {q : PartyEvents c y}
      → process_event c y e p ≡ ok q
      → Grown p q
  unfolding process_event process_confirmed_event Grown
  process_event-Grown e p {q} h = let (o, _, k) = >>=-eq-ok (time y.seeds e) _ h in by_time o e k
    where
      by_time :
          (o : Option I64) (e : AddressEvent)
          → (elim o [
            | some now ↦ process_confirmed_event c y e now p
            | none ↦ ok (record p { unconfirmed_events = p.unconfirmed_events ++ e ∷ [] })
          ])
            ≡ ok q
          → Grown p q
      by_time none e k =
          subst (λ (q : PartyEvents c y). Grown p q) (ok-injective k)
            (0, omega arith, record { keeps = λ o m. m; counts = omega arith })
      by_time (some now) (external t) k =
          let (x, f, g) = >>=-eq-ok (process_external c y t now p) _ k in
          requote-Grown now p x g (process_external-Grown t now p f)
      by_time (some now) (internal t) k =
          requote-Grown now p (process_internal c y t now p) k (process_internal-Grown t now p)

  -- Over a run no order is lost and none is counted twice: each order that waits, or was fulfilled, waits
  -- or was fulfilled at the end, and their number grows by at most one for each event.
  pub process_events-Tracked :
      (es : List AddressEvent) (p : PartyEvents c y) {q : PartyEvents c y}
      → process_events c y es p ≡ ok q
      → ((o : Order c y × AddressEvent) → Tracked o p → Tracked o q)
        × (tracked p ≤ tracked q)
        × (tracked q ≤ length es + tracked p)
  unfolding process_events Grown
  process_events-Tracked [] p h =
      subst
        (λ (q : PartyEvents c y).
          ((o : Order c y × AddressEvent) → Tracked o p → Tracked o q)
          × (tracked p ≤ tracked q)
          × (tracked q ≤ 0 + tracked p))
        (ok-injective h) ((λ o k. k), omega arith, omega arith)
  process_events-Tracked (e ∷ es) p h =
      let (r, f, g) = >>=-eq-ok (process_event c y e p) _ h in
      let (n, le, grows) = process_event-Grown e p f in
      let (keeps, more, bound) = process_events-Tracked es r g in
      (
        (λ o k. keeps o (grows.keeps o k)),
        omega (arith, more, grows.counts),
        omega (arith, bound, le, grows.counts),
      )
