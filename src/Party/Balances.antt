-- ===== src/Party/Balances.antt =====
-- The balances of the party's address (src/multiparty/party_stream.rs).
use redgold.Prelude.{
  ℕ, ℕ_discrete, ◌≡◌, refl, sym, ap, ◌∙◌, inl, inr, Bool, true, false, Bool-cases, Option, none,
  some, List, [], ◌∷◌, I64, add64, sub64, or_else, filter_map, filter_map-some, filter_map-none,
  test, holds→test, Result, ok, err, panic, ◌++◌, subst, test→holds, true≢false, if◌then◌else◌,
  >>=-eq-ok, ok-injective,
}
use redgold.Structs.{Bytes}
use redgold.Crypto.{Crypto}
use redgold.Assoc.{get, get-put_self, get-put_other}
use redgold.Transaction.{sum_from}
use redgold.Market.{fulfill_taker_order}
use redgold.Market.Quotes.{generate_default}
use redgold.Party.{
  AddressEvent, external, internal, ExternalTimedTransaction, TransactionWithObservations,
  redgold_currency, time, is_input_address, non_remainder_amount, output_external_txids,
}
use redgold.Party.Stream.{
  Party, Order, PartyEvents, balance_of, remove_unconfirmed_event, add_balance, push_deposit,
  push_withdrawal, settle_withdrawals, settle_deposits, depositor, process_deposit, process_receipt,
  process_external, withdrawal, received_amount, process_internal, requote, process_confirmed_event,
  process_event, process_events,
}

module _ (c : Crypto) (y : Party) where
  -- What an event moves, and in which currency.
  abbrev pub effect : AddressEvent → ℕ × I64
  effect (external t) = (t.currency, if t.incoming then t.amount else sub64 0 t.amount)
  effect (internal t) = (
    redgold_currency,
    if is_input_address c t.tx y.key_address
        then sub64 0 (non_remainder_amount c t.tx)
        else received_amount c y t.tx,
  )

  abbrev pub moved_at : ℕ → ℕ × I64 → Result (Option I64) → Option I64
  moved_at currency x (ok (some now)) = if test (ℕ_discrete x.0 currency) then some x.1 else none
  moved_at currency x (ok none) = none
  moved_at currency x (err i) = none
  moved_at currency x (panic m) = none

  -- The same for one currency, if the event is confirmed.
  abbrev pub moved : ℕ → AddressEvent → Option I64
  moved currency e = moved_at currency (effect e) (time y.seeds e)

  -- The balance in `currency` after an event with this effect.
  After : ℕ → ℕ × I64 → PartyEvents c y → PartyEvents c y → Type 0
  After currency x p q = balance_of c y currency q ≡ (
      if test (ℕ_discrete x.0 currency)
      then add64 (balance_of c y currency p) x.1
      else balance_of c y currency p)

  add_balance-After :
      (currency k : ℕ) (a : I64) (p r : PartyEvents c y)
      → r.balance_map ≡ p.balance_map
      → After currency (k, a) p (add_balance c y k a r)
  unfolding After balance_of
  add_balance-After currency k a p r e = elim (Bool-cases (test (ℕ_discrete k currency))) [
    | inl t ↦ rw t (
        subst
          (λ i.
            or_else (get ℕ_discrete i (add_balance c y k a r).balance_map) 0
            ≡ add64 (or_else (get ℕ_discrete i p.balance_map) 0) a)
          (test→holds (ℕ_discrete k currency) t)
          (ap (λ o. or_else o 0)
              (get-put_self ℕ_discrete k (add64 (balance_of c y k r) a) r.balance_map)
            ∙ ap (λ m. add64 (or_else (get ℕ_discrete k m) 0) a) e))
    | inr f ↦ rw f (
        ap (λ o. or_else o 0)
          (get-put_other ℕ_discrete k currency (add64 (balance_of c y k r) a) r.balance_map
              (λ h. true≢false (sym (holds→test (ℕ_discrete k currency) h) ∙ f))
            ∙ ap (get ℕ_discrete currency) e))
  ]

  settle_deposits-balances :
      (e : AddressEvent) (ids : List Bytes) (p : PartyEvents c y)
      → (settle_deposits c y e ids p).balance_map ≡ p.balance_map
  unfolding settle_deposits remove_unconfirmed_event
  settle_deposits-balances e [] p = refl
  settle_deposits-balances e (id ∷ ids) p = settle_deposits-balances e ids _

  push_deposit-balances :
      (e : AddressEvent) (f : Option (Order c y)) (p : PartyEvents c y)
      → (push_deposit c y e f p).balance_map ≡ p.balance_map
  push_deposit-balances e none p = refl
  push_deposit-balances e (some f) p = refl

  push_withdrawal-balances :
      (e : AddressEvent) (f : Option (Order c y)) (p : PartyEvents c y)
      → (push_withdrawal c y e f p).balance_map ≡ p.balance_map
  push_withdrawal-balances e none p = refl
  push_withdrawal-balances e (some f) p = refl

  requote-balance :
      (currency : ℕ) (now : I64) (x : PartyEvents c y × Option (Order c y)) {q : PartyEvents c y}
      → requote c y now x ≡ ok q
      → balance_of c y currency q ≡ balance_of c y currency x.0
  unfolding requote balance_of
  requote-balance currency now (p, f) e =
      let (quotes, _, g) = >>=-eq-ok (generate_default y.prices _ _ _ _) _ e in
      ap (λ (q : PartyEvents c y). or_else (get ℕ_discrete currency q.balance_map) 0)
        (sym (ok-injective g))

  process_internal-After :
      (currency : ℕ) (t : TransactionWithObservations) (now : I64) (p : PartyEvents c y)
      → After currency (effect (internal t)) p (process_internal c y t now p).0
  unfolding process_internal
  process_internal-After currency t now p =
      elim (Bool-cases (is_input_address c t.tx y.key_address)) [
        | inl h ↦ rw h (
            add_balance-After currency redgold_currency (sub64 0 (non_remainder_amount c t.tx)) p _
              (settle_deposits-balances (internal t) (output_external_txids t.tx) p))
        | inr h ↦ rw h (
            add_balance-After currency redgold_currency (received_amount c y t.tx) p _ (
              push_withdrawal-balances (internal t)
                (withdrawal c y t.tx (received_amount c y t.tx) now p) p))
      ]

  process_deposit-After :
      (currency : ℕ) (t : ExternalTimedTransaction) (now : I64) (p : PartyEvents c y)
      {x : PartyEvents c y × Option (Order c y)}
      → process_deposit c y t now p ≡ ok x
      → After currency (t.currency, t.amount) p x.0
  unfolding process_deposit
  process_deposit-After currency t now p e =
      let (a, _, g) = >>=-eq-ok (depositor c y t) _ e in
      subst
        (λ (x : PartyEvents c y × Option (Order c y)). After currency (t.currency, t.amount) p x.0)
        (ok-injective g)
        (add_balance-After currency t.currency t.amount p _ (
          push_deposit-balances (external t)
            (fulfill_taker_order y.prices.floats p.bid_ask t.amount true now (some t.tx_id) a) p))

  process_receipt-After :
      (currency : ℕ) (t : ExternalTimedTransaction) (p : PartyEvents c y)
      → After currency (t.currency, sub64 0 t.amount) p (process_receipt c y t p)
  unfolding process_receipt settle_withdrawals remove_unconfirmed_event
  process_receipt-After currency t p =
      add_balance-After currency t.currency (sub64 0 t.amount) p _ refl

  process_external-After :
      (currency : ℕ) (t : ExternalTimedTransaction) (now : I64) (p : PartyEvents c y)
      {x : PartyEvents c y × Option (Order c y)}
      → process_external c y t now p ≡ ok x
      → After currency (effect (external t)) p x.0
  unfolding process_external
  process_external-After currency t now p {x} e = by_direction t.incoming e
    where
      by_direction :
          (b : Bool)
          → (if b then process_deposit c y t now p else ok (process_receipt c y t p, none)) ≡ ok x
          → After currency (t.currency, if b then t.amount else sub64 0 t.amount) p x.0
      by_direction true h = process_deposit-After currency t now p h
      by_direction false h =
          subst
            (λ (x : PartyEvents c y × Option (Order c y)).
              After currency (t.currency, sub64 0 t.amount) p x.0)
            (ok-injective h) (process_receipt-After currency t p)

  process_confirmed_event-After :
      (currency : ℕ) (e : AddressEvent) (now : I64) (p : PartyEvents c y) {q : PartyEvents c y}
      → process_confirmed_event c y e now p ≡ ok q
      → After currency (effect e) p q
  unfolding process_confirmed_event After
  process_confirmed_event-After currency (external t) now p h =
      let (x, f, g) = >>=-eq-ok (process_external c y t now p) _ h in
      requote-balance currency now x g ∙ process_external-After currency t now p f
  process_confirmed_event-After currency (internal t) now p h =
      requote-balance currency now (process_internal c y t now p) h
      ∙ process_internal-After currency t now p

  moved_now :
      (currency : ℕ) (e : AddressEvent) (now b : I64) (es : List AddressEvent)
      → time y.seeds e ≡ ok (some now)
      → sum_from
          (if test (ℕ_discrete (effect e).0 currency) then add64 b (effect e).1 else b)
          (filter_map (moved currency) es)
        ≡ sum_from b (filter_map (moved currency) (e ∷ es))
  unfolding sum_from
  moved_now currency e now b es k = elim (Bool-cases (test (ℕ_discrete (effect e).0 currency))) [
    | inl t ↦ rw t (
        ap (sum_from b) (
          sym
            (filter_map-some (moved currency) e es (ap (moved_at currency (effect e)) k ∙ here t))))
    | inr f ↦ rw f (
        ap (sum_from b) (
          sym (
            filter_map-none (moved currency) e es
              (ap (moved_at currency (effect e)) k ∙ elsewhere f))))
  ]
    where
      here :
          test (ℕ_discrete (effect e).0 currency) ≡ true
          → moved_at currency (effect e) (ok (some now)) ≡ some (effect e).1
      here t = rw t refl

      elsewhere :
          test (ℕ_discrete (effect e).0 currency) ≡ false
          → moved_at currency (effect e) (ok (some now)) ≡ none
      elsewhere f = rw f refl

  -- After a run over its events the party's balance in a currency is the sum of what the confirmed ones
  -- among them moved, whatever orders they made or settled.
  pub process_events-balance :
      (currency : ℕ) (es : List AddressEvent) (p : PartyEvents c y) {q : PartyEvents c y}
      → process_events c y es p ≡ ok q
      → balance_of c y currency q
        ≡ sum_from (balance_of c y currency p) (filter_map (moved currency) es)
  unfolding process_events process_event After balance_of sum_from
  process_events-balance currency [] p h = ap (balance_of c y currency) (sym (ok-injective h))
  process_events-balance currency (e ∷ es) p h =
      let (r, f, g) = >>=-eq-ok (process_event c y e p) _ h in
      let (o, k, l) = >>=-eq-ok (time y.seeds e) _ f in
      process_events-balance currency es r g ∙ step o r k l
    where
      step :
          (o : Option I64) (r : PartyEvents c y)
          → time y.seeds e ≡ ok o
          → (elim o [
            | some now ↦ process_confirmed_event c y e now p
            | none ↦ ok (record p { unconfirmed_events = p.unconfirmed_events ++ e ∷ [] })
          ])
            ≡ ok r
          → sum_from (balance_of c y currency r) (filter_map (moved currency) es)
            ≡ sum_from (balance_of c y currency p) (filter_map (moved currency) (e ∷ es))
      step none r k l =
          ap
            (λ (s : PartyEvents c y).
              sum_from (balance_of c y currency s) (filter_map (moved currency) es))
            (sym (ok-injective l))
          ∙ ap (sum_from (balance_of c y currency p))
              (sym (filter_map-none (moved currency) e es (ap (moved_at currency (effect e)) k)))
      step (some now) r k l =
          ap (λ b. sum_from b (filter_map (moved currency) es))
            (process_confirmed_event-After currency e now p l)
          ∙ moved_now currency e now (balance_of c y currency p) es k
