-- ===== src/Party/Stream.antt =====
-- src/multiparty/party_stream.rs: `PartyEvents`, the fold over the events of the party's address. The
-- events that the store and the wallet give, and the seeds, are arguments.
use redgold.Prelude.{
  ℕ, ℕ_discrete, Bool, true, false, not, ◌&&◌, Option, none, some, List, [], ◌∷◌, ◌++◌, I64, add64,
  sub64, retain, or_else, test, if◌then◌else◌, Result, ok, err, panic, ◌>>=◌,
}
use redgold.Structs.{Bytes, Address, PublicKey, Hash-discrete, Transaction}
use redgold.Crypto.{Crypto}
use redgold.Assoc.{get, put}
use redgold.Proofs.{Bytes-discrete}
use redgold.Transaction.{hash_or}
use redgold.Hashing.{calculate_hash}
use redgold.Market.{BidAsk, OrderFulfillment, fulfill_taker_order}
use redgold.Market.Quotes.{Prices, generate_default, get_btc_per_rdg_starting_min_ask, moved_price}
use redgold.Party.{
  ExternalTimedTransaction, TransactionWithObservations, AddressEvent, external, internal,
  Addresses, bitcoin, redgold_currency, from_bitcoin, other_address_typed, time, is_input_address,
  non_remainder_amount, output_external_txids, input_bitcoin_address,
  first_input_address_to_btc_address, output_amount_of_multi, has_swap_to_multi,
}

pub record Party : Type 1 where
  pub prices : Prices
  pub addresses : Addresses
  pub key_address : Address
  pub party_public_key : PublicKey
  pub seeds : List PublicKey

module _ (c : Crypto) (y : Party) where
  abbrev pub Rate : Type 0
  Rate = y.prices.floats.F

  abbrev pub Order : Type 0
  Order = OrderFulfillment Rate

  pub record PartyEvents : Type 0 where
    pub events : List AddressEvent
    pub balance_map : List (ℕ × I64)
    pub unfulfilled_deposits : List (Order × AddressEvent)
    pub unfulfilled_withdrawals : List (Order × AddressEvent)
    pub price : Rate
    pub bid_ask : BidAsk Rate
    pub unconfirmed_events : List AddressEvent
    -- An order, the event that made it, and the one that fulfilled it.
    pub fulfillment_history : List ((Order × AddressEvent) × AddressEvent)

  unfoldable pub balance_of : ℕ → PartyEvents → I64
  balance_of currency p = or_else (get ℕ_discrete currency p.balance_map) 0

  unfoldable pub same_event : AddressEvent → AddressEvent → Bool
  same_event (external s) (external t) = test (Bytes-discrete s.tx_id t.tx_id)
  same_event (internal s) (internal t) =
      test (Hash-discrete (hash_or (calculate_hash c) s.tx) (hash_or (calculate_hash c) t.tx))
  same_event (external s) (internal t) = false
  same_event (internal s) (external t) = false

  unfoldable pub remove_unconfirmed_event : AddressEvent → PartyEvents → PartyEvents
  remove_unconfirmed_event e p = record p {
    unconfirmed_events = retain (λ u. not (same_event u e)) p.unconfirmed_events;
  }

  unfoldable pub retain_unfulfilled_deposits : Bytes → AddressEvent → Bool
  retain_unfulfilled_deposits tx_id (external t) = not (test (Bytes-discrete t.tx_id tx_id))
  retain_unfulfilled_deposits tx_id (internal t) = true

  unfoldable pub retain_unfulfilled_withdrawals : ExternalTimedTransaction → AddressEvent → Bool
  retain_unfulfilled_withdrawals t (internal d) = not (
      has_swap_to_multi c y.addresses y.party_public_key d.tx
      && input_bitcoin_address c y.addresses d.tx t.other_address)
  retain_unfulfilled_withdrawals t (external d) = true

  -- `retain` with a push to the history of what goes.
  unfoldable pub retained :
      (AddressEvent → Bool) → List (Order × AddressEvent) → List (Order × AddressEvent)
  retained keep [] = []
  retained keep (o ∷ os) = if keep o.1 then o ∷ retained keep os else retained keep os

  unfoldable pub fulfilled :
      (AddressEvent → Bool)
      → AddressEvent
      → List (Order × AddressEvent)
      → List ((Order × AddressEvent) × AddressEvent)
  fulfilled keep e [] = []
  fulfilled keep e (o ∷ os) = if keep o.1 then fulfilled keep e os else (o, e) ∷ fulfilled keep e os

  abbrev pub add_balance : ℕ → I64 → PartyEvents → PartyEvents
  add_balance currency amount p = record p {
    balance_map = put ℕ_discrete currency (add64 (balance_of currency p) amount) p.balance_map;
  }

  abbrev pub push_deposit : AddressEvent → Option Order → PartyEvents → PartyEvents
  push_deposit e none p = p
  push_deposit e (some f) p = record p {
    unfulfilled_deposits = p.unfulfilled_deposits ++ (f, e) ∷ [];
  }

  abbrev pub push_withdrawal : AddressEvent → Option Order → PartyEvents → PartyEvents
  push_withdrawal e none p = p
  push_withdrawal e (some f) p = record p {
    unfulfilled_withdrawals = p.unfulfilled_withdrawals ++ (f, e) ∷ [];
  }

  -- The receipt of a withdrawal: the orders that it fulfils leave the list.
  unfoldable pub settle_withdrawals : ExternalTimedTransaction → PartyEvents → PartyEvents
  settle_withdrawals t p =
      let keep = retain_unfulfilled_withdrawals t in
      remove_unconfirmed_event (external t) (record p {
        unfulfilled_withdrawals = retained keep p.unfulfilled_withdrawals;
        fulfillment_history =
            p.fulfillment_history ++ fulfilled keep (external t) p.unfulfilled_withdrawals;
      })

  -- The receipt of deposits: for each transaction id among the outputs.
  unfoldable pub settle_deposits : AddressEvent → List Bytes → PartyEvents → PartyEvents
  settle_deposits e [] p = p
  settle_deposits e (id ∷ ids) p =
      let keep = retain_unfulfilled_deposits id in
      let q = remove_unconfirmed_event e p in
      settle_deposits e ids (record q {
        unfulfilled_deposits = retained keep q.unfulfilled_deposits;
        fulfillment_history = q.fulfillment_history ++ fulfilled keep e q.unfulfilled_deposits;
      })

  -- `other_address_typed().expect("addr")`.
  abbrev pub depositor : ExternalTimedTransaction → Result Address
  depositor t = elim (other_address_typed t) [
    | ok a ↦ ok a
    | err e ↦ panic "addr"
    | panic m ↦ panic m
  ]

  unfoldable pub process_deposit :
      ExternalTimedTransaction → I64 → PartyEvents → Result (PartyEvents × Option Order)
  process_deposit t now p = depositor t >>= λ a.
      let f = fulfill_taker_order y.prices.floats p.bid_ask t.amount true now (some t.tx_id) a in
      ok (add_balance t.currency t.amount (push_deposit (external t) f p), f)

  unfoldable pub process_receipt : ExternalTimedTransaction → PartyEvents → PartyEvents
  process_receipt t p = add_balance t.currency (sub64 0 t.amount) (settle_withdrawals t p)

  unfoldable pub process_external :
      ExternalTimedTransaction → I64 → PartyEvents → Result (PartyEvents × Option Order)
  process_external t now p =
      if t.incoming then process_deposit t now p else ok (process_receipt t p, none)

  -- What a swap of redgold asks of the bids.
  unfoldable pub withdrawal : Transaction → I64 → I64 → PartyEvents → Option Order
  withdrawal tx amount now p =
      if has_swap_to_multi c y.addresses y.party_public_key tx
      then (elim (first_input_address_to_btc_address c y.addresses tx) [
        | some a ↦
            fulfill_taker_order y.prices.floats p.bid_ask amount false now none (from_bitcoin a)
        | none ↦ none
      ])
      else none

  abbrev pub received_amount : Transaction → I64
  received_amount tx = elim (output_amount_of_multi c y.addresses y.party_public_key tx) [
    | ok a ↦ a
    | err e ↦ 0
    | panic m ↦ 0
  ]

  unfoldable pub process_internal :
      TransactionWithObservations → I64 → PartyEvents → PartyEvents × Option Order
  process_internal t now p =
      if is_input_address c t.tx y.key_address
      then (
        add_balance redgold_currency (sub64 0 (non_remainder_amount c t.tx))
            (settle_deposits (internal t) (output_external_txids t.tx) p),
        none,
      )
      else (let f = withdrawal t.tx (received_amount t.tx) now p in
          (
            add_balance redgold_currency (received_amount t.tx) (push_withdrawal (internal t) f p),
            f,
          ))

  -- The price moves with the order, and the curves are made anew.
  unfoldable pub requote : I64 → PartyEvents × Option Order → Result PartyEvents
  requote now (p, f) = do
    quotes ←
        generate_default y.prices (balance_of redgold_currency p) (balance_of bitcoin p)
          (moved_price y.prices p.price f) (get_btc_per_rdg_starting_min_ask y.prices now)
    ok (record p { bid_ask = quotes; price = moved_price y.prices p.price f })

  unfoldable pub process_confirmed_event : AddressEvent → I64 → PartyEvents → Result PartyEvents
  process_confirmed_event (external t) now p = process_external t now p >>= requote now
  process_confirmed_event (internal t) now p = requote now (process_internal t now p)

  unfoldable pub process_event : AddressEvent → PartyEvents → Result PartyEvents
  process_event e p = time y.seeds e >>= λ t. elim t [
    | some now ↦ process_confirmed_event e now p
    | none ↦ ok (record p { unconfirmed_events = p.unconfirmed_events ++ e ∷ [] })
  ]

  unfoldable pub process_events : List AddressEvent → PartyEvents → Result PartyEvents
  process_events [] p = ok p
  process_events (e ∷ es) p = process_event e p >>= process_events es

  unfoldable pub new_events : Result PartyEvents
  new_events = do
    quotes ←
        generate_default y.prices 0 0
          (y.prices.inverse (get_btc_per_rdg_starting_min_ask y.prices 0))
          (get_btc_per_rdg_starting_min_ask y.prices 0)
    ok (record {
      events = [];
      balance_map = [];
      unfulfilled_deposits = [];
      unfulfilled_withdrawals = [];
      price = y.prices.inverse (get_btc_per_rdg_starting_min_ask y.prices 0);
      bid_ask = quotes;
      unconfirmed_events = [];
      fulfillment_history = [];
    })
