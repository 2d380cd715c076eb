-- ===== src/Examples/Exchange.antt =====
-- A deposit of bitcoin that the party pays out in redgold, at whole prices.
use redgold.Prelude.{
  ◌⊎◌, ℕ_discrete, ◌+◌, ◌≤◌, ◌≡◌, refl, true, false, none, some, List, [], ◌∷◌, ◌++◌, length,
  filter_map, ok, err, panic, sub64, add64, Elem,
}
use redgold.Assoc.{get, put}
use redgold.Transaction.{sum_from}
use redgold.Market.{
  sum_volume, retain_positive, take_levels, fulfill_taker_order, generate, finish, adjust,
  adjust_levels, adjust_one, keep_valid, normalize_volumes, rescale_all, dust_trigger, dust_levels,
  levels,
}
use redgold.Market.Quotes.{Prices, generate_default, moved_price}
use redgold.Party.{
  ExternalTimedTransaction, AddressEvent, TransactionWithObservations, external, internal, bitcoin,
  other_address_typed, time,
}
use redgold.Party.Stream.{
  Party, PartyEvents, balance_of, process_events, process_event, process_confirmed_event,
  process_external, process_deposit, process_receipt, settle_withdrawals, retained, fulfilled,
  remove_unconfirmed_event, requote,
}
use redgold.Party.Balances.{moved, process_events-balance}
use redgold.Party.Pending.{Tracked, tracked, process_events-Tracked}
use redgold.Party.Unseen.{process_events-unseen}
use redgold.Party.Orders.{orders, order_time}
use redgold.Party.Open.{IsSorted, UnpaidDeposit, UnpaidWithdrawal, orders-unpaid}
use redgold.Examples.Funds.{toy, alice, checked}
use redgold.Examples.Trading.{whole}

abbrev prices : Prices
prices = record {
  floats = whole;
  inverse = λ p. p;
  max = λ a b. a;
  bid_width = λ p. p;
  ask_width = λ p. p;
  bid_scale = 1;
  ask_scale = 1;
  raise = λ p a b. p + 1;
  btc_rdg_starting = 1;
}

abbrev party : Party
party = record {
  prices = prices;
  addresses = record {
    to_bitcoin_address = λ k. ok (3 ∷ []);
    from_utf8 = λ b. ok b;
    address_to_str = λ b. b;
  };
  key_address = alice;
  party_public_key = record { bytes = some (6 ∷ []); key_type = 0 };
  seeds = [];
}

abbrev start : PartyEvents toy party
start = record {
  events = [];
  balance_map = [];
  unfulfilled_deposits = [];
  unfulfilled_withdrawals = [];
  price = 1;
  bid_ask = record { bids = []; asks = record { price = 2; volume = 3000 } ∷ []; center_price = 1 };
  unconfirmed_events = [];
  fulfillment_history = [];
}

-- 7000 arrive and 1000 are paid; a third payment is not confirmed.
abbrev paid_in : ExternalTimedTransaction
paid_in = record {
  tx_id = 1 ∷ [];
  timestamp = some 5;
  other_address = 9 ∷ [];
  other_output_addresses = [];
  amount = 7000;
  incoming = true;
  currency = bitcoin;
}

abbrev paid_out : ExternalTimedTransaction
paid_out = record paid_in { tx_id = 2 ∷ []; amount = 100; incoming = false }

abbrev history : List AddressEvent
history =
    external paid_in
    ∷ external paid_out
    ∷ external (record paid_out { tx_id = 4 ∷ []; timestamp = none })
    ∷ []

-- What the run gives, with the order that the deposit made.
abbrev result : PartyEvents toy party
result = elim (process_events toy party history start) [
  | ok q ↦ q
  | err e ↦ start
  | panic m ↦ start
]

process_events-balance_example :
    balance_of toy party bitcoin result
    ≡ sum_from (balance_of toy party bitcoin start) (filter_map (moved toy party bitcoin) history)
unfolding process_events process_event process_confirmed_event process_external process_deposit
    process_receipt settle_withdrawals retained fulfilled remove_unconfirmed_event requote time
    other_address_typed fulfill_taker_order take_levels generate_default generate moved_price
    balance_of get put add64 sub64 ℕ_discrete finish adjust adjust_levels adjust_one keep_valid
    normalize_volumes rescale_all dust_trigger dust_levels levels sum_volume retain_positive
process_events-balance_example =
    process_events-balance toy party bitcoin history start {q = result} refl

process_events-Tracked_example :
    ((o : _) → Tracked toy party o start → Tracked toy party o result)
    × (tracked toy party start ≤ tracked toy party result)
    × (tracked toy party result ≤ length history + tracked toy party start)
unfolding process_events process_event process_confirmed_event process_external process_deposit
    process_receipt settle_withdrawals retained fulfilled remove_unconfirmed_event requote time
    other_address_typed fulfill_taker_order take_levels generate_default generate moved_price
    balance_of get put add64 sub64 ℕ_discrete finish adjust adjust_levels adjust_one keep_valid
    normalize_volumes rescale_all dust_trigger dust_levels levels sum_volume retain_positive
process_events-Tracked_example = process_events-Tracked toy party history start {q = result} refl

-- A payment in redgold that nobody has observed.
abbrev unseen : TransactionWithObservations
unseen = record { tx = checked; observations = [] }

process_events-unseen_example :
    process_events toy party (history ++ internal unseen ∷ external paid_in ∷ []) start
    ≡ panic "attempt to divide by zero"
unfolding process_events process_event process_confirmed_event process_external process_deposit
    process_receipt settle_withdrawals retained fulfilled remove_unconfirmed_event requote time
    other_address_typed fulfill_taker_order take_levels generate_default generate moved_price
    balance_of get put add64 sub64 ℕ_discrete finish adjust adjust_levels adjust_one keep_valid
    normalize_volumes rescale_all dust_trigger dust_levels levels sum_volume retain_positive
process_events-unseen_example =
    process_events-unseen toy party history (external paid_in ∷ []) unseen start {q = result} refl
      refl

orders-unpaid_example :
    IsSorted (order_time toy party) (orders toy party result)
    × ((o : _)
        → Elem o (orders toy party result)
        → UnpaidDeposit toy party result o ⊎ UnpaidWithdrawal toy party result o)
orders-unpaid_example = orders-unpaid toy party result
