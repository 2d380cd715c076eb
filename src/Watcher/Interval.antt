-- ===== src/Watcher/Interval.antt =====
-- src/multiparty/watcher.rs: a tick of the deposit watcher over its stored configuration, and the repair of one
-- that an earlier version stored. The stores and the price of bitcoin are parameters; so are the first
-- round of key generation and the wallet that is opened for it.
use redgold.Prelude.{
  ℕ, Bool, false, Option, none, some, List, [], ◌∷◌, filter_map, bind?, map?, is_positive, Result,
  ok, err, panic, after, attempt, or_else, if◌then◌else◌,
}
use redgold.Structs.{PublicKey}
use redgold.Crypto.{Crypto}
use redgold.Market.{PriceVolume, BidAsk}
use redgold.Market.Quotes.{regenerate}
use redgold.Multiparty.Rounds.{Node}
use redgold.Party.{from_struct_public}
use redgold.Party.Stream.{Party, Rate}
use redgold.Watcher.{
  Services, DepositKeyAllocation, PartyId, party_id, CurveUpdateResult, process_requests_new,
}

pub record DepositWatcherConfig (F : Type 0) : Type 0 where
  pub deposit_allocations : List DepositKeyAllocation
  pub bid_ask : BidAsk F
  pub last_btc_timestamp : ℕ
  pub ask_bid_code_reset : Option Bool

pub record PriceVolumeBroken (F : Type 0) : Type 0 where
  pub price : Option F
  pub volume : Option ℕ

pub record BidAskBroken (F : Type 0) : Type 0 where
  pub bids : List (PriceVolumeBroken F)
  pub asks : List (PriceVolumeBroken F)
  pub center_price : F

pub record DepositWatcherConfigBroken (F : Type 0) : Type 0 where
  pub deposit_allocations : List DepositKeyAllocation
  pub bid_ask : BidAskBroken F
  pub last_btc_timestamp : ℕ
  pub ask_bid_code_reset : Option Bool

-- The level, if it has a price and a volume.
unfoldable pub repaired_level : {F : Type 0} → PriceVolumeBroken F → Option (PriceVolume F)
repaired_level v = bind? v.price λ p. map? (λ n. record { price = p; volume = n }) v.volume

unfoldable pub repaired : {F : Type 0} → F → DepositWatcherConfigBroken F → DepositWatcherConfig F
repaired center_price cfg = record {
  deposit_allocations = cfg.deposit_allocations;
  bid_ask = record {
    bids = filter_map repaired_level cfg.bid_ask.bids;
    asks = filter_map repaired_level cfg.bid_ask.asks;
    center_price = center_price;
  };
  last_btc_timestamp = 0;
  ask_bid_code_reset = none;
}

pub record Keeper (S : Type 0) (F : Type 0) : Type 0 where
  pub is_local_debug : Bool
  pub active_nodes : S → Result (Unit {0})
  pub get_deposit_config : S → Result (Option (DepositWatcherConfig F))
  pub get_broken_config : S → Result (Option (DepositWatcherConfigBroken F))
  pub insert_update_json : DepositWatcherConfig F → S → Result S
  -- `get_starting_center_price_rdg_btc_fallback`.
  pub starting_center_price : S → F
  pub add_party_id : PartyId → S → S × Result (Unit {0})
  -- The wallet of the key, new or kept; `none` is not reached.
  pub open_wallet : PublicKey → S → Result S
  -- The branch without a configuration: the first round of key generation.
  pub first_keygen : Node S → Node S × Result (Unit {0})

-- A write to the store.
abbrev pub stored : {S : Type 0} → Node S → Result S → Node S × Result (Unit {0})
stored n (ok s) = (record n { store = s }, ok tt)
stored n (err e) = (n, err e)
stored n (panic m) = (n, panic m)

module _ (c : Crypto) (y : Party) {S : Type 0} (env : Services S) (keep : Keeper S (Rate c y)) where
  abbrev pub Config : Type 0
  Config = DepositWatcherConfig (Rate c y)

  -- Its own errors are dropped by the caller.
  unfoldable pub fix_historical_errors : Node S → Node S × Result (Unit {0})
  fix_historical_errors n = elim (keep.get_deposit_config n.store) [
    | ok cfg ↦ (n, ok tt)
    | panic m ↦ (n, panic m)
    | err e ↦ elim (keep.get_broken_config n.store) [
      | ok (some cfg) ↦
          stored n
            (keep.insert_update_json (repaired (keep.starting_center_price n.store) cfg) n.store)
      | ok none ↦ (n, ok tt)
      | err i ↦ (n, ok tt)
      | panic m ↦ (n, panic m)
    ]
  ]

  -- The curve of a configuration that asks for a reset is made anew.
  unfoldable pub reset_curve : Config → Node S → Node S × Result Config
  reset_curve cfg n =
      if or_else cfg.ask_bid_code_reset false
      then (attempt n
          (regenerate y.prices cfg.bid_ask (keep.starting_center_price n.store)
            (y.prices.inverse (keep.starting_center_price n.store)))
          λ curve.
            let fresh : Config = record cfg { bid_ask = curve; ask_bid_code_reset = some false } in
            after (stored n (keep.insert_update_json fresh n.store)) λ m done. (m, ok fresh))
      else (n, ok cfg)

  -- The result of the payments goes into the configuration; an error of them is only logged.
  abbrev pub keep_update :
      Config → Node S × Result (CurveUpdateResult (Rate c y)) → Node S × Result (Unit {0})
  keep_update cfg (n, ok update) = stored n (
      keep.insert_update_json
        (record cfg {
          last_btc_timestamp = update.updated_btc_timestamp;
          bid_ask = update.updated_bid_ask;
          deposit_allocations = update.updated_allocation ∷ [];
        })
        n.store)
  keep_update cfg (n, err e) = (n, ok tt)
  keep_update cfg (n, panic m) = (n, panic m)

  unfoldable pub update_config : Config → DepositKeyAllocation → Node S → Node S × Result (Unit {0})
  update_config cfg d n =
      after (reset_curve cfg n)
        λ m fresh. keep_update fresh (process_requests_new c y env d fresh.last_btc_timestamp m)

  -- The wallet is asked for its balance, which may fail; the payments need a balance of redgold.
  unfoldable pub watch : Config → DepositKeyAllocation → Node S → Node S × Result (Unit {0})
  watch cfg d n = attempt n (party_id d) λ id.
      let (s, added) = keep.add_party_id id n.store in
      after (record n { store = s }, added)
        λ m done. after (stored m (keep.open_wallet d.key m.store)) λ p opened.
          attempt p (env.get_wallet_balance p.store) λ btc_starting_balance.
            attempt p (from_struct_public c d.key) λ address.
              attempt p (env.get_balance p.store address) λ balance.
                if or_else (map? is_positive balance) false
                then update_config cfg d p
                else (p, ok tt)

  abbrev drop_failure : Node S × Result (Unit {0}) → Node S × Result (Unit {0})
  drop_failure (n, err e) = (n, ok tt)
  drop_failure (n, ok done) = (n, ok tt)
  drop_failure (n, panic m) = (n, panic m)

  abbrev with_config : Option Config → Node S → Node S × Result (Unit {0})
  with_config none n = keep.first_keygen n
  with_config (some cfg) n = elim cfg.deposit_allocations [
    | [] ↦ (n, ok tt)
    | d ∷ ds ↦ watch cfg d n
  ]

  unfoldable pub deposit_interval_fold : Node S → Node S × Result (Unit {0})
  deposit_interval_fold n =
      if keep.is_local_debug
      then (n, ok tt)
      else (attempt n (keep.active_nodes n.store) λ nodes.
          after (drop_failure (fix_historical_errors n))
            λ m fixed. attempt m (keep.get_deposit_config m.store) λ cfg. with_config cfg m)
