-- ===== src/Market/Quotes.antt =====
-- src/multiparty/watcher.rs: the two curves of the market around a price, and how far an order moves it.
-- The float operations that this takes are a parameter.
use redgold.Prelude.{
  ℕ, Option, none, some, [], I64, add64, is_positive, Result, ok, ◌>>=◌, ltb, if◌then◌else◌,
}
use redgold.Market.{BidAsk, OrderFulfillment, Floats, sum_volume, generate}

pub record Prices : Type 1 where
  pub floats : Floats
  -- `1.0 / x`, `f64::max`, the width and the scale of the bids and of the asks.
  pub inverse : floats.F → floats.F
  pub max : floats.F → floats.F → floats.F
  pub bid_width : floats.F → floats.F
  pub ask_width : floats.F → floats.F
  pub bid_scale : floats.F
  pub ask_scale : floats.F
  -- `price * (1.0 + fulfilled as f64 / total as f64)`.
  pub raise : floats.F → ℕ → ℕ → floats.F
  -- `BTC_RDG_STARTING`.
  pub btc_rdg_starting : floats.F

module _ (x : Prices) where
  abbrev pub Price : Type 0
  Price = x.floats.F

  unfoldable pub generate_default : I64 → ℕ → Price → Price → Result (BidAsk Price)
  generate_default available_balance pair_balance last_exchange_price min_ask = do
    bids ←
        (if ltb 0 pair_balance
          then generate x.floats pair_balance last_exchange_price 40
              (x.bid_width last_exchange_price) x.bid_scale
          else ok [])
    asks ←
        (if is_positive available_balance
          then generate x.floats available_balance (x.max (x.inverse last_exchange_price) min_ask)
              40 (x.ask_width (x.max (x.inverse last_exchange_price) min_ask)) x.ask_scale
          else ok [])
    ok (record { bids = bids; asks = asks; center_price = last_exchange_price })

  -- Both branches of `get_btc_per_rdg_starting_min_ask` are the same.
  abbrev pub get_btc_per_rdg_starting_min_ask : I64 → Price
  get_btc_per_rdg_starting_min_ask time = x.btc_rdg_starting

  -- `price * (1.0 + f.fulfillment_fraction())`.
  unfoldable pub moved_price : Price → Option (OrderFulfillment Price) → Price
  moved_price price none = price
  moved_price price (some f) =
      x.raise price f.fulfilled_amount (add64 f.fulfilled_amount (sum_volume f.updated_curve))

  unfoldable pub regenerate : BidAsk Price → Price → Price → Result (BidAsk Price)
  regenerate b price min_ask =
      generate_default (sum_volume b.asks) (sum_volume b.bids) price min_ask
