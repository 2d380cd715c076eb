-- ===== src/Examples/Trading.antt =====
-- A small market, whose prices are whole numbers.
use redgold.Prelude.{
  ℕ, ◌+◌, ◌*◌, ◌/◌, ◌<◌, ◌≤◌, ◌≡◌, refl, true, none, some, List, [], ◌∷◌, All, add64, sub64, ok,
  arith,
}
use redgold.Proofs.{new_raw}
use redgold.Market.{
  PriceVolume, Floats, BidAsk, OrderFulfillment, dust_limit, sum_volume, retain_positive,
  take_levels, fulfill_taker_order, generate, finish, adjust, adjust_levels, adjust_one, keep_valid,
  normalize_volumes, rescale_all, dust_trigger, dust_levels, levels,
}
use redgold.Market.Volumes.{total_volume, fulfill_taker_order_conserves}

abbrev pub whole : Floats
whole = record {
  F = ℕ;
  quote = λ n p. n / p;
  cost = λ n p. n * p;
  rescale = λ v total available. v * available / total;
  level = λ available center divisions width scale i. some (center + i, 10);
}

abbrev curve : BidAsk ℕ
curve = record {
  bids = [];
  asks = record { price = 2; volume = 3000 } ∷ record { price = 3; volume = 4000 } ∷ [];
  center_price = 2;
}

-- 9000 buys the whole first level, and 1000 of the second.
abbrev bought : OrderFulfillment ℕ
bought = record {
  order_amount = 9000;
  fulfilled_amount = 4000;
  updated_curve = record { price = 3; volume = 3000 } ∷ [];
  is_ask_fulfillment_from_external_deposit = true;
  event_time = 0;
  tx_id_ref = none;
  destination = new_raw [];
}

fulfill_taker_order_conserves_example :
    (bought.fulfilled_amount + total_volume bought.updated_curve ≡ total_volume curve.asks)
    × All (λ v. 0 < v.volume) bought.updated_curve
    × (dust_limit ≤ bought.fulfilled_amount)
unfolding fulfill_taker_order take_levels retain_positive add64 sub64 total_volume
fulfill_taker_order_conserves_example =
    fulfill_taker_order_conserves whole curve 9000 true 0 none (new_raw []) bought (omega arith)
      refl

-- Two levels of 4000 out of 8001: a unit is missing.
abbrev two_levels : List (PriceVolume ℕ)
two_levels = record { price = 2; volume = 4000 } ∷ record { price = 3; volume = 4000 } ∷ []

-- The first level gets it.
handed_out :
    generate whole 8001 2 2 0 0
    ≡ ok (record { price = 2; volume = 4001 } ∷ record { price = 3; volume = 4000 } ∷ [])
unfolding generate finish adjust adjust_levels adjust_one add64 sub64 keep_valid normalize_volumes
    rescale_all dust_trigger dust_levels levels sum_volume
handed_out = refl
