-- ===== src/Market.antt =====
-- src/multiparty/watcher.rs: the price curve of the party's market. Floating point is a parameter: the
-- price type and the roundings to an integer that the code makes of it.

pub mod Volumes
pub mod Units
pub mod Quotes
use redgold.Prelude.{
  ℕ, suc, ◌+◌, zero, ◌-◌, ◌*◌, ◌/◌, Bool, true, false, Option, none, some, List, [], ◌∷◌, ◌++◌, I64,
  add64, sub64, is_positive, is_negative, Result, ok, err, panic, ◌>>=◌, ◌>>◌, ◌==◌, ltb, leb, not,
  ◌&&◌, ◌||◌, if◌then◌else◌, map, any, length, take,
}
use redgold.Structs.{Address, Message}

pub record PriceVolume (F : Type 0) : Type 0 where
  pub price : F
  pub volume : ℕ

abbrev pub dust_limit : ℕ
dust_limit = 2500

-- `iter().map(|v| v.volume).sum::<u64>()`, which wraps: the order of the summands makes no difference.
unfoldable pub sum_volume : {F : Type 0} → List (PriceVolume F) → ℕ
sum_volume [] = 0
sum_volume (v ∷ vs) = add64 v.volume (sum_volume vs)

-- `retain(|v| v.volume > 0)`
unfoldable pub retain_positive : {F : Type 0} → List (PriceVolume F) → List (PriceVolume F)
retain_positive [] = []
retain_positive (v ∷ vs) = if ltb 0 v.volume then v ∷ retain_positive vs else retain_positive vs

pub record OrderFulfillment (F : Type 0) : Type 0 where
  pub order_amount : ℕ
  pub fulfilled_amount : ℕ
  pub updated_curve : List (PriceVolume F)
  pub is_ask_fulfillment_from_external_deposit : Bool
  pub event_time : I64
  pub tx_id_ref : Option Message
  pub destination : Address

pub record BidAsk (F : Type 0) : Type 0 where
  pub bids : List (PriceVolume F)
  pub asks : List (PriceVolume F)
  pub center_price : F

-- The float operations: `quote` is `(amount as f64 / price) as u64`, `cost` is
-- `(volume as f64 * price) as u64`, `rescale` is the rounded share of a volume, and `level` gives the
-- price and the first volume at an index, or nothing where the price is not a positive number.
pub record Floats : Type 1 where
  pub F : Type 0
  pub quote : ℕ → F → ℕ
  pub cost : ℕ → F → ℕ
  pub rescale : ℕ → ℕ → ℕ → ℕ
  pub level : ℕ → F → ℕ → F → F → ℕ → Option (F × ℕ)

-- `price_volumes.iter_mut().any(|pv| pv.volume < DUST_LIMIT)`, as a flag that is set in a loop.
unfoldable pub dust_trigger : {F : Type 0} → List (PriceVolume F) → Bool
dust_trigger [] = false
dust_trigger (v ∷ vs) = ltb v.volume dust_limit || dust_trigger vs

-- The first `divs` levels at the dust limit.
unfoldable pub dust_levels : {F : Type 0} → ℕ → List (PriceVolume F) → List (PriceVolume F)
dust_levels zero vs = []
dust_levels (suc n) [] = []
dust_levels (suc n) (v ∷ vs) = record { price = v.price; volume = dust_limit } ∷ dust_levels n vs

-- The body of the loop that hands out the difference by single units, behind the test for the break:
-- the adjustment that is left, an `i64`, and the level.
unfoldable pub adjust_one : {F : Type 0} → I64 → PriceVolume F → I64 × PriceVolume F
adjust_one adjustment v =
    if is_positive adjustment && ltb 0 v.volume
    then (sub64 adjustment 1, record v { volume = add64 v.volume 1 })
    else if is_negative adjustment && ltb 1 v.volume
    then (add64 adjustment 1, record v { volume = v.volume - 1 })
    else (adjustment, v)

unfoldable pub adjust_levels : {F : Type 0} → I64 → List (PriceVolume F) → List (PriceVolume F)
adjust_levels adjustment [] = []
adjust_levels adjustment (v ∷ vs) =
    let next = adjust_one adjustment v in
    let rest = adjust_levels next.0 vs in if adjustment == 0 then v ∷ vs else next.1 ∷ rest

-- `available_volume as i64 - adjusted_total_volume as i64`: the casts keep the bits, the difference wraps.
unfoldable pub adjust : {F : Type 0} → ℕ → List (PriceVolume F) → List (PriceVolume F)
adjust available vs = adjust_levels (sub64 available (sum_volume vs)) vs

-- The levels that are kept at the end.
unfoldable pub keep_valid : {F : Type 0} → ℕ → List (PriceVolume F) → List (PriceVolume F)
keep_valid available [] = []
keep_valid available (v ∷ vs) =
    if v.volume == 0 || ltb available v.volume
    then keep_valid available vs
    else v ∷ keep_valid available vs

-- The end of `generate`, from the normalised levels on; the `assert!` panics.
unfoldable pub finish : {F : Type 0} → ℕ → List (PriceVolume F) → Result (List (PriceVolume F))
finish available vs =
    let adjusted = adjust available vs in
    if leb (sum_volume adjusted) available
    then ok (keep_valid available adjusted)
    else panic "Total volume should equal available volume or be less than"

module _ (f : Floats) where
  open f use {F, quote, cost, rescale, level}

  unfoldable pub rescale_all : ℕ → ℕ → List (PriceVolume F) → List (PriceVolume F)
  rescale_all total available =
      map (λ (v : PriceVolume F). record v { volume = rescale v.volume total available })

  unfoldable pub normalize_volumes : ℕ → List (PriceVolume F) → List (PriceVolume F)
  normalize_volumes available vs =
      let scaled = rescale_all (sum_volume vs) available vs in
      if dust_trigger scaled then dust_levels (available / dust_limit) scaled else scaled

  -- `for i in 0..divisions`, from index `i` on, with `n` rounds left.
  unfoldable pub levels : ℕ → F → ℕ → F → F → ℕ → ℕ → List (PriceVolume F)
  levels available center divisions width scale i zero = []
  levels available center divisions width scale i (suc n) =
      elim (level available center divisions width scale i) [
        | none ↦ levels available center divisions width scale (i + 1) n
        | some (p, v) ↦
            record { price = p; volume = v }
            ∷ levels available center divisions width scale (i + 1) n
      ]

  unfoldable pub generate : ℕ → F → ℕ → F → F → Result (List (PriceVolume F))
  generate available center divisions width scale =
      if ltb available dust_limit
      then ok []
      else finish available
          (normalize_volumes available (levels available center divisions width scale 0 divisions))

  -- The loop of `fulfill_taker_order`: what is fulfilled, and the changed curve.
  unfoldable pub take_levels : ℕ → ℕ → List (PriceVolume F) → ℕ × List (PriceVolume F)
  take_levels remaining fulfilled [] = (fulfilled, [])
  take_levels remaining fulfilled (v ∷ vs) =
      let requested = quote remaining v.price in
      let (total, rest) =
        take_levels (sub64 remaining (cost v.volume v.price)) (add64 fulfilled v.volume) vs in
      if leb v.volume requested
      then (total, record v { volume = 0 } ∷ rest)
      else (add64 fulfilled requested, record v { volume = v.volume - requested } ∷ vs)

  unfoldable pub fulfill_taker_order :
      BidAsk F → ℕ → Bool → I64 → Option Message → Address → Option (OrderFulfillment F)
  fulfill_taker_order b order_amount is_ask event_time tx_id destination =
      let (fulfilled, curve) = take_levels order_amount 0 (if is_ask then b.asks else b.bids) in
      if ltb fulfilled dust_limit
      then none
      else some (record {
        order_amount = order_amount;
        fulfilled_amount = fulfilled;
        updated_curve = retain_positive curve;
        is_ask_fulfillment_from_external_deposit = is_ask;
        event_time = event_time;
        tx_id_ref = tx_id;
        destination = destination;
      })
