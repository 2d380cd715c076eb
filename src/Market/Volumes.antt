-- ===== src/Market/Volumes.antt =====
-- What an order takes from the curve and what stays on it (src/multiparty/watcher.rs).
use redgold.Prelude.{
  ℕ, ◌+◌, ◌≤◌, ◌<◌, ◌^◌, ◌≡◌, refl, ap, ◌∙◌, inl, inr, Bool, Option, some, List, [], ◌∷◌, I64,
  add64, sub64, arith, All, ltb, if◌then◌else◌, Bool-cases, none≢some, some_inj, subst,
}
use redgold.Structs.{Address, Message}
use redgold.Market.{
  PriceVolume, sum_volume, retain_positive, OrderFulfillment, BidAsk, Floats, take_levels,
  fulfill_taker_order, dust_limit,
}

-- The volume of a curve as a number that does not wrap.
unfoldable pub total_volume : {F : Type 0} → List (PriceVolume F) → ℕ
total_volume [] = 0
total_volume (v ∷ vs) = v.volume + total_volume vs

-- The sum of the code is right as long as it fits into 64 bits.
pub sum-total_volume :
    {F : Type 0} (vs : List (PriceVolume F))
    → total_volume vs < 2 ^ 64
    → sum_volume vs ≡ total_volume vs
unfolding sum_volume total_volume add64
sum-total_volume [] h = refl
sum-total_volume (v ∷ vs) h = omega (arith, sum-total_volume vs (omega arith))

total-retain_positive :
    {F : Type 0} (vs : List (PriceVolume F)) → total_volume (retain_positive vs) ≡ total_volume vs
unfolding total_volume retain_positive
total-retain_positive [] = refl
total-retain_positive (v ∷ vs) = ground (arith, total-retain_positive vs)

retain_positive-All :
    {F : Type 0} (vs : List (PriceVolume F)) → All (λ v. 0 < v.volume) (retain_positive vs)
unfolding retain_positive
retain_positive-All [] = tt
retain_positive-All (v ∷ vs) = ground (arith, retain_positive-All vs)

module _ (f : Floats) where
  open f use {F}

  take_levels_conserves :
      (remaining fulfilled : ℕ) (vs : List (PriceVolume F))
      → fulfilled + total_volume vs < 2 ^ 64
      → (take_levels f remaining fulfilled vs).0
          + total_volume (take_levels f remaining fulfilled vs).1
        ≡ fulfilled + total_volume vs
  unfolding take_levels total_volume add64
  take_levels_conserves remaining fulfilled [] h = refl
  take_levels_conserves remaining fulfilled (v ∷ vs) h =
      let fits : add64 fulfilled v.volume ≡ fulfilled + v.volume = omega arith in
      ground (
        arith,
        fits,
        take_levels_conserves (sub64 remaining (f.cost v.volume v.price)) (add64 fulfilled v.volume)
            vs (omega (arith, fits)),
      )

  -- An order takes from the side of the curve that it addresses exactly what it is given, leaves no
  -- empty level behind, and is never below the dust limit, if the volume of that side fits into 64 bits.
  pub fulfill_taker_order_conserves :
      (b : BidAsk F) (order_amount : ℕ) (is_ask : Bool) (time : I64) (tx : Option Message)
      (a : Address) (o : OrderFulfillment F)
      → total_volume (if is_ask then b.asks else b.bids) < 2 ^ 64
      → fulfill_taker_order f b order_amount is_ask time tx a ≡ some o
      → (o.fulfilled_amount + total_volume o.updated_curve
          ≡ total_volume (if is_ask then b.asks else b.bids))
        × All (λ v. 0 < v.volume) o.updated_curve
        × (dust_limit ≤ o.fulfilled_amount)
  unfolding fulfill_taker_order
  fulfill_taker_order_conserves b n is_ask time tx a o fits e =
      let side = if is_ask then b.asks else b.bids in
      elim (Bool-cases (ltb (take_levels f n 0 side).0 dust_limit)) [
        | inl t ↦ absurd (none≢some (rw t at e))
        | inr m ↦
            subst
              (λ p.
                (p.fulfilled_amount + total_volume p.updated_curve ≡ total_volume side)
                × All (λ v. 0 < v.volume) p.updated_curve
                × (dust_limit ≤ p.fulfilled_amount))
              (some_inj (rw m at e))
              (
                ap (λ (t : ℕ). (take_levels f n 0 side).0 + t)
                      (total-retain_positive (take_levels f n 0 side).1)
                    ∙ take_levels_conserves n 0 side (omega (arith, fits))
                    ∙ omega arith,
                retain_positive-All (take_levels f n 0 side).1,
                ground arith,
              )
      ]
