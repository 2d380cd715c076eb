-- ===== src/Market/Units.antt =====
-- The units that a new curve hands out, and its assertion (src/multiparty/watcher.rs).
use Prim.Native.Nat.{min}
use redgold.Prelude.{ℕ, ◌+◌, ◌-◌, List, [], ◌∷◌, ltb, if◌then◌else◌}
use redgold.Market.{PriceVolume}
use redgold.Market.Volumes.{total_volume}

-- How many levels have a volume above `n`.
unfoldable pub levels_above : {F : Type 0} → ℕ → List (PriceVolume F) → ℕ
levels_above n [] = 0
levels_above n (v ∷ vs) = (if ltb n v.volume then 1 else 0) + levels_above n vs

-- What the units should make of the total: one more for each level that has any volume until nothing is
-- missing, or one less for each level above one until nothing is over.
unfoldable pub adjusted_total : {F : Type 0} → ℕ → List (PriceVolume F) → ℕ
adjusted_total available vs =
    if ltb (total_volume vs) available
    then total_volume vs + min (available - total_volume vs) (levels_above 0 vs)
    else total_volume vs - min (total_volume vs - available) (levels_above 1 vs)
