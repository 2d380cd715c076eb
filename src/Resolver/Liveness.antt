-- ===== src/Resolver/Liveness.antt =====
-- What a resolved input guarantees (src/core/resolver.rs).
use redgold.Prelude.{◌≤◌, ◌<◌, ◌≡◌, ◌⊎◌, true, none, some, List, [], ◌∷◌, ok, All, length, map}
use redgold.Structs.{Input}
use redgold.Crypto.{Crypto}
use redgold.Resolver.{ResolvedInput, verify_proof}

-- The output is unspent as far as the node knows: by its own store, or by observations of the parent
-- and the peers, of which no more call it spent than unspent.
abbrev pub IsLive : ResolvedInput → Type 0
IsLive r =
    ((r.internal_accepted ≡ true) × (r.internal_valid_index ≡ true))
    ⊎ ((0 < length r.observation_proofs)
        × (length r.peer_invalid_index ≤ length r.peer_valid_index)
        × ((r.internal_valid_index ≡ true) ⊎ (0 < length r.peer_valid_index)))

-- The inputs that name the output they spend: those without a floating id.
unfoldable pub fixed_inputs : List Input → List Input
fixed_inputs [] = []
fixed_inputs (i ∷ is) = elim i.floating_utxo_id [
  | none ↦ i ∷ fixed_inputs is
  | some f ↦ fixed_inputs is
]

module _ (c : Crypto) where
  abbrev Holds : Input → ResolvedInput → Type 0
  Holds i r = (r.input ≡ i) × (verify_proof c r ≡ ok tt) × IsLive r

  -- The resolutions are those of the fixed inputs, one for each in order, and all are live.
  abbrev AllLive : List Input → List ResolvedInput → Type 0
  AllLive is rs =
      (map (λ (r : ResolvedInput). r.input) rs ≡ fixed_inputs is)
      × All (λ r. (verify_proof c r ≡ ok tt) × IsLive r) rs
