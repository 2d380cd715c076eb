-- ===== src/RgMerkle/Root.antt =====
-- Which leafs the root of src/util/rg_merkle.rs depends on.
use redgold.Prelude.{
  ℕ, zero, suc, ◌+◌, ◌*◌, ◌%◌, ◌≡◌, refl, sym, ap, ◌∙◌, true, Option, some, List, [], ◌∷◌, ◌++◌,
  length, arith, ltb, ◌==◌, if◌then◌else◌, Result,
}
use redgold.Structs.{Bytes}
use redgold.RgMerkle.{TempMerkleNode, Built, round, carry, loop, build_root}

module _ (dhash : Bytes → Bytes) (merge_hash : Bytes → Bytes → Bytes) where
  round-append :
      (n : ℕ) (xs : List Bytes) (y : Bytes)
      → length xs ≡ n + n
      → (round dhash merge_hash (xs ++ y ∷ [])
          ≡ ((round dhash merge_hash xs).0, some y, (round dhash merge_hash xs).2))
        × (length (round dhash merge_hash xs).0 ≡ n)
  unfolding round
  round-append zero [] y h = (refl, refl)
  round-append (suc n) [] y h = absurd (omega arith)
  round-append n (x ∷ []) y h = absurd (omega arith)
  round-append zero (x ∷ w ∷ xs) y h = absurd (omega arith)
  round-append (suc n) (x ∷ w ∷ xs) y h =
      let (e, l) = round-append n xs y (omega arith) in
      (
        ap
            (λ (r : List Bytes × Option Bytes × List TempMerkleNode). (
              merge_hash x w ∷ r.0,
              r.1,
              record { parent = merge_hash x w; left = x; right = w } ∷ r.2,
            ))
            e,
        ap suc l,
      )

  -- One turn of the loop, on what the round gave.
  abbrev turn :
      ℕ
      → List Bytes
      → List TempMerkleNode
      → List Bytes × Option Bytes × List TempMerkleNode
      → Option (Result (Built dhash merge_hash))
  turn fuel inter nodes (ps, rest, made) =
      loop dhash merge_hash fuel (carry dhash merge_hash ps rest)
        (if ltb 1 (length (carry dhash merge_hash ps rest)) then inter ++ ps else inter)
        (nodes ++ made)

  carry-even :
      (ps : List Bytes) (r : Bytes)
      → (length ps % 2 == 0) ≡ true
      → carry dhash merge_hash ps (some r) ≡ ps
  carry-even ps r e = rw e

  turn_even :
      (fuel : ℕ) (ps : List Bytes) (nodes : List TempMerkleNode) (y z : Bytes)
      → (length ps % 2 == 0) ≡ true
      → turn fuel [] [] (ps, some y, nodes) ≡ turn fuel [] [] (ps, some z, nodes)
  turn_even fuel ps nodes y z e = rw e

  even : (n k : ℕ) → n ≡ 2 * k → (n % 2 == 0) ≡ true
  even n k h = ground arith

  -- With one leaf more than a multiple of four, and at least five, the last leaf has no influence on
  -- what is built: its hash is in no node and not in the root.
  pub build_root_drops_last :
      (fuel k : ℕ) (xs : List Bytes) (y z : Bytes)
      → length xs ≡ 4 * suc k
      → build_root dhash merge_hash fuel (xs ++ y ∷ [])
        ≡ build_root dhash merge_hash fuel (xs ++ z ∷ [])
  unfolding build_root loop
  build_root_drops_last fuel k [] y z h = absurd (omega arith)
  build_root_drops_last fuel k (x ∷ []) y z h = absurd (omega arith)
  build_root_drops_last zero k (x ∷ w ∷ xs) y z h = refl
  build_root_drops_last (suc fuel) k (x ∷ w ∷ xs) y z h =
      let (e, l) = round-append (2 * suc k) (x ∷ w ∷ xs) y (omega arith) in
      let (f, _) = round-append (2 * suc k) (x ∷ w ∷ xs) z (omega arith) in
      ap (turn fuel [] []) e
      ∙ turn_even fuel (round dhash merge_hash (x ∷ w ∷ xs)).0
          (round dhash merge_hash (x ∷ w ∷ xs)).2 y z (even _ (suc k) l)
      ∙ sym (ap (turn fuel [] []) f)
