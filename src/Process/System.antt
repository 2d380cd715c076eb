-- ===== src/Process/System.antt =====
-- All requests of a node: in any order, one of them runs to its next wait.
use redgold.Prelude.{ℕ, zero, suc, List, [], ◌∷◌}
use redgold.Crypto.{Crypto}
use redgold.Process.Handler.{Services, Request, Node, Event, advance}

-- Who runs, and whether its time to wait has run out.
abbrev pub Schedule : Type 0
Schedule = List (Event × ℕ)

module _ (c : Crypto) {S : Type 0} (env : Services S) where
  unfoldable pub step : Event → ℕ → Node S → List Request → Node S × List Request
  step e i n [] = (n, [])
  step e zero n (r ∷ rs) = let (m, q) = advance c env e r.stage n r in (m, q ∷ rs)
  step e (suc i) n (r ∷ rs) = let (m, qs) = step e i n rs in (m, r ∷ qs)

  unfoldable pub run : Schedule → Node S → List Request → Node S × List Request
  run [] n rs = (n, rs)
  run ((e, i) ∷ es) n rs = let (m, qs) = step e i n rs in run es m qs
