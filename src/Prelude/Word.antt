-- ===== src/Prelude/Word.antt =====
-- `i64` and `u64` as bit patterns: a number below 2 ^ 64. A release build wraps on overflow, so sums
-- and differences are taken modulo 2 ^ 64; the top half of the patterns stands for the negative values.
use Prim.Native.Nat.{ℕ, ◌+◌, ◌-◌, ◌%◌, ◌^◌, ◌<◌}
use mathlib.Core.Path.{◌≡◌}
use mathlib.Core.Bool.{Bool, ◌&&◌}
use native.Mathlib.Omega.{arith}
use redgold.Prelude.Tests.{ltb, leb}

abbrev pub I64 : Type 0
I64 = ℕ

abbrev pub IsWord : ℕ → Type 0
IsWord a = a < 2 ^ 64

unfoldable pub add64 : I64 → I64 → I64
add64 a b = (a + b) % 2 ^ 64

unfoldable pub sub64 : I64 → I64 → I64
sub64 a b = (a + 2 ^ 64 - b) % 2 ^ 64

abbrev pub is_negative : I64 → Bool
is_negative a = leb (2 ^ 63) a

-- `a > 0`.
abbrev pub is_positive : I64 → Bool
is_positive a = ltb 0 a && ltb a (2 ^ 63)

-- `a < b` on signed values: both are moved up by 2 ^ 63.
unfoldable pub slt : I64 → I64 → Bool
slt a b = ltb ((a + 2 ^ 63) % 2 ^ 64) ((b + 2 ^ 63) % 2 ^ 64)

pub add64-IsWord : (a b : I64) → IsWord (add64 a b)
unfolding add64
add64-IsWord a b = omega arith

pub sub64-IsWord : (a b : I64) → IsWord (sub64 a b)
unfolding sub64
sub64-IsWord a b = omega arith

pub add64_zero : (a : I64) → IsWord a → add64 0 a ≡ a
unfolding add64
add64_zero a h = omega arith

pub add64_comm : (a b : I64) → add64 a b ≡ add64 b a
unfolding add64
add64_comm a b = omega arith

pub add64_assoc : (a b c : I64) → add64 (add64 a b) c ≡ add64 a (add64 b c)
unfolding add64
add64_assoc a b c = omega arith

pub sub64-add64 : (a b c : I64) → IsWord b → IsWord c → sub64 a b ≡ c → IsWord a → a ≡ add64 b c
unfolding add64 sub64
sub64-add64 a b c hb hc e ha = omega arith

-- Adding the missing difference closes a balance.
pub add64_balance : (a b : I64) → IsWord a → IsWord b → a ≡ add64 b (sub64 a b)
unfolding add64 sub64
add64_balance a b ha hb = omega arith

pub sub64_eq : (a b : I64) → IsWord a → IsWord b → sub64 a b ≡ 0 → a ≡ b
unfolding sub64
sub64_eq a b ha hb e = omega arith

-- An amount and its negation cancel out.
pub add64_cancel : (a b : I64) → IsWord a → IsWord b → add64 (add64 a b) (sub64 0 b) ≡ a
unfolding add64 sub64
add64_cancel a b ha hb = omega arith
