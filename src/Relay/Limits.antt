-- ===== src/Relay/Limits.antt =====
-- The rate limit of the faucet (src/core/relay.rs). An `Instant` is its nanoseconds, and `duration_since`
-- stops at 0; the poisoning of the mutex is left out.
use redgold.Prelude.{
  ℕ, suc, ◌+◌, ◌-◌, ◌*◌, ◌/◌, ◌≤◌, ◌≡◌, refl, sym, ◌∙◌, subst, inl, inr, Bool, true, false,
  Bool-cases, Option, none, some, List, [], ◌∷◌, All, length, test, arith, ltb, leb, Result, ok,
  err, panic, error_info, if◌then◌else◌, leb→le, true≢false, holds→test, test→holds,
}
use redgold.Structs.{Bytes}
use redgold.Proofs.{Bytes-discrete}
use redgold.Assoc.{get, put, get-put_self, get-put_other}

-- By address, when it last asked and was let through, and how often.
abbrev pub Limiter : Type 0
Limiter = List (Bytes × (ℕ × ℕ))

abbrev pub day_seconds : ℕ
day_seconds = 86400

abbrev pub second : ℕ
second = 1000000000

abbrev pub limit_entry : ℕ → Bytes → Option (ℕ × ℕ) → Limiter → Limiter × Bool
limit_entry now ip none l = (put Bytes-discrete ip (now, 0) l, true)
limit_entry now ip (some (v, count)) l =
    if ltb day_seconds ((now - v) / second)
    then (put Bytes-discrete ip (now, 1) l, true)
    else if ltb 30 count
    then (l, false)
    else (put Bytes-discrete ip (now, count + 1) l, true)

unfoldable pub check_rate_limit : ℕ → Bytes → Limiter → Result (Limiter × Bool)
check_rate_limit now ip l =
    if ltb 1000000 (length l)
    then err (error_info "Faucet rate limiter has exceeded 1 million entries, this is a problem")
    else ok (limit_entry now ip (get Bytes-discrete ip l) l)

-- How many of the calls, each an address and a time, let `ip` through.
unfoldable pub admitted : Bytes → List (Bytes × ℕ) → Limiter → ℕ
admitted ip [] l = 0
admitted ip ((j, now) ∷ calls) l = elim (check_rate_limit now j l) [
  | ok done ↦
      let rest = admitted ip calls done.0 in
      if test (Bytes-discrete j ip) then (if done.1 then suc rest else rest) else rest
  | err e ↦ admitted ip calls l
  | panic m ↦ admitted ip calls l
]

-- How many more calls the entry of an address allows up to a day after `start`.
budget : ℕ → Option (ℕ × ℕ) → ℕ
budget start none = 32
budget start (some (v, count)) = if leb start v then 31 - count else 31

within_day :
    (start v now : ℕ)
    → start ≤ v
    → now ≤ start + day_seconds * second
    → ltb day_seconds ((now - v) / second) ≡ false
within_day start v now h k = small ((now - v) / second) (omega (arith, h, k))
  where
    small : (a : ℕ) → a ≤ day_seconds → ltb day_seconds a ≡ false
    small a h = ground arith

leb_of_le : (a b : ℕ) → a ≤ b → leb a b ≡ true
leb_of_le a b h = ground arith

one_less :
    (b : Bool) (count : ℕ)
    → ltb 30 count ≡ false
    → suc (31 - (count + 1)) ≤ (if b then 31 - count else 31)
one_less true count h = ground arith
one_less false count h = ground arith

budget_bound : (start : ℕ) (o : Option (ℕ × ℕ)) → budget start o ≤ 32
unfolding budget
budget_bound start none = omega arith
budget_bound start (some (v, count)) = elim (Bool-cases (leb start v)) [
  | inl t ↦ rw t (omega arith)
  | inr f ↦ rw f (omega arith)
]

paid :
    (b : Bool) (rest new all : ℕ)
    → rest ≤ new
    → (if b then suc new else new) ≤ all
    → (if b then suc rest else rest) ≤ all
paid true rest new all h k = omega (arith, h, k)
paid false rest new all h k = omega (arith, h, k)

-- An entry pays for what it lets through.
limit_entry-pays :
    (start now : ℕ) (ip : Bytes) (o : Option (ℕ × ℕ)) (l : Limiter)
    → get Bytes-discrete ip l ≡ o
    → start ≤ now
    → now ≤ start + day_seconds * second
    → (if (limit_entry now ip o l).1
        then suc (budget start (get Bytes-discrete ip (limit_entry now ip o l).0))
        else budget start (get Bytes-discrete ip (limit_entry now ip o l).0))
      ≤ budget start o
unfolding budget
limit_entry-pays start now ip none l g h k =
    rw (get-put_self Bytes-discrete ip (now, 0) l, leb_of_le start now h) (omega arith)
limit_entry-pays start now ip (some (v, count)) l g h k =
    elim (Bool-cases (ltb day_seconds ((now - v) / second))) [
      | inl late ↦ elim (Bool-cases (leb start v)) [
        | inl after_start ↦
            absurd (true≢false (sym late ∙ within_day start v now (leb→le start v after_start) k))
        | inr older ↦
            rw (late, get-put_self Bytes-discrete ip (now, 1) l, leb_of_le start now h, older)
              (omega arith)
      ]
      | inr soon ↦ elim (Bool-cases (ltb 30 count)) [
        | inl over ↦ rw (soon, over, g) (omega arith)
        | inr under ↦
            rw
              (
                soon,
                under,
                get-put_self Bytes-discrete ip (now, count + 1) l,
                leb_of_le start now h,
              )
              (one_less (leb start v) count under)
      ]
    ]

limit_entry-other :
    (now : ℕ) (j ip : Bytes) (o : Option (ℕ × ℕ)) (l : Limiter)
    → ¬ (j ≡ ip)
    → get Bytes-discrete ip (limit_entry now j o l).0 ≡ get Bytes-discrete ip l
limit_entry-other now j ip none l n = get-put_other Bytes-discrete j ip (now, 0) l n
limit_entry-other now j ip (some (v, count)) l n =
    elim (Bool-cases (ltb day_seconds ((now - v) / second))) [
      | inl late ↦ rw late (get-put_other Bytes-discrete j ip (now, 1) l n)
      | inr soon ↦ elim (Bool-cases (ltb 30 count)) [
        | inl over ↦ rw (soon, over) refl
        | inr under ↦ rw (soon, under) (get-put_other Bytes-discrete j ip (now, count + 1) l n)
      ]
    ]

admitted-budget :
    (ip : Bytes) (start : ℕ) (calls : List (Bytes × ℕ)) (l : Limiter)
    → All (λ (x : Bytes × ℕ). (start ≤ x.1) × (x.1 ≤ start + day_seconds * second)) calls
    → admitted ip calls l ≤ budget start (get Bytes-discrete ip l)
unfolding admitted check_rate_limit
admitted-budget ip start [] l h = omega arith
admitted-budget ip start ((j, now) ∷ calls) l h = elim (Bool-cases (ltb 1000000 (length l))) [
  | inl crowded ↦ rw (admitted, check_rate_limit, crowded) (admitted-budget ip start calls l h.1)
  | inr fine ↦ elim (Bool-cases (test (Bytes-discrete j ip))) [
    | inr n ↦
        rw (admitted, check_rate_limit, fine, n)
          (subst
            (λ o.
              admitted ip calls (limit_entry now j (get Bytes-discrete j l) l).0 ≤ budget start o)
            (limit_entry-other now j ip (get Bytes-discrete j l) l
              (λ e. true≢false (sym (holds→test (Bytes-discrete j ip) e) ∙ n)))
            (admitted-budget ip start calls (limit_entry now j (get Bytes-discrete j l) l).0 h.1))
    | inl y ↦
        subst (λ i. admitted i ((j, now) ∷ calls) l ≤ budget start (get Bytes-discrete i l))
          (test→holds (Bytes-discrete j ip) y)
          (rw (admitted, check_rate_limit, fine, holds→test (Bytes-discrete j j) refl)
            (paid (limit_entry now j (get Bytes-discrete j l) l).1 _ _ _
              (admitted-budget j start calls (limit_entry now j (get Bytes-discrete j l) l).0 h.1)
              (limit_entry-pays start now j (get Bytes-discrete j l) l refl h.0.0 h.0.1)))
  ]
]

-- Whatever asked before, and whoever asks beside, an address is let through at most 32 times in the
-- calls of one day.
pub admitted_bound :
    (ip : Bytes) (start : ℕ) (calls : List (Bytes × ℕ)) (l : Limiter)
    → All (λ (x : Bytes × ℕ). (start ≤ x.1) × (x.1 ≤ start + day_seconds * second)) calls
    → admitted ip calls l ≤ 32
admitted_bound ip start calls l h =
    omega (arith, admitted-budget ip start calls l h, budget_bound start (get Bytes-discrete ip l))
