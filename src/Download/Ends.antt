-- ===== src/Download/Ends.antt =====
-- The loop over the days ends (src/data/download.rs).
use redgold.Prelude.{
  ℕ, zero, suc, ◌+◌, ◌-◌, ◌*◌, ◌^◌, ◌≤◌, ◌<◌, ◌≡◌, refl, sym, subst, ltb→lt, inl, inr, Bool, true,
  false, Bool-cases, ◌&&◌, some, I64, sub64, slt, arith, ltb, Result, ok, err, panic, Result-cases,
  if◌then◌else◌,
}
use redgold.Structs.{PublicKey}
use redgold.Download.{Services, day, download_all}
use redgold.Download.Rounds.{download_days}

past : (b : Bool) {a : Bool} → a ≡ false → (b && a) ≡ false
past true e = e
past false e = refl

not_early : (cur_end : I64) → ltb cur_end day ≡ false → day ≤ cur_end
not_early cur_end e = ground (arith, e)

module _ {S : Type 0} (env : Services S) where
  -- From the fuel `n` on, the loop ends in one and the same way.
  abbrev pub EndsBy : ℕ → PublicKey → I64 → I64 → ℕ → S → Type 0
  EndsBy n key min_time cur_end no_data_count s =
      (t : S) × (r : Result (Unit {0})) × ((fuel : ℕ)
        → n ≤ fuel
        → download_days env fuel key min_time cur_end no_data_count s ≡ (t, some r))

  at_end :
      (n : ℕ) (key : PublicKey) (min_time cur_end : I64) (c : ℕ) (s : S)
      → (ltb c 3 && slt min_time cur_end) ≡ false
      → EndsBy (suc n) key min_time cur_end c s
  unfolding download_days
  at_end n key min_time cur_end c s e = (s, ok tt, ends)
    where
      ends :
          (fuel : ℕ)
          → suc n ≤ fuel
          → download_days env fuel key min_time cur_end c s ≡ (s, some (ok tt))
      ends zero h = absurd (omega (arith, h))
      ends (suc k) h = rw (download_days, e) refl

  -- One more day.
  one_day :
      (n : ℕ) (key : PublicKey) (min_time cur_end : I64) (c : ℕ) (s : S)
      → (ltb c 3 && slt min_time cur_end) ≡ true
      → ((d : ℕ) (t : S) → EndsBy n key min_time (sub64 cur_end day) d t)
      → EndsBy (suc n) key min_time cur_end c s
  unfolding download_days
  one_day n key min_time cur_end c s e next = elim (Result-cases done) [
    | inl (got_data, eg) ↦
        let (t, r, ends) = next (if got_data then 0 else c + 1) after_day in
        (t, r, later (λ k h. rw (download_days, e, eg) (ends k h)))
    | inr (inl (i, ei)) ↦ (after_day, err i, later (λ k h. rw (download_days, e, ei) refl))
    | inr (inr (m, em)) ↦ (after_day, panic m, later (λ k h. rw (download_days, e, em) refl))
  ]
    where
      done : Result Bool
      done = (download_all env (sub64 cur_end day) cur_end key s).1

      after_day : S
      after_day = (download_all env (sub64 cur_end day) cur_end key s).0

      later :
          {t : S} {r : Result (Unit {0})}
          → ((k : ℕ) → n ≤ k → download_days env (suc k) key min_time cur_end c s ≡ (t, some r))
          → (fuel : ℕ) → suc n ≤ fuel
          → download_days env fuel key min_time cur_end c s ≡ (t, some r)
      later f zero h = absurd (omega (arith, h))
      later f (suc k) h = f k (omega (arith, h))

  before_first :
      (min_time cur_end : I64)
      → min_time < 2 ^ 63
      → cur_end < day
      → slt min_time (sub64 cur_end day) ≡ false
  unfolding slt sub64
  before_first min_time cur_end h k = ground arith

  day_before :
      (cur_end : I64) → day ≤ cur_end → cur_end < 2 ^ 63 → sub64 cur_end day ≡ cur_end - day
  unfolding sub64
  day_before cur_end h k = omega arith

  at_first :
      (min_time cur_end : I64)
      → min_time < 2 ^ 63
      → cur_end ≤ min_time
      → slt min_time cur_end ≡ false
  unfolding slt
  at_first min_time cur_end h k = ground arith

  -- With fuel for more days than lie between two times that are not negative, the loop over the days does not
  -- run out of it, whatever the peers send and the store answers, and more fuel changes nothing.
  pub download_days-ends :
      (n : ℕ) (key : PublicKey) (min_time cur_end : I64) (c : ℕ) (s : S)
      → min_time < 2 ^ 63
      → cur_end < 2 ^ 63
      → cur_end ≤ min_time + n * day
      → EndsBy (suc n) key min_time cur_end c s
  download_days-ends zero key min_time cur_end c s h k le =
      at_end 0 key min_time cur_end c s
        (past (ltb c 3) (at_first min_time cur_end h (omega (arith, le))))
  download_days-ends (suc n) key min_time cur_end c s h k le =
      elim (Bool-cases (ltb c 3 && slt min_time cur_end)) [
        | inr f ↦ at_end (suc n) key min_time cur_end c s f
        | inl u ↦ one_day (suc n) key min_time cur_end c s u λ d t.
            elim (Bool-cases (ltb cur_end day)) [
              | inl early ↦
                  at_end n key min_time (sub64 cur_end day) d t
                    (past (ltb d 3) (before_first min_time cur_end h (ltb→lt cur_end day early)))
              | inr late ↦
                  subst (λ x. EndsBy (suc n) key min_time x d t)
                    (sym (day_before cur_end (not_early cur_end late) k))
                    (download_days-ends n key min_time (cur_end - day) d t h (omega (arith, k))
                      (omega (arith, le)))
            ]
      ]
