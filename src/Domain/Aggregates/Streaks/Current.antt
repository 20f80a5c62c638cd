-- ===== src/Domain/Aggregates/Streaks/Current.antt =====
-- The current streak is the run of days that ends at its last day
-- (packages/domain/src/aggregates.ts).
use loremaster.Prelude.{
  ℕ, zero, suc, ◌≤◌, ◌<◌, ◌≡◌, true, false, not, Bool-cases, ◌⊎◌, inl, inr, List, [], ◌∷◌, length,
  count, count-le-length, arith,
}
use loremaster.Prelude.Int.{ℤ, ltb_ℤ, pred_ℤ}
use loremaster.Domain.Aggregates.Streaks.{has, count_back, streak_ending, calculate_current_streak}

-- The day k days before.
abbrev pub back : ℕ → ℤ → ℤ
back zero day = day
back (suc k) day = back k (pred_ℤ day)

-- How many of the days are not after the cursor.
abbrev not_after : List ℤ → ℤ → ℕ
not_after days cursor = count (λ d. not (ltb_ℤ cursor d)) days

not_after-pred_le :
    (days : List ℤ) (cursor : ℤ) → not_after days (pred_ℤ cursor) ≤ not_after days cursor
not_after-pred_le [] cursor = omega arith
not_after-pred_le (d ∷ ds) cursor = ground (arith, not_after-pred_le ds cursor)

not_after-pred_lt :
    (days : List ℤ) (cursor : ℤ)
    → has days cursor ≡ true
    → not_after days (pred_ℤ cursor) < not_after days cursor
not_after-pred_lt [] cursor h = cc
not_after-pred_lt (d ∷ ds) cursor h =
    ground (arith, not_after-pred_le ds cursor, not_after-pred_lt ds cursor)

-- `n` days in a row end at `day`, and the day before them is not there.
pub record IsRun (days : List ℤ) (day : ℤ) (n : ℕ) : Type 0 where
  pub played : (k : ℕ) → k < n → has days (back k day) ≡ true
  pub gap : has days (back n day) ≡ false

count_back-IsRun :
    (fuel : ℕ) (days : List ℤ) (cursor : ℤ)
    → not_after days cursor < fuel
    → IsRun days cursor (count_back fuel days cursor)
unfolding count_back
count_back-IsRun zero days cursor h = absurd (omega arith)
count_back-IsRun (suc fuel) days cursor h = elim (Bool-cases (has days cursor)) [
  | inl e ↦
      let ih =
        count_back-IsRun fuel days (pred_ℤ cursor)
          (omega (arith, not_after-pred_lt days cursor e)) in
      rw e (record { played = more e ih.played; gap = ih.gap })
  | inr e ↦ rw e (record { played = λ k l. absurd (omega arith); gap = e })
]
  where
    more :
        has days cursor ≡ true
        → ((k : ℕ)
            → k < count_back fuel days (pred_ℤ cursor)
            → has days (back k (pred_ℤ cursor)) ≡ true)
        → (k : ℕ) → k < suc (count_back fuel days (pred_ℤ cursor))
        → has days (back k cursor) ≡ true
    more e p zero l = e
    more e p (suc k) l = p k (omega arith)

streak_ending-IsRun : (days : List ℤ) (cursor : ℤ) → IsRun days cursor (streak_ending days cursor)
unfolding streak_ending
streak_ending-IsRun days cursor = elim (Bool-cases (has days cursor)) [
  | inl e ↦ rw e (
      count_back-IsRun (suc (length days)) days cursor
        (omega (arith, count-le-length {0} (λ (d : ℤ). not (ltb_ℤ cursor d)) days)))
  | inr e ↦ rw e (record { played = λ k l. absurd (omega arith); gap = e })
]

-- The current streak is the whole run of days that ends today if today has been played, and the
-- whole run that ends on the day before if not: every day of it is there and the day before it is
-- not. The loop never runs out of fuel.
pub current_streak-IsRun :
    (days : List ℤ) (today : ℤ)
    → ((has days today ≡ true) × IsRun days today (calculate_current_streak days today))
      ⊎ ((has days today ≡ false) × IsRun days (pred_ℤ today) (calculate_current_streak days today))
unfolding calculate_current_streak
current_streak-IsRun days today = elim (Bool-cases (has days today)) [
  | inl e ↦ inl (e, rw e (streak_ending-IsRun days today))
  | inr e ↦ inr (e, rw e (streak_ending-IsRun days (pred_ℤ today)))
]
