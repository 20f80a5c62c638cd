-- ===== src/Domain/Aggregates/Profile.antt =====
-- `calculateProfileStatistics` of packages/domain/src/aggregates.ts.
pub mod Counts
use loremaster.Prelude.{
  ℕ, ◌+◌, ◌-◌, ◌*◌, ◌≤◌, ◌≡◌, refl, List, [], ◌∷◌, Result, ok, ◌>>=◌, ◌>>◌, ◌==◌, if◌then◌else◌,
  length, count, Bool, true, false,
}
use loremaster.Prelude.Int.{ℤ}
use loremaster.Prelude.Js.{Text}
use loremaster.Domain.Attempt.{AttemptState, solved, Snapshot}
use loremaster.Domain.Aggregates.{AggregateError, assert_terminal_attempt, round_half_up}
use loremaster.Domain.Aggregates.Days.{utc_day_number}
use loremaster.Domain.Aggregates.Streaks.{
  participation_days, calculate_current_streak, calculate_longest_streak,
}

pub record ProfileStatistics : Type 0 where
  pub current_streak : ℕ
  pub longest_streak : ℕ
  pub solved_count : ℕ
  pub failed_count : ℕ
  pub accuracy_percentage : ℕ

day_numbers : List Text → Result AggregateError (List ℤ)
day_numbers [] = ok []
day_numbers (day ∷ days) = utc_day_number day >>= λ n. day_numbers days >>= λ ns. ok (n ∷ ns)

abbrev pub is_solved : Snapshot → Bool
is_solved a = elim a.state [ solved ↦ true | _ ↦ false ]

-- The loop that checks every attempt and counts the solved ones.
count_solved : ℕ → List Snapshot → Result AggregateError ℕ
count_solved n [] = ok n
count_solved n (a ∷ attempts) =
    assert_terminal_attempt a >> count_solved (if is_solved a then n + 1 else n) attempts

accuracy : ℕ → ℕ → Result AggregateError ℕ
accuracy solved_count total = if total == 0 then ok 0 else round_half_up (solved_count * 100) total

unfoldable pub calculate_profile_statistics :
    List Snapshot → List Text → Text → Result AggregateError ProfileStatistics
unfolding day_numbers count_solved accuracy
calculate_profile_statistics attempts participation_utc_days today_utc_day = do
  today ← utc_day_number today_utc_day
  numbers ← day_numbers participation_utc_days
  let days = participation_days numbers
  solved_count ← count_solved 0 attempts
  percentage ← accuracy solved_count (length attempts)
  ok (record {
    current_streak = calculate_current_streak days today;
    longest_streak = calculate_longest_streak days;
    solved_count = solved_count;
    failed_count = length attempts - solved_count;
    accuracy_percentage = percentage;
  })
