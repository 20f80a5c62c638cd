-- ===== src/Domain/Aggregates/Streaks.antt =====
-- The streaks of packages/domain/src/aggregates.ts over days counted as integers.
pub mod Current
use loremaster.Prelude.{
  ℕ, zero, suc, ◌+◌, ◌==◌, max, Bool, true, false, not, Option, none, some, List, [], ◌∷◌,
  if◌then◌else◌, length, any,
}
use loremaster.Prelude.Int.{ℤ, ◌==ℤ◌, ltb_ℤ, suc_ℤ, pred_ℤ}

-- `days.has(day)`
abbrev pub has : List ℤ → ℤ → Bool
has days day = any (λ d. d ==ℤ day) days

-- `new Set(days)`: a later copy of a day is dropped.
unique_from : List ℤ → List ℤ → List ℤ
unique_from seen [] = []
unique_from seen (d ∷ ds) =
    let kept = d ∷ unique_from (d ∷ seen) ds in
    let dropped = unique_from seen ds in if has seen d then dropped else kept

insert_day : ℤ → List ℤ → List ℤ
insert_day x [] = x ∷ []
insert_day x (y ∷ ys) = let rest = y ∷ insert_day x ys in if ltb_ℤ y x then rest else x ∷ y ∷ ys

sort_days : List ℤ → List ℤ
unfolding insert_day
sort_days [] = []
sort_days (d ∷ ds) = insert_day d (sort_days ds)

-- `[...new Set(days)].sort((left, right) => left - right)`
unfoldable pub participation_days : List ℤ → List ℤ
unfolding unique_from sort_days
participation_days days = sort_days (unique_from [] days)

-- `while (days.has(cursor)) { streak += 1; cursor -= 1 }`
unfoldable pub count_back : ℕ → List ℤ → ℤ → ℕ
count_back zero days cursor = 0
count_back (suc fuel) days cursor =
    let rest = suc (count_back fuel days (pred_ℤ cursor)) in if has days cursor then rest else 0

-- Where the streak ends: today, or yesterday if today has not been played.
abbrev pub streak_end : List ℤ → ℤ → ℤ
streak_end days today = if has days today then today else pred_ℤ today

-- One round for each day suffices, and one more to see the gap.
unfoldable pub streak_ending : List ℤ → ℤ → ℕ
streak_ending days cursor =
    if not (has days cursor) then 0 else count_back (suc (length days)) days cursor

unfoldable pub calculate_current_streak : List ℤ → ℤ → ℕ
unfolding streak_ending
calculate_current_streak days today = streak_ending days (streak_end days today)

-- The current run after one more day.
abbrev run_after : Option ℤ → ℕ → ℤ → ℕ
run_after none current day = 1
run_after (some previous) current day = if day ==ℤ suc_ℤ previous then current + 1 else 1

longest_from : ℕ → ℕ → Option ℤ → List ℤ → ℕ
longest_from longest current previous [] = longest
longest_from longest current previous (day ∷ days) =
    let current' = run_after previous current day in
    longest_from (max longest current') current' (some day) days

unfoldable pub calculate_longest_streak : List ℤ → ℕ
unfolding longest_from
calculate_longest_streak days = longest_from 0 0 none days
