-- ===== src/Domain/Aggregates/Profile/Counts.antt =====
-- The counts and the accuracy of a profile (packages/domain/src/aggregates.ts).
use loremaster.Prelude.{
  ℕ, zero, suc, ◌+◌, ◌-◌, ◌*◌, ◌≤◌, ◌<◌, ◌≡◌, List, [], ◌∷◌, ok, >>=-eq-ok, All, if◌then◌else◌,
  length, count, count-le-length, false, arith,
}
use loremaster.Prelude.Js.{Text}
use loremaster.Domain.Attempt.{Snapshot, is_active}
use loremaster.Domain.Attempt.Validity.{IsValid, IsValid-of_assert}
use loremaster.Domain.Aggregates.{assert_terminal_attempt, assert_parts, round_half_up}
use loremaster.Domain.Aggregates.Days.{utc_day_number}
use loremaster.Domain.Aggregates.Rounding.{round_half_up_lem, percentage_bound}
use loremaster.Domain.Aggregates.Profile.{
  ProfileStatistics, is_solved, day_numbers, count_solved, accuracy, calculate_profile_statistics,
}

-- A valid attempt that has ended.
abbrev pub IsFinalized : Snapshot → Type 0
IsFinalized a = IsValid a × (is_active a.state ≡ false)

terminal_lem : (a : Snapshot) (u : Unit {0}) → assert_terminal_attempt a ≡ ok u → IsFinalized a
terminal_lem a u h = let (b, e, k) = assert_parts a u h in (IsValid-of_assert a b e, k)

count_solved_lem :
    (n : ℕ) (attempts : List Snapshot) (m : ℕ)
    → count_solved n attempts ≡ ok m
    → (m ≡ n + count is_solved attempts) × All IsFinalized attempts
unfolding count_solved
count_solved_lem n [] m h = (ground arith, tt)
count_solved_lem n (a ∷ attempts) m h =
    let (u, e, k) = >>=-eq-ok _ _ h in
    let (q, f) = count_solved_lem (if is_solved a then n + 1 else n) attempts m k in
    (ground (arith, q), (terminal_lem a u e, f))

-- `q` is the percentage that `part` is of `total`.
abbrev pub IsAccuracy : ℕ → ℕ → ℕ → Type 0
IsAccuracy part total q =
    (q ≤ 100)
    × (total ≡ 0 → q ≡ 0)
    × (0 < total
        → (q * (total * 2) ≤ part * 100 * 2 + total)
          × (part * 100 * 2 + total < q * (total * 2) + total * 2))

accuracy_lem :
    (part total q : ℕ) → part ≤ total → accuracy part total ≡ ok q → IsAccuracy part total q
unfolding accuracy
accuracy_lem part zero q h e = (ground arith, λ _. ground arith, λ l. absurd (omega arith))
accuracy_lem part (suc t) q h e =
    let e' : round_half_up (part * 100) (suc t) ≡ ok q = ground arith in
    (
      percentage_bound part (suc t) q h e',
      λ z. absurd (omega arith),
      λ _. let r = round_half_up_lem (part * 100) (suc t) q e' in (r.1, r.2),
    )

IsAccuracy-at : (total s p c a : ℕ) → c ≡ s → a ≡ p → IsAccuracy s total p → IsAccuracy c total a
IsAccuracy-at total s p c a e f h = rw (e, f) h

-- Every attempt that is counted is valid and has ended; the solved and the failed ones make up all
-- of them; and the accuracy is the share of the solved ones, rounded half up, at most 100, and 0
-- where there is no attempt.
pub profile_counts :
    (attempts : List Snapshot) (days : List Text) (today : Text) (r : ProfileStatistics)
    → calculate_profile_statistics attempts days today ≡ ok r
    → All IsFinalized attempts
      × (r.solved_count ≡ count is_solved attempts)
      × (r.solved_count + r.failed_count ≡ length attempts)
      × IsAccuracy r.solved_count (length attempts) r.accuracy_percentage
unfolding calculate_profile_statistics
profile_counts attempts days today r h =
    let (t, e1, h1) = >>=-eq-ok (utc_day_number today) _ h in
    let (ns, e2, h2) = >>=-eq-ok (day_numbers days) _ h1 in
    let (s, e3, h3) = >>=-eq-ok (count_solved 0 attempts) _ h2 in
    let (p, e4, h4) = >>=-eq-ok (accuracy s (length attempts)) _ h3 in
    let (q, f) = count_solved_lem 0 attempts s e3 in
    let le = count-le-length is_solved attempts in
    let a = accuracy_lem s (length attempts) p (omega arith) e4 in
    let solved : r.solved_count ≡ s = ground arith in
    let failed : r.failed_count ≡ length attempts - s = ground arith in
    let acc : r.accuracy_percentage ≡ p = ground arith in
    (f, omega arith, omega arith, IsAccuracy-at (length attempts) s p _ _ solved acc a)
