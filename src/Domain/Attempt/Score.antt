-- ===== src/Domain/Attempt/Score.antt =====
-- packages/domain/src/attempt-engine.ts: the time bonus and the score of a solve.
pub mod Bounds
use loremaster.Prelude.{
  ℕ, ◌+◌, ◌-◌, ◌*◌, ◌||◌, not, Result, ok, ◌>>=◌, ◌>>◌, throw_if, ◌==◌, if◌then◌else◌,
}
use loremaster.Prelude.Js.{Number, is_finite, is_negative, at_most}
use loremaster.Domain.Attempt.{
  Snapshot, DomainError, elapsed_not_natural, SolveRank, cold_case_solve, loremaster_rank,
  investigator, detective, case_closed, ScoreBreakdown, assert_valid_attempt_snapshot, to_candidate,
}

-- `LEVEL_RULES`. The check before each use holds the level to 0 .. 4.
abbrev pub level_rank : ℕ → SolveRank
level_rank e =
    if e == 0
    then cold_case_solve
    else if e == 1
    then loremaster_rank
    else if e == 2
    then investigator
    else if e == 3
    then detective
    else case_closed

abbrev pub level_tier_score : ℕ → ℕ
level_tier_score e =
    if e == 0
    then 1200
    else if e == 1
    then 1000
    else if e == 2
    then 750
    else if e == 3
    then 500
    else 250

assert_non_negative_finite : Number → Result DomainError (Unit {0})
assert_non_negative_finite x = throw_if (not (is_finite x) || is_negative x) elapsed_not_natural

-- The four thresholds of `timeBonusFor`.
abbrev pub bonus_at : Number → ℕ
bonus_at elapsed =
    if at_most elapsed 30000
    then 150
    else if at_most elapsed 60000
    then 100
    else if at_most elapsed 120000
    then 60
    else if at_most elapsed 300000
    then 25
    else 0

unfoldable pub time_bonus_for : Number → Result DomainError ℕ
unfolding assert_non_negative_finite
time_bonus_for elapsed = do assert_non_negative_finite elapsed; ok (bonus_at elapsed)

-- `Math.max(0, tier - penalty + bonus)`: the subtraction comes last here, and stops at 0.
abbrev pub breakdown : Snapshot → ℕ → ScoreBreakdown
breakdown attempt bonus = record {
  rank = level_rank attempt.evidence_level;
  tier_score = level_tier_score attempt.evidence_level;
  wrong_guess_penalty = 40 * attempt.total_wrong_guesses;
  time_bonus = bonus;
  score = level_tier_score attempt.evidence_level + bonus - 40 * attempt.total_wrong_guesses;
}

unfoldable pub score_solved_attempt : Snapshot → Number → Result DomainError ScoreBreakdown
score_solved_attempt attempt elapsed = do
  assert_valid_attempt_snapshot (to_candidate attempt)
  bonus ← time_bonus_for elapsed
  ok (breakdown attempt bonus)
