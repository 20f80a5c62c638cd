-- ===== src/Domain/Aggregates.antt =====
-- packages/domain/src/aggregates.ts: the statistics of a profile and the regional knowledge.
pub mod Days
pub mod Streaks
pub mod Knowledge
pub mod Rounding
pub mod Profile
use loremaster.Prelude.{
  ℕ, suc, ◌+◌, ◌-◌, ◌*◌, ◌/◌, Bool, true, false, ◌||◌, not, Option, none, some, List, [], ◌∷◌, map,
  Result, ok, err, ◌>>=◌, ◌>>◌, throw_if, ltb, leb, ◌==◌, if◌then◌else◌, length, ◌≡◌, arith,
}
use loremaster.Prelude.Js.{max_safe_integer, Text}
use loremaster.Domain.Attempt.{
  AttemptState, active, solved, Snapshot, DomainError, is_active, assert_valid_attempt_snapshot,
  to_candidate,
}

pub data AggregateError : Type 0 where
  attempt_error : DomainError → AggregateError
  finalized_attempts_only : AggregateError
  day_must_use_iso_format : AggregateError
  day_must_be_a_calendar_day : AggregateError
  region_id_empty : AggregateError
  rounding_operands_not_safe : AggregateError

lift : {A : Type 0} → Result DomainError A → Result AggregateError A
lift (ok a) = ok a
lift (err e) = err (attempt_error e)

unfoldable pub assert_terminal_attempt : Snapshot → Result AggregateError (Unit {0})
unfolding lift
assert_terminal_attempt attempt = do
  lift (assert_valid_attempt_snapshot (to_candidate attempt))
  throw_if (is_active attempt.state) finalized_attempts_only

pub assert_parts :
    (attempt : Snapshot) (u : Unit {0})
    → assert_terminal_attempt attempt ≡ ok u
    → (a : Snapshot) × (assert_valid_attempt_snapshot (to_candidate attempt) ≡ ok a)
      × (is_active attempt.state ≡ false)
unfolding assert_terminal_attempt
assert_parts attempt u h = ground arith

-- `BigInt` division of non-negative operands rounds down.
unfoldable pub round_half_up : ℕ → ℕ → Result AggregateError ℕ
round_half_up numerator denominator = do
  throw_if (ltb max_safe_integer numerator || ltb max_safe_integer denominator || denominator == 0)
      rounding_operands_not_safe
  ok ((numerator * 2 + denominator) / (denominator * 2))
