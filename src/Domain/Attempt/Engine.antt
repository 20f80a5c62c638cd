-- ===== src/Domain/Attempt/Engine.antt =====
-- packages/domain/src/attempt-engine.ts: the transitions of an attempt.
use loremaster.Prelude.{ℕ, ◌+◌, Bool, true, false, Result, ok, ◌>>◌, ltb, ◌==◌, if◌then◌else◌, not}
use loremaster.Domain.Attempt.{
  Snapshot, solved, given_up, exhausted, expired, DomainError, TransitionResult, accepted, rejected,
  terminal_attempt, evidence_limit, is_active, assert_valid_attempt_snapshot, to_candidate,
}

abbrev pub Transition : Type 0
Transition = Result DomainError TransitionResult

-- Every operation checks its snapshot first.
check : Snapshot → Result DomainError Snapshot
check attempt = assert_valid_attempt_snapshot (to_candidate attempt)

next_evidence_level : ℕ → ℕ
next_evidence_level level = level + 1

terminal_rejection : Snapshot → TransitionResult
terminal_rejection attempt = rejected terminal_attempt attempt

unfoldable pub guess_active : Snapshot → Bool → TransitionResult
unfolding next_evidence_level
guess_active attempt correct =
    if correct
    then accepted (record attempt { state = solved }) true
    else if ltb attempt.wrong_guesses_at_level 2
    then accepted
        (record attempt {
          wrong_guesses_at_level = attempt.wrong_guesses_at_level + 1;
          total_wrong_guesses = attempt.total_wrong_guesses + 1;
        })
        true
    else if attempt.evidence_level == 4
    then accepted
        (record {
          state = exhausted;
          evidence_level = 4;
          wrong_guesses_at_level = 2;
          total_wrong_guesses = 15;
        })
        true
    else accepted
        (record attempt {
          evidence_level = next_evidence_level attempt.evidence_level;
          wrong_guesses_at_level = 0;
          total_wrong_guesses = attempt.total_wrong_guesses + 1;
        })
        true

unfoldable pub apply_guess : Snapshot → Bool → Transition
unfolding check terminal_rejection guess_active
apply_guess attempt correct = do
  check attempt
  ok (
      if not (is_active attempt.state)
      then terminal_rejection attempt
      else guess_active attempt correct)

unfoldable pub reveal_active : Snapshot → TransitionResult
unfolding next_evidence_level
reveal_active attempt =
    if attempt.evidence_level == 4
    then rejected evidence_limit attempt
    else accepted
        (record attempt {
          evidence_level = next_evidence_level attempt.evidence_level;
          wrong_guesses_at_level = 0;
        })
        false

unfoldable pub reveal_evidence : Snapshot → Transition
unfolding check terminal_rejection reveal_active
reveal_evidence attempt = do
  check attempt
  ok (if not (is_active attempt.state) then terminal_rejection attempt else reveal_active attempt)

unfoldable pub give_up : Snapshot → Transition
unfolding check terminal_rejection
give_up attempt = do
  check attempt
  ok (
      if not (is_active attempt.state)
      then terminal_rejection attempt
      else accepted (record attempt { state = given_up }) false)

unfoldable pub expire : Snapshot → Transition
unfolding check terminal_rejection
expire attempt = do
  check attempt
  ok (
      if not (is_active attempt.state)
      then terminal_rejection attempt
      else accepted (record attempt { state = expired }) false)
