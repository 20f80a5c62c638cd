-- ===== src/Examples/Attempts.antt =====
-- Runs of packages/domain/src/attempt-engine.ts, aggregates.ts and projections.ts.
use loremaster.Prelude.{ℕ, ◌≤◌, ◌<◌, ◌≡◌, ◌≢◌, refl, ◌↔◌, Bool, true, false, str_eq, ok, arith}
use loremaster.Prelude.Int.{pos}
use loremaster.Prelude.Js.{int, natural_up_to}
use loremaster.Domain.Attempt.{
  Snapshot, active, solved, exhausted, accepted, rejected, terminal_attempt, TransitionResult,
  ScoreBreakdown, assert_valid_attempt_snapshot, to_candidate,
}
use loremaster.Domain.Attempt.Validity.{IsValid, assert-IsValid_iff}
use loremaster.Domain.Attempt.Engine.{apply_guess, reveal_evidence}
use loremaster.Domain.Attempt.Laws.{guess, reveal, run, run_contract}
use loremaster.Domain.Attempt.Reach.{
  start, snap, Plays, Plays.here, Plays.next, Reachable, assert-iff_Reachable, attempt_ends,
}
use loremaster.Domain.Attempt.Tally.{
  Tallies, wrong_guesses_made, guesses_given_up, recorded_wrong_guesses,
}
use loremaster.Domain.Attempt.Score.{time_bonus_for, score_solved_attempt, breakdown}
use loremaster.Domain.Attempt.Score.Bounds.{IsElapsed, score_bounds, score_antitone}

abbrev middle : Snapshot
middle = snap active 2 1 5

middle-IsValid : IsValid middle
middle-IsValid = record {
  level_capped = omega arith;
  wrong_capped = omega arith;
  at_least_here = omega arith;
  at_most_behind = λ _. omega arith;
  exhausted_final = λ x. cc;
}

assert-iff_Reachable_example :
    (assert_valid_attempt_snapshot (to_candidate middle) ≡ ok middle)
    ↔ ((to_candidate middle ≡ to_candidate middle) × Reachable middle)
assert-iff_Reachable_example = assert-iff_Reachable (to_candidate middle) middle

run_contract_example :
    (IsValid middle ↔ ((r : TransitionResult) × (run reveal middle ≡ ok r)))
    × (IsValid middle
        → middle.state ≢ active
        → run reveal middle ≡ ok (rejected terminal_attempt middle))
    × ((b : Snapshot) (p : Bool) → run reveal middle ≡ ok (accepted b p) → IsValid b)
run_contract_example = run_contract reveal middle

revealed : run reveal start ≡ ok (accepted (snap active 1 0 0) false)
unfolding reveal_evidence assert_valid_attempt_snapshot to_candidate str_eq natural_up_to
revealed = refl

attempt_ends_example : (1 ≤ 15) × (◌≡◌ {A = ℕ} 1 15 → active ≢ active)
attempt_ends_example = attempt_ends {b = snap active 1 0 0} (next {p = false} reveal here revealed)

assert-IsValid_iff_example :
    (assert_valid_attempt_snapshot (to_candidate middle) ≡ ok middle)
    ↔ ((to_candidate middle ≡ to_candidate middle) × IsValid middle)
assert-IsValid_iff_example = assert-IsValid_iff (to_candidate middle) middle

-- Four reveals and three wrong guesses: the record shows fifteen.
in_a_row :
    (run reveal start ≡ ok (accepted (snap active 1 0 0) false))
    × (run reveal (snap active 1 0 0) ≡ ok (accepted (snap active 2 0 0) false))
    × (run reveal (snap active 2 0 0) ≡ ok (accepted (snap active 3 0 0) false))
    × (run reveal (snap active 3 0 0) ≡ ok (accepted (snap active 4 0 0) false))
    × (run (guess false) (snap active 4 0 0) ≡ ok (accepted (snap active 4 1 1) true))
    × (run (guess false) (snap active 4 1 1) ≡ ok (accepted (snap active 4 2 2) true))
    × (run (guess false) (snap active 4 2 2) ≡ ok (accepted (snap exhausted 4 2 15) true))
unfolding reveal_evidence apply_guess assert_valid_attempt_snapshot to_candidate str_eq
    natural_up_to
in_a_row = (refl, refl, refl, refl, refl, refl, refl)

abbrev hasty : Plays start 7 (snap exhausted 4 2 15)
hasty =
    let (a, b, c, d, e, f, g) = in_a_row in
    next {p = true} (guess false)
      (next {p = true} (guess false)
        (next {p = true} (guess false)
          (next {p = false} reveal
            (next {p = false} reveal (next {p = false} reveal (next {p = false} reveal here a) b) c)
            d)
          e)
        f)
      g

recorded_wrong_guesses_example :
    Tallies (snap exhausted 4 2 15) (wrong_guesses_made hasty) (guesses_given_up hasty)
recorded_wrong_guesses_example = recorded_wrong_guesses hasty

made_three : (wrong_guesses_made hasty ≡ 3) × (guesses_given_up hasty ≡ 12)
made_three = (refl, refl)

score_bounds_example :
    (((r : ScoreBreakdown) × (score_solved_attempt (snap solved 2 1 5) (int (pos 40000)) ≡ ok r))
      ↔ (IsValid (snap solved 2 1 5) × IsElapsed (int (pos 40000))))
    × ((r : ScoreBreakdown)
        → score_solved_attempt (snap solved 2 1 5) (int (pos 40000)) ≡ ok r
        → (r.score ≤ 1350) × (◌≡◌ solved solved → 2 < 4 → 60 ≤ r.score))
score_bounds_example = score_bounds (snap solved 2 1 5) (int (pos 40000))

score_fast :
    score_solved_attempt (snap solved 1 0 2) (int (pos 30000))
    ≡ ok (breakdown (snap solved 1 0 2) 150)
unfolding score_solved_attempt assert_valid_attempt_snapshot to_candidate str_eq natural_up_to
    time_bonus_for
score_fast = refl

score_slow :
    score_solved_attempt (snap solved 1 0 3) (int (pos 30001))
    ≡ ok (breakdown (snap solved 1 0 3) 100)
unfolding score_solved_attempt assert_valid_attempt_snapshot to_candidate str_eq natural_up_to
    time_bonus_for
score_slow = refl

score_antitone_example :
    (breakdown (snap solved 1 0 3) 100).score ≤ (breakdown (snap solved 1 0 2) 150).score
score_antitone_example =
    score_antitone (snap solved 1 0 2) (snap solved 1 0 3) 30000 30001
      (breakdown (snap solved 1 0 2) 150) (breakdown (snap solved 1 0 3) 100) refl (omega arith)
      (omega arith) score_fast score_slow
