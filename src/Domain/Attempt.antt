-- ===== src/Domain/Attempt.antt =====
-- packages/domain/src/attempt-engine.ts: snapshots of an attempt, their runtime check, the
-- transitions and the score. The proofs are in the modules below.
pub mod Validity
pub mod Engine
pub mod Score
pub mod Laws
pub mod Reach
pub mod Tally
use loremaster.Prelude.{
  ℕ, ◌+◌, ◌*◌, Bool, true, false, ◌||◌, not, String, Option, none, some, Result, ok, err, ◌>>=◌,
  ◌>>◌, throw_if, ltb, leb, ◌==◌, str_eq, if◌then◌else◌,
}
use loremaster.Prelude.Int.{pos}
use loremaster.Prelude.Js.{Field, undefined, number, string, other, int, natural_up_to}

pub data AttemptState : Type 0 where
  active solved given_up exhausted expired : AttemptState

-- The typed snapshot. The types of the source narrow the counters (0 to 4, 0 to 2); its functions
-- check them again when they run, and so does the model.
pub record Snapshot : Type 0 where
  pub state : AttemptState
  pub evidence_level : ℕ
  pub wrong_guesses_at_level : ℕ
  pub total_wrong_guesses : ℕ

-- An `unknown` argument: no object, or an object with the four fields that are read.
pub data Candidate : Type 0 where
  not_an_object : Candidate
  object : (state evidence_level wrong_guesses_at_level total_wrong_guesses : Field) → Candidate

-- What the module throws: a constructor for each message.
pub data DomainError : Type 0 where
  must_be_an_object : DomainError
  state_is_invalid : DomainError
  evidence_level_out_of_range : DomainError
  wrong_guesses_at_level_out_of_range : DomainError
  total_wrong_guesses_not_natural : DomainError
  exhausted_requires_final_counters : DomainError
  counters_unreachable : DomainError
  elapsed_not_natural : DomainError

pub data SolveRank : Type 0 where
  cold_case_solve loremaster_rank investigator detective case_closed : SolveRank

pub record ScoreBreakdown : Type 0 where
  pub rank : SolveRank
  pub tier_score : ℕ
  pub wrong_guess_penalty : ℕ
  pub time_bonus : ℕ
  pub score : ℕ

pub data TransitionRejection : Type 0 where
  evidence_limit terminal_attempt : TransitionRejection

pub data TransitionResult : Type 0 where
  accepted : (attempt : Snapshot) (records_participation : Bool) → TransitionResult
  rejected : (reason : TransitionRejection) (attempt : Snapshot) → TransitionResult

abbrev pub is_active : AttemptState → Bool
is_active active = true
is_active _ = false

abbrev pub is_exhausted : AttemptState → Bool
is_exhausted exhausted = true
is_exhausted _ = false

-- The text that the wire and the database use for a state.
pub state_name : AttemptState → String
state_name active = "ACTIVE"
state_name solved = "SOLVED"
state_name given_up = "GIVEN_UP"
state_name exhausted = "EXHAUSTED"
state_name expired = "EXPIRED"

state_named : String → Option AttemptState
state_named s =
    if str_eq s "ACTIVE"
    then some active
    else if str_eq s "SOLVED"
    then some solved
    else if str_eq s "GIVEN_UP"
    then some given_up
    else if str_eq s "EXHAUSTED"
    then some exhausted
    else if str_eq s "EXPIRED"
    then some expired
    else none

is_attempt_state : Field → Option AttemptState
unfolding state_named
is_attempt_state (string s) = state_named s
is_attempt_state _ = none

is_evidence_level : Field → Option ℕ
unfolding natural_up_to
is_evidence_level = natural_up_to 4

is_wrong_guesses_at_level : Field → Option ℕ
unfolding natural_up_to
is_wrong_guesses_at_level = natural_up_to 2

-- `typeof x === 'number' && Number.isInteger(x) && x >= 0`
natural : Field → Option ℕ
natural (number (int (pos n))) = some n
natural _ = none

require : {A : Type 0} → Option A → DomainError → Result DomainError A
require (some a) e = ok a
require none e = err e

-- The part of the check that relates the counters, on values whose ranges have been checked.
check_counters : Snapshot → Result DomainError Snapshot
check_counters a =
    if is_exhausted a.state
    then (do
      throw_if
          (not (evidence_level == 4)
            || not (wrong_guesses_at_level == 2)
            || not (total_wrong_guesses == 15))
          exhausted_requires_final_counters
      ok a)
    else (do
      throw_if
          (ltb total_wrong_guesses wrong_guesses_at_level
            || ltb (evidence_level * 3 + wrong_guesses_at_level) total_wrong_guesses)
          counters_unreachable
      ok a)
  where
    open a use {evidence_level, wrong_guesses_at_level, total_wrong_guesses}

unfoldable pub assert_valid_attempt_snapshot : Candidate → Result DomainError Snapshot
unfolding is_attempt_state is_evidence_level is_wrong_guesses_at_level natural require
    check_counters
assert_valid_attempt_snapshot not_an_object = err must_be_an_object
assert_valid_attempt_snapshot (object state e w total) = do
  state' ← require (is_attempt_state state) state_is_invalid
  e' ← require (is_evidence_level e) evidence_level_out_of_range
  w' ← require (is_wrong_guesses_at_level w) wrong_guesses_at_level_out_of_range
  total' ← require (natural total) total_wrong_guesses_not_natural
  check_counters (record {
    state = state';
    evidence_level = e';
    wrong_guesses_at_level = w';
    total_wrong_guesses = total';
  })

-- A typed snapshot as the `unknown` that the check takes.
unfoldable pub to_candidate : Snapshot → Candidate
unfolding state_name
to_candidate a =
    object (string (state_name a.state)) (number (int (pos a.evidence_level)))
      (number (int (pos a.wrong_guesses_at_level))) (number (int (pos a.total_wrong_guesses)))
