-- ===== src/Domain/Projections.antt =====
-- packages/domain/src/projections.ts: what a guest is shown of a case and of an attempt.
pub mod Disclosure
use loremaster.Prelude.{
  ℕ, suc, Bool, true, false, not, ◌||◌, ◌==◌, List, [], ◌∷◌, map, Option, none, some, String,
  str_eq, Result, ok, err, ◌>>=◌, ◌>>◌, throw_if, if◌then◌else◌, any, find, take,
}
use loremaster.Domain.Attempt.{
  AttemptState, Snapshot, DomainError, is_active, assert_valid_attempt_snapshot, to_candidate,
}

pub record PublicEntitySuggestion : Type 0 where
  pub entity_id : String
  pub canonical_name : String
  pub public_role : String
  pub aliases : List String

pub record PrivateEvidence : Type 0 where
  pub level : ℕ
  pub text : String
  pub explanation : String
  pub source_references : List String

-- The type of the source has four items of evidence; `assertOrderedEvidence` checks it.
pub record PrivateCaseFile : Type 0 where
  pub slot_id : String
  pub revision_id : String
  pub opens_at : String
  pub closes_at : String
  pub briefing : String
  pub suggestions : List PublicEntitySuggestion
  pub answer_entity_id : String
  pub evidence : List PrivateEvidence

pub record PublicSlot : Type 0 where
  pub slot_id : String
  pub opens_at : String
  pub closes_at : String

pub record PrivateGuessRecord : Type 0 where
  pub guess_id : String
  pub guest_id : String
  pub entity_id : String
  pub guessed_at : String

pub record PrivateAttemptRecord : Type 0 where
  pub attempt_id : String
  pub owner_guest_id : String
  pub slot_id : String
  pub revision_id : String
  pub version : ℕ
  pub started_at : String
  pub snapshot_at : String
  pub attempt : Snapshot
  pub guesses : List PrivateGuessRecord

pub record PublicGuess : Type 0 where
  pub entity_id : String
  pub guessed_at : String

pub record AttemptProjectionBase : Type 0 where
  pub attempt_id : String
  pub state : AttemptState
  pub version : ℕ
  pub started_at : String
  pub closes_at : String
  pub evidence_level : ℕ
  pub wrong_guesses_at_level : ℕ
  pub total_wrong_guesses : ℕ
  pub briefing : String
  pub suggestions : List PublicEntitySuggestion
  pub guess_history : List PublicGuess

pub record PublicEvidence : Type 0 where
  pub level : ℕ
  pub text : String

pub record TerminalEvidence : Type 0 where
  pub evidence : PublicEvidence
  pub explanation : String
  pub source_references : List String

pub data AttemptProjection : Type 0 where
  active_projection : AttemptProjectionBase → List PublicEvidence → AttemptProjection
  terminal_projection :
      AttemptProjectionBase → PublicEntitySuggestion → List TerminalEvidence → AttemptProjection

pub data CaseProjection : Type 0 where
  no_case : CaseProjection
  not_started : (slot_id opens_at closes_at : String) → CaseProjection
  attempt_view : AttemptProjection → CaseProjection

pub data ProjectionError : Type 0 where
  foreign_guest : ProjectionError
  foreign_guess : ProjectionError
  other_revision : ProjectionError
  attempt_error : DomainError → ProjectionError
  evidence_not_ordered : ProjectionError
  answer_not_suggested : ProjectionError

unfoldable pub project_no_case : CaseProjection
project_no_case = no_case

unfoldable pub project_not_started : PublicSlot → CaseProjection
project_not_started slot = not_started slot.slot_id slot.opens_at slot.closes_at

-- A copy with the public fields.
unfoldable pub project_public_suggestion : PublicEntitySuggestion → PublicEntitySuggestion
project_public_suggestion suggestion = record {
  entity_id = suggestion.entity_id;
  canonical_name = suggestion.canonical_name;
  public_role = suggestion.public_role;
  aliases = suggestion.aliases;
}

unfoldable pub project_public_evidence : PrivateEvidence → PublicEvidence
project_public_evidence e = record { level = e.level; text = e.text }

unfoldable pub project_terminal_evidence : PrivateEvidence → TerminalEvidence
unfolding project_public_evidence
project_terminal_evidence e = record {
  evidence = project_public_evidence e;
  explanation = e.explanation;
  source_references = e.source_references;
}

project_guess : PrivateGuessRecord → PublicGuess
project_guess guess = record { entity_id = guess.entity_id; guessed_at = guess.guessed_at }

-- `evidence.length !== 4 || evidence.some((item, index) => item.level !== index + 1)`, on the levels
ordered_from : ℕ → List ℕ → Bool
ordered_from index [] = index == 4
ordered_from index (level ∷ levels) =
    let rest = ordered_from (suc index) levels in if level == suc index then rest else false

abbrev pub levels : List PrivateEvidence → List ℕ
levels = map (λ e. e.level)

assert_ordered_evidence : List PrivateEvidence → Result ProjectionError (Unit {0})
unfolding ordered_from
assert_ordered_evidence evidence =
    throw_if (not (ordered_from 0 (levels evidence))) evidence_not_ordered

assert_attempt : Snapshot → Result ProjectionError Snapshot
assert_attempt a = elim (assert_valid_attempt_snapshot (to_candidate a)) [
  | ok b ↦ ok b
  | err e ↦ err (attempt_error e)
]

unfoldable pub project_attempt_base : PrivateCaseFile → PrivateAttemptRecord → AttemptProjectionBase
unfolding project_public_suggestion project_guess
project_attempt_base case_file r = record {
  attempt_id = r.attempt_id;
  state = r.attempt.state;
  version = r.version;
  started_at = r.started_at;
  closes_at = case_file.closes_at;
  evidence_level = r.attempt.evidence_level;
  wrong_guesses_at_level = r.attempt.wrong_guesses_at_level;
  total_wrong_guesses = r.attempt.total_wrong_guesses;
  briefing = case_file.briefing;
  suggestions = map project_public_suggestion case_file.suggestions;
  guess_history = map project_guess r.guesses;
}

project_active : PrivateCaseFile → PrivateAttemptRecord → AttemptProjection
project_active case_file r =
    active_projection (project_attempt_base case_file r)
      (map project_public_evidence (take r.attempt.evidence_level case_file.evidence))

answer_of : PrivateCaseFile → Option PublicEntitySuggestion
answer_of case_file =
    find (λ suggestion. str_eq suggestion.entity_id case_file.answer_entity_id)
      case_file.suggestions

project_terminal :
    PrivateCaseFile
    → PrivateAttemptRecord
    → Option PublicEntitySuggestion
    → Result ProjectionError AttemptProjection
project_terminal case_file r none = err answer_not_suggested
project_terminal case_file r (some answer) = ok (
    terminal_projection (project_attempt_base case_file r) (project_public_suggestion answer)
      (map project_terminal_evidence case_file.evidence))

-- The two shapes of a projection, once every check has passed.
unfoldable pub project_checked :
    PrivateCaseFile → PrivateAttemptRecord → Result ProjectionError AttemptProjection
unfolding project_active project_terminal answer_of
project_checked case_file r =
    if is_active r.attempt.state
    then ok (project_active case_file r)
    else project_terminal case_file r (answer_of case_file)

unfoldable pub project_attempt :
    PrivateCaseFile → PrivateAttemptRecord → String → Result ProjectionError AttemptProjection
unfolding assert_attempt assert_ordered_evidence
project_attempt case_file r requesting_guest_id = do
  throw_if (not (str_eq r.owner_guest_id requesting_guest_id)) foreign_guest
  throw_if (any (λ guess. not (str_eq guess.guest_id r.owner_guest_id)) r.guesses) foreign_guess
  throw_if
      (not (str_eq r.slot_id case_file.slot_id) || not (str_eq r.revision_id case_file.revision_id))
      other_revision
  assert_attempt r.attempt
  assert_ordered_evidence case_file.evidence
  project_checked case_file r
