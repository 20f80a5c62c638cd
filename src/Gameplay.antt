-- ===== src/Gameplay.antt =====
-- packages/database/src/gameplay: the commands of a player as transactions on the tables. Here are
-- the tables and the types of gameplay/types.ts; identifiers are compared as texts, and an instant
-- is a number of milliseconds.
pub mod Rows
pub mod Reconciliation
pub mod Receipts
pub mod Plans
pub mod Commands
pub mod Start
pub mod Pages
pub mod Suggestions
pub mod Profiles
pub mod Transactions
use loremaster.Prelude.{ℕ, Bool, List, Option, String, Result, ok, err}
use loremaster.Prelude.Js.{Text, Number}
use loremaster.Domain.Attempt.{AttemptState, Snapshot, DomainError}
use loremaster.Domain.Aggregates.{AggregateError}
use loremaster.Domain.Projections.{ProjectionError, AttemptProjection, CaseProjection}

pub record Guest : Type 0 where
  pub id : String
  pub pseudonym : String

pub record Session : Type 0 where
  pub id : String
  pub guest_id : String
  pub expires_at : ℕ

pub record Revision : Type 0 where
  pub id : String
  pub slot_id : String
  pub is_published : Bool
  pub opens_at : ℕ
  pub closes_at : ℕ
  pub answer_entity_id : String

pub record CaseEntity : Type 0 where
  pub revision_id : String
  pub entity_id : String
  pub public_id : String
  pub is_eligible : Bool

pub record RevisionRegion : Type 0 where
  pub revision_id : String
  pub region_id : String

-- A row of `attempts`.
pub record StoredAttempt : Type 0 where
  pub id : String
  pub guest_id : String
  pub revision_id : String
  pub slot_id : String
  pub play : Snapshot
  pub version : ℕ
  pub started_at : ℕ
  pub updated_at : ℕ
  pub terminal_at : Option ℕ

-- A row of the query that joins an attempt to its revision.
pub record AttemptRow : Type 0 where
  pub id : String
  pub guest_id : String
  pub revision_id : String
  pub slot_id : String
  pub play : Snapshot
  pub version : ℕ
  pub started_at : ℕ
  pub closes_at : ℕ
  pub snapshot_at : ℕ

pub record GuessRow : Type 0 where
  pub id : String
  pub attempt_id : String
  pub revision_id : String
  pub guess_number : ℕ
  pub entity_id : String
  pub was_correct : Bool
  pub evidence_level : ℕ
  pub guessed_at : ℕ

pub record ParticipationDay : Type 0 where
  pub guest_id : String
  pub utc_day : ℕ
  pub first_guess_at : ℕ

-- The column of a receipt is an `unknown` to the source: `unlisted` is any other value.
pub data CommandKind : Type 0 where
  start_kind guess_kind reveal_kind give_up_kind unlisted_kind : CommandKind

pub data OutcomeCode : Type 0 where
  started correct wrong revealed surrendered unlisted_outcome : OutcomeCode

pub record Receipt : Type 0 where
  pub id : String
  pub guest_id : String
  pub session_id : String
  pub idempotency_key : Text
  pub command_fingerprint : Text
  pub command_kind : CommandKind
  pub outcome_code : OutcomeCode
  pub attempt_id : Option String
  pub committed_version : ℕ

pub record Finalization : Type 0 where
  pub attempt_id : String
  pub guest_id : String
  pub slot_id : String
  pub outcome : AttemptState
  pub score : ℕ
  pub finalized_at : ℕ

pub record Contribution : Type 0 where
  pub attempt_id : String
  pub region_id : String
  pub guest_id : String
  pub outcome : AttemptState
  pub alpha_delta : ℕ
  pub beta_delta : ℕ

-- The decimals of the table in hundredths.
pub record KnowledgeRow : Type 0 where
  pub guest_id : String
  pub region_id : String
  pub alpha : ℕ
  pub beta : ℕ
  pub sample_count : ℕ

pub record LeaderboardRow : Type 0 where
  pub attempt_id : String
  pub guest_id : String
  pub slot_id : String
  pub pseudonym : String
  pub evidence_level : ℕ
  pub total_wrong_guesses : ℕ
  pub elapsed_ms : ℕ
  pub score : ℕ

-- The tables that play reads and writes; a new row is put in front.
pub record Store : Type 0 where
  pub guests : List Guest
  pub sessions : List Session
  pub revisions : List Revision
  pub entities : List CaseEntity
  pub regions : List RevisionRegion
  pub attempts : List StoredAttempt
  pub guesses : List GuessRow
  pub participation_days : List ParticipationDay
  pub receipts : List Receipt
  pub finalizations : List Finalization
  pub contributions : List Contribution
  pub knowledge : List KnowledgeRow
  pub leaderboard : List LeaderboardRow

-- What a transaction throws.
pub data GameplayError : Type 0 where
  domain : DomainError → GameplayError
  aggregate : AggregateError → GameplayError
  projection : ProjectionError → GameplayError
  case_missing : GameplayError
  invalid_outcome_code : GameplayError
  owned_attempt_disappeared : GameplayError
  attempt_start_failed : GameplayError
  no_first_row : GameplayError

-- `malformed` is a value whose shape the type of the source excludes and its checks refuse.
pub data GameplayCommand : Type 0 where
  guess : (entity_id : String) → GameplayCommand
  reveal give_up malformed : GameplayCommand

pub record StartAttemptRequest : Type 0 where
  pub guest_id : String
  pub session_id : String
  pub idempotency_key : Text

pub record GameplayCommandRequest : Type 0 where
  pub guest_id : String
  pub session_id : String
  pub attempt_id : String
  pub expected_version : Number
  pub idempotency_key : Text
  pub command : GameplayCommand

pub data RejectionCode : Type 0 where
  evidence_limit_reached idempotency_conflict invalid_command no_case session_expired stale_version
        terminal unknown_attempt unknown_entity :
      RejectionCode

-- `GameplayCommandResult` and `StartAttemptResult`
pub data CommandResult : Type 0 where
  done : (outcome_code : OutcomeCode) (replayed : Bool) → AttemptProjection → CommandResult
  refused : RejectionCode → CommandResult
  refused_showing : RejectionCode → AttemptProjection → CommandResult

-- The readings of the clock in the order of their first use: the check of the session, the query of
-- the attempt (`snapshot_at`), and `databaseNow`.
pub record Instants : Type 0 where
  pub session_checked : ℕ
  pub row_read : ℕ
  pub sampled : ℕ

-- The results of `randomUUID` of one command.
pub record FreshIds : Type 0 where
  pub attempt : String
  pub guess : String
  pub receipt : String

-- An error of a library as an error of the transaction.
unfoldable pub lift : {E A : Type 0} → (E → GameplayError) → Result E A → Result GameplayError A
lift f (ok a) = ok a
lift f (err e) = err (f e)

-- `COMMIT` with the value, or `ROLLBACK` and the error.
finish : {A : Type 0} → Store → Result GameplayError (A × Store) → Result GameplayError A × Store
finish s (ok (a, s')) = (ok a, s')
finish s (err e) = (err e, s)

-- `transaction` of runtime.ts, of a body that neither the deadline nor the database interrupts.
unfoldable pub transaction :
    {A : Type 0}
    → (Store → Result GameplayError (A × Store))
    → Store
    → Result GameplayError A × Store
unfolding finish
transaction work s = finish s (work s)
