-- ===== src/Gameplay/Plans.antt =====
-- What a command of packages/database/src/gameplay/attempts.ts does to the attempt and to its tables.
pub mod Accepts
use loremaster.Prelude.{
  ℕ, ◌+◌, ◌/◌, Bool, true, false, ◌&&◌, ◌||◌, not, List, [], ◌∷◌, map, Option, none, some, String,
  str_eq, any, Result, ok, ◌>>=◌, ◌==◌, if◌then◌else◌,
}
use loremaster.Domain.Attempt.{
  Snapshot, solved, TransitionResult, TransitionRejection, evidence_limit, terminal_attempt,
  is_active,
}
use loremaster.Domain.Attempt.Engine.{apply_guess, reveal_evidence}
use loremaster.Domain.Attempt.Engine as Engine
use loremaster.Gameplay.{
  Store, Revision, CaseEntity, AttemptRow, ParticipationDay, OutcomeCode, correct, wrong, revealed,
  surrendered, GameplayError, domain, GameplayCommand, guess, reveal, give_up, malformed,
  RejectionCode, evidence_limit_reached, invalid_command, terminal, unknown_entity, FreshIds, lift,
}
use loremaster.Gameplay.Rows.{find_revision}
use loremaster.Gameplay.Reconciliation.{set_play, updated_row, finalize}

-- The day of an instant in UTC, as days since 1970.
abbrev pub utc_day : ℕ → ℕ
utc_day at = at / 86400000

-- `ON CONFLICT (guest_id, utc_day) DO NOTHING`
unfoldable pub participate : String → ℕ → List ParticipationDay → List ParticipationDay
participate guest_id at days =
    if any (λ d. str_eq d.guest_id guest_id && d.utc_day == utc_day at) days
    then days
    else record { guest_id = guest_id; utc_day = utc_day at; first_guess_at = at } ∷ days

-- The eligible entity of the revision that the text names, by either of its identifiers.
find_entity : String → String → List CaseEntity → Option CaseEntity
find_entity revision_id named [] = none
find_entity revision_id named (e ∷ es) =
    let rest = find_entity revision_id named es in
    if str_eq e.revision_id revision_id
      && (str_eq e.public_id named || str_eq e.entity_id named)
      && e.is_eligible
    then some e
    else rest

is_answer : CaseEntity → Revision → Bool
is_answer e r = str_eq e.entity_id r.answer_entity_id

is_solved : Snapshot → Bool
is_solved a = elim a.state [ solved ↦ true | _ ↦ false ]

-- What a command asks of the attempt: the transition, the outcome that is stored, and the entity of
-- a guess.
pub record Planned : Type 0 where
  pub transition : TransitionResult
  pub outcome_code : OutcomeCode
  pub guessed : Option String

-- A command is refused before any transition, or planned.
pub data Plan : Type 0 where
  refuse : RejectionCode → Plan
  planned : Planned → Plan

-- The entity joined with its revision: without either the query has no row.
plan_guess : AttemptRow → Option CaseEntity → Option Revision → Result GameplayError Plan
unfolding is_answer
plan_guess row none revision = ok (refuse unknown_entity)
plan_guess row (some e) none = ok (refuse unknown_entity)
plan_guess row (some e) (some r) = do
  let is_correct = is_answer e r
  transition ← lift domain (apply_guess row.play is_correct)
  ok (
      planned (record {
        transition = transition;
        outcome_code = if is_correct then correct else wrong;
        guessed = some e.entity_id;
      }))

unfoldable pub plan : Store → AttemptRow → GameplayCommand → Result GameplayError Plan
unfolding plan_guess find_entity
plan s row (guess entity_id) =
    plan_guess row (find_entity row.revision_id entity_id s.entities)
      (find_revision s row.revision_id)
plan s row reveal = do
  transition ← lift domain (reveal_evidence row.play)
  ok (planned (record { transition = transition; outcome_code = revealed; guessed = none }))
plan s row give_up = do
  transition ← lift domain (Engine.give_up row.play)
  ok (planned (record { transition = transition; outcome_code = surrendered; guessed = none }))
plan s row malformed = ok (refuse invalid_command)

-- The guess and the day of participation.
unfoldable pub record_guess : FreshIds → AttemptRow → Snapshot → ℕ → Option String → Store → Store
unfolding is_solved participate
record_guess ids row next at none s = s
record_guess ids row next at (some entity_id) s = record s {
  guesses =
      record {
        id = ids.guess;
        attempt_id = row.id;
        revision_id = row.revision_id;
        guess_number = row.play.total_wrong_guesses + 1;
        entity_id = entity_id;
        was_correct = is_solved next;
        evidence_level = row.play.evidence_level;
        guessed_at = at;
      }
      ∷ s.guesses;
  participation_days = participate row.guest_id at s.participation_days;
}

-- The end of the attempt, or the `UPDATE` of one that goes on.
unfoldable pub advance :
    AttemptRow → Snapshot → ℕ → Store → Result GameplayError (AttemptRow × Store)
advance row next at s =
    if not (is_active next.state)
    then finalize row next at s
    else ok (
      updated_row row next at,
      record s { attempts = map (set_play row.id next at none) s.attempts },
    )

pub rejection_code : TransitionRejection → RejectionCode
rejection_code evidence_limit = evidence_limit_reached
rejection_code terminal_attempt = terminal
