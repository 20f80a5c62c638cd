-- ===== src/Examples/Gameplay.antt =====
-- Runs of packages/database/src/gameplay.
use loremaster.Prelude.{
  ℕ, ◌≡◌, ◌≢◌, refl, ◌⊎◌, inl, true, false, List, [], ◌∷◌, none, some, String, str_eq, Result, ok,
  err, length, arith,
}
use loremaster.Prelude.Int.{pos}
use loremaster.Prelude.Js.{Text, int, compare_text, natural_up_to}
use loremaster.Domain.Attempt.{Snapshot, active, assert_valid_attempt_snapshot, to_candidate}
use loremaster.Domain.Attempt.Engine.{apply_guess, guess_active}
use loremaster.Domain.Projections.{
  PrivateCaseFile, PrivateEvidence, AttemptProjection, project_attempt, project_checked,
  project_attempt_base, project_public_evidence, project_public_suggestion,
}
use loremaster.Gameplay.{
  Store, Receipt, GameplayError, GameplayCommandRequest, StartAttemptRequest, guess, wrong, correct,
  guess_kind, session_expired, unknown_attempt, idempotency_conflict, CommandResult, done, refused,
  Instants, FreshIds, transaction, lift,
}
use loremaster.Gameplay.Rows.{lock_guest, session_is_live, attempt_row, hydrate_projection}
use loremaster.Gameplay.Receipts.{
  Part, text, version, validate_key, safe_version, command_parts, command_kind, same_text, receipt,
  is_attempt,
}
use loremaster.Gameplay.Plans.{plan, record_guess, participate, advance}
use loremaster.Gameplay.Reconciliation.{set_play, updated_row, expire_if_closed}
use loremaster.Gameplay.Reconciliation.Keeps.{Sound, books}
use loremaster.Gameplay.Start.{start_current_attempt, read_owned_attempt}
use loremaster.Gameplay.Start.Validity.{start-Sound}
use loremaster.Gameplay.Commands.{
  execute_gameplay_command, execute_body, execute_keyed, play, commit,
}
use loremaster.Gameplay.Commands.Idempotence.{IsWellFormed, is_signed_out, Ledgered}
use loremaster.Gameplay.Commands.Once.{execute-Ledgered, execute-replays, execute-conflict}
use loremaster.Gameplay.Commands.Soundness.{execute-Sound}

abbrev clock : ℕ → String
clock t = "2026-11-26T00:00:00.000Z"

abbrev digest : List Part → Text
digest parts = length parts ∷ []

abbrev clue : ℕ → PrivateEvidence
clue n = record { level = n; text = "clue"; explanation = "why"; source_references = [] }

abbrev case_file : PrivateCaseFile
case_file = record {
  slot_id = "slot";
  revision_id = "rev";
  opens_at = "a";
  closes_at = "b";
  briefing = "who?";
  suggestions = [];
  answer_entity_id = "anduin";
  evidence = clue 1 ∷ clue 2 ∷ clue 3 ∷ clue 4 ∷ [];
}

abbrev hydrate_case : String → Result GameplayError PrivateCaseFile
hydrate_case id = ok case_file

abbrev fresh_play : Snapshot
fresh_play = record {
  state = active;
  evidence_level = 0;
  wrong_guesses_at_level = 0;
  total_wrong_guesses = 0;
}

abbrev pub tables : Store
tables = record {
  guests = record { id = "g"; pseudonym = "Ranger" } ∷ [];
  sessions = record { id = "s"; guest_id = "g"; expires_at = 900 } ∷ [];
  revisions =
      record {
        id = "rev";
        slot_id = "slot";
        is_published = true;
        opens_at = 0;
        closes_at = 800;
        answer_entity_id = "e1";
      }
      ∷ [];
  entities =
      record { revision_id = "rev"; entity_id = "e2"; public_id = "arthas"; is_eligible = true }
      ∷ [];
  regions = [];
  attempts =
      record {
        id = "a";
        guest_id = "g";
        revision_id = "rev";
        slot_id = "slot";
        play = fresh_play;
        version = 0;
        started_at = 10;
        updated_at = 10;
        terminal_at = none;
      }
      ∷ [];
  guesses = [];
  participation_days = [];
  receipts = [];
  finalizations = [];
  contributions = [];
  knowledge = [];
  leaderboard = [];
}

abbrev ids : FreshIds
ids = record { attempt = "u1"; guess = "u2"; receipt = "u3" }

abbrev pub now : Instants
now = record { session_checked = 20; row_read = 21; sampled = 22 }

abbrev request : GameplayCommandRequest
request = record {
  guest_id = "g";
  session_id = "s";
  attempt_id = "a";
  expected_version = int (pos 0);
  idempotency_key = b'k' ∷ [];
  command = guess "arthas";
}

-- A wrong guess: the result and the tables that it leaves.
abbrev first_run : Result GameplayError CommandResult × Store
first_run = execute_gameplay_command clock digest hydrate_case ids now request tables

execute-Ledgered_example :
    ((e : GameplayError) × (first_run.0 ≡ err e) × (first_run.1 ≡ tables))
    ⊎ ((r : CommandResult) × (first_run.0 ≡ ok r)
        × Ledgered clock digest hydrate_case request tables r first_run.1)
execute-Ledgered_example =
    execute-Ledgered clock digest hydrate_case ids now request tables first_run.1 first_run.0 refl

first_run_wrong :
    (shown : AttemptProjection) × (s : Store) × (first_run ≡ (ok (done wrong false shown), s))
    × (length s.guesses ≡ 1)
unfolding execute_gameplay_command execute_body execute_keyed transaction lock_guest session_is_live
    attempt_row hydrate_projection validate_key safe_version command_parts same_text receipt
    is_attempt plan record_guess participate advance set_play updated_row expire_if_closed play
    commit project_attempt project_checked project_attempt_base project_public_evidence
    project_public_suggestion assert_valid_attempt_snapshot to_candidate apply_guess guess_active
    str_eq natural_up_to compare_text lift command_kind
first_run_wrong = (_, _, refl, refl)

-- The same request a little later, with other identifiers.
abbrev later : Instants
later = record { session_checked = 40; row_read = 41; sampled = 42 }

abbrev later_ids : FreshIds
later_ids = record { attempt = "u4"; guess = "u5"; receipt = "u6" }

abbrev second_run : Store → Result GameplayError CommandResult × Store
second_run = execute_gameplay_command clock digest hydrate_case later_ids later request

execute-replays_example :
    (books (second_run first_run_wrong.1).1 ≡ books first_run_wrong.1)
    × (((e : GameplayError) × ((second_run first_run_wrong.1).0 ≡ err e))
        ⊎ ((second_run first_run_wrong.1).0 ≡ ok (refused session_expired))
        ⊎ ((second_run first_run_wrong.1).0 ≡ ok (refused unknown_attempt))
        ⊎ ((again : AttemptProjection) × ((second_run first_run_wrong.1).0
              ≡ ok (done wrong true again))))
execute-replays_example =
    execute-replays clock digest hydrate_case ids later_ids now later request tables
      first_run_wrong.1 (second_run first_run_wrong.1).1 wrong first_run_wrong.0
      (second_run first_run_wrong.1).0 first_run_wrong.2 refl

abbrev other_receipt : Receipt
other_receipt = record {
  id = "u0";
  guest_id = "g";
  session_id = "s";
  idempotency_key = b'k' ∷ [];
  command_fingerprint = 4 ∷ [];
  command_kind = guess_kind;
  outcome_code = correct;
  attempt_id = some "a";
  committed_version = 1;
}

abbrev taken : Store
taken = record tables { receipts = other_receipt ∷ [] }

abbrev parts : List Part
parts = text "v1" ∷ text "GUESS" ∷ text "a" ∷ version 0 ∷ text "arthas" ∷ []

request-IsWellFormed : IsWellFormed request 0 parts
unfolding validate_key safe_version command_parts
request-IsWellFormed = record { key = refl; version = refl; canonical = refl }

request_live : is_signed_out taken request now ≡ false
unfolding lock_guest session_is_live str_eq
request_live = refl

taken_found : receipt taken "g" (b'k' ∷ []) ≡ some other_receipt
unfolding receipt str_eq same_text compare_text
taken_found = refl

digests_differ : other_receipt.command_fingerprint ≢ digest parts
digests_differ h = absurd (ground arith)

execute-conflict_example :
    execute_gameplay_command clock digest hydrate_case ids now request taken
    ≡ (ok (refused idempotency_conflict), taken)
execute-conflict_example =
    execute-conflict clock digest hydrate_case ids now request 0 parts other_receipt taken
      request-IsWellFormed request_live taken_found (inl digests_differ)

tables-Sound : Sound tables
tables-Sound = (
  (
    record {
      level_capped = omega arith;
      wrong_capped = omega arith;
      at_least_here = omega arith;
      at_most_behind = λ _. omega arith;
      exhausted_final = λ x. cc;
    },
    tt,
  ),
  (tt, tt),
)

execute-Sound_example :
    Sound (execute_gameplay_command clock digest hydrate_case ids now request tables).1
execute-Sound_example = execute-Sound clock digest hydrate_case ids now request tables tables-Sound

abbrev start_request : StartAttemptRequest
start_request = record { guest_id = "g"; session_id = "s"; idempotency_key = b'n' ∷ [] }

start-Sound_example :
    Sound (start_current_attempt clock digest hydrate_case ids now start_request tables).1
    × Sound (read_owned_attempt clock digest hydrate_case now "g" "a" tables).1
start-Sound_example =
    start-Sound clock digest hydrate_case ids now start_request "g" "a" tables tables-Sound
