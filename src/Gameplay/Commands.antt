-- ===== src/Gameplay/Commands.antt =====
-- packages/database/src/gameplay/attempts.ts: the transactions that play on an attempt. `to_iso_string` prints an instant, `sha256_of_json` is the digest of the JSON text of a
-- list, and `hydrate_case` reads the published file of a revision.
pub mod Ledger
pub mod Idempotence
pub mod Once
pub mod Soundness
use loremaster.Prelude.{
  ℕ, true, false, ◌||◌, not, List, ◌∷◌, Option, none, some, String, Result, ok, ◌>>=◌, ◌==◌,
  if◌then◌else◌,
}
use loremaster.Prelude.Js.{Text}
use loremaster.Domain.Attempt.{Snapshot, TransitionResult, accepted, rejected, is_active}
use loremaster.Domain.Projections.{PrivateCaseFile, AttemptProjection}
use loremaster.Gameplay.{
  Store, AttemptRow, OutcomeCode, Receipt, GameplayError, GameplayCommandRequest, RejectionCode,
  idempotency_conflict, invalid_command, session_expired, stale_version, terminal, unknown_attempt,
  CommandResult, done, refused, refused_showing, Instants, FreshIds, transaction,
}
use loremaster.Gameplay.Rows.{lock_guest, session_is_live, attempt_row, hydrate_projection}
use loremaster.Gameplay.Reconciliation.{expire_if_closed}
use loremaster.Gameplay.Receipts.{
  Part, same_text, validate_key, safe_version, command_parts, command_kind, command_receipt_outcome,
  receipt, is_attempt,
}
use loremaster.Gameplay.Plans.{
  Plan, refuse, planned, Planned, plan, record_guess, advance, rejection_code,
}

module _ (to_iso_string : ℕ → String) (sha256_of_json : List Part → Text)
    (hydrate_case : String → Result GameplayError PrivateCaseFile) where
  abbrev hydrate : Store → AttemptRow → String → Result GameplayError AttemptProjection
  hydrate = hydrate_projection to_iso_string hydrate_case

  -- A rejection that shows the attempt.
  show : Store → AttemptRow → String → RejectionCode → Result GameplayError (CommandResult × Store)
  show s row guest_id code = do shown ← hydrate s row guest_id; ok (refused_showing code shown, s)

  -- The answer to a request whose receipt is stored.
  replay :
      String → OutcomeCode → AttemptRow → ℕ → Store → Result GameplayError (CommandResult × Store)
  replay guest_id outcome row sampled s = do
    (current, s1) ← expire_if_closed row sampled s
    shown ← hydrate s1 current guest_id
    ok (done outcome true shown, s1)

  command_receipt :
      FreshIds → GameplayCommandRequest → List Part → OutcomeCode → AttemptRow → Receipt
  unfolding command_kind
  command_receipt ids request parts outcome row = record {
    id = ids.receipt;
    guest_id = request.guest_id;
    session_id = request.session_id;
    idempotency_key = request.idempotency_key;
    command_fingerprint = sha256_of_json parts;
    command_kind = command_kind request.command;
    outcome_code = outcome;
    attempt_id = some row.id;
    committed_version = row.version;
  }

  -- A transition that was accepted: the rows it writes, the receipt last.
  unfoldable pub commit :
      FreshIds
      → GameplayCommandRequest
      → List Part
      → AttemptRow
      → ℕ
      → Planned
      → Snapshot
      → Store
      → Result GameplayError (CommandResult × Store)
  unfolding command_receipt record_guess
  commit ids request parts row at p next s = do
    (row', s1) ← advance row next at (record_guess ids row next at p.guessed s)
    let s2 = record s1 {
      receipts = command_receipt ids request parts p.outcome_code row' ∷ s1.receipts;
    }
    shown ← hydrate s2 row' request.guest_id
    ok (done p.outcome_code false shown, s2)

  commit_transition :
      FreshIds
      → GameplayCommandRequest
      → List Part
      → AttemptRow
      → ℕ
      → Planned
      → TransitionResult
      → Store
      → Result GameplayError (CommandResult × Store)
  unfolding show
  commit_transition ids request parts row at p (accepted next participates) s =
      commit ids request parts row at p next s
  commit_transition ids request parts row at p (rejected reason a) s =
      show s row request.guest_id (rejection_code reason)

  commit_plan :
      FreshIds
      → GameplayCommandRequest
      → List Part
      → AttemptRow
      → ℕ
      → Plan
      → Store
      → Result GameplayError (CommandResult × Store)
  unfolding commit_transition
  commit_plan ids request parts row at (refuse code) s = ok (refused code, s)
  commit_plan ids request parts row at (planned p) s =
      commit_transition ids request parts row at p p.transition s

  -- The command on the attempt as the clock leaves it.
  unfoldable pub play :
      FreshIds
      → GameplayCommandRequest
      → ℕ
      → List Part
      → AttemptRow
      → ℕ
      → Store
      → Result GameplayError (CommandResult × Store)
  unfolding show commit_plan
  play ids request v parts row at s =
      if not (is_active row.play.state)
      then show s row request.guest_id terminal
      else if not (row.version == v)
      then show s row request.guest_id stale_version
      else (do p ← plan s row request.command; commit_plan ids request parts row at p s)

  pub play_row :
      FreshIds
      → Instants
      → GameplayCommandRequest
      → ℕ
      → List Part
      → Option AttemptRow
      → Store
      → Result GameplayError (CommandResult × Store)
  unfolding play
  play_row ids now request v parts none s = ok (refused unknown_attempt, s)
  play_row ids now request v parts (some row) s = do
    (current, s1) ← expire_if_closed row now.sampled s
    play ids request v parts current now.sampled s1

  pub replay_row :
      Instants
      → GameplayCommandRequest
      → Receipt
      → Option AttemptRow
      → Store
      → Result GameplayError (CommandResult × Store)
  unfolding replay command_receipt_outcome command_kind
  replay_row now request prior none s = ok (refused unknown_attempt, s)
  replay_row now request prior (some row) s = do
    outcome ← command_receipt_outcome prior (command_kind request.command)
    replay request.guest_id outcome row now.sampled s

  -- The branches on the receipt of the key.
  unfoldable pub execute_keyed :
      FreshIds
      → Instants
      → GameplayCommandRequest
      → ℕ
      → List Part
      → Option Receipt
      → Store
      → Result GameplayError (CommandResult × Store)
  unfolding play_row replay_row is_attempt
  execute_keyed ids now request v parts none s =
      play_row ids now request v parts
        (attempt_row s request.attempt_id request.guest_id now.row_read) s
  execute_keyed ids now request v parts (some prior) s =
      if not (same_text prior.command_fingerprint (sha256_of_json parts))
        || not (is_attempt request.attempt_id prior.attempt_id)
      then ok (refused idempotency_conflict, s)
      else replay_row now request prior
          (attempt_row s request.attempt_id request.guest_id now.row_read) s

  execute_parts :
      FreshIds
      → Instants
      → GameplayCommandRequest
      → ℕ
      → Option (List Part)
      → Store
      → Result GameplayError (CommandResult × Store)
  unfolding execute_keyed receipt
  execute_parts ids now request v none s = ok (refused invalid_command, s)
  execute_parts ids now request v (some parts) s =
      execute_keyed ids now request v parts (receipt s request.guest_id request.idempotency_key) s

  execute_version :
      FreshIds
      → Instants
      → GameplayCommandRequest
      → Option ℕ
      → Store
      → Result GameplayError (CommandResult × Store)
  unfolding execute_parts
  execute_version ids now request none s = ok (refused invalid_command, s)
  execute_version ids now request (some v) s =
      if not (validate_key request.idempotency_key)
      then ok (refused invalid_command, s)
      else if not (lock_guest s request.guest_id)
          || not (session_is_live s request.guest_id request.session_id now.session_checked)
      then ok (refused session_expired, s)
      else execute_parts ids now request v (command_parts request.attempt_id v request.command) s

  -- The body of the transaction.
  unfoldable pub execute_body :
      FreshIds
      → Instants
      → GameplayCommandRequest
      → Store
      → Result GameplayError (CommandResult × Store)
  unfolding execute_version safe_version
  execute_body ids now request s =
      execute_version ids now request (safe_version request.expected_version) s

  unfoldable pub execute_gameplay_command :
      FreshIds
      → Instants
      → GameplayCommandRequest
      → Store
      → Result GameplayError CommandResult × Store
  unfolding execute_body
  execute_gameplay_command ids now request = transaction (execute_body ids now request)
