-- ===== src/Gameplay/Start.antt =====
-- packages/database/src/gameplay/attempts.ts: the transactions that start an attempt and that read
-- the current case and an attempt. The parameters are those of the commands.
pub mod Validity
use loremaster.Prelude.{
  ℕ, Bool, true, false, ◌||◌, not, List, ◌∷◌, Option, none, some, String, Result, ok, err, ◌>>=◌,
  ◌>>◌, if◌then◌else◌,
}
use loremaster.Prelude.Js.{Text}
use loremaster.Domain.Attempt.{active}
use loremaster.Domain.Projections.{
  PrivateCaseFile, AttemptProjection, CaseProjection, attempt_view, project_no_case,
  project_not_started,
}
use loremaster.Gameplay.{
  Store, Revision, StoredAttempt, AttemptRow, CommandKind, start_kind, started, Receipt,
  GameplayError, owned_attempt_disappeared, attempt_start_failed, StartAttemptRequest,
  idempotency_conflict, invalid_command, no_case, session_expired, CommandResult, done, refused,
  Instants, FreshIds, transaction,
}
use loremaster.Gameplay.Rows.{
  lock_guest, session_is_live, current_revision, attempt_row, attempt_in_slot, hydrate_projection,
}
use loremaster.Gameplay.Reconciliation.{expire_if_closed}
use loremaster.Gameplay.Receipts.{
  Part, same_text, validate_key, start_parts, start_receipt_outcome, receipt,
}

-- The row of a new attempt; the table has defaults for its counters.
unfoldable pub new_attempt : FreshIds → String → Revision → ℕ → StoredAttempt
new_attempt ids guest_id revision at = record {
  id = ids.attempt;
  guest_id = guest_id;
  revision_id = revision.id;
  slot_id = revision.slot_id;
  play = record {
    state = active;
    evidence_level = 0;
    wrong_guesses_at_level = 0;
    total_wrong_guesses = 0;
  };
  version = 0;
  started_at = at;
  updated_at = at;
  terminal_at = none;
}

-- `ON CONFLICT (guest_id, slot_id) DO NOTHING`, on the row that stands in the slot
insert_unless : Option StoredAttempt → StoredAttempt → Store → String × Store
insert_unless (some existing) a s = (existing.id, s)
insert_unless none a s = (a.id, record s { attempts = a ∷ s.attempts })

-- The insertion, and the id of the attempt of the slot
unfoldable pub insert_attempt : StoredAttempt → Store → String × Store
unfolding insert_unless
insert_attempt a s = insert_unless (attempt_in_slot s a.guest_id a.slot_id) a s

is_start_kind : CommandKind → Bool
is_start_kind start_kind = true
is_start_kind _ = false

module _ (to_iso_string : ℕ → String) (sha256_of_json : List Part → Text)
    (hydrate_case : String → Result GameplayError PrivateCaseFile) where
  abbrev hydrate : Store → AttemptRow → String → Result GameplayError AttemptProjection
  hydrate = hydrate_projection to_iso_string hydrate_case

  -- The attempt as the clock leaves it, shown.
  refresh : String → AttemptRow → ℕ → Store → Result GameplayError (AttemptProjection × Store)
  refresh guest_id row sampled s = do
    (current, s1) ← expire_if_closed row sampled s
    shown ← hydrate s1 current guest_id
    ok (shown, s1)

  start_receipt : FreshIds → StartAttemptRequest → AttemptRow → Receipt
  start_receipt ids request row = record {
    id = ids.receipt;
    guest_id = request.guest_id;
    session_id = request.session_id;
    idempotency_key = request.idempotency_key;
    command_fingerprint = sha256_of_json start_parts;
    command_kind = start_kind;
    outcome_code = started;
    attempt_id = some row.id;
    committed_version = row.version;
  }

  start_row :
      FreshIds
      → StartAttemptRequest
      → Option AttemptRow
      → Store
      → Result GameplayError (CommandResult × Store)
  unfolding start_receipt
  start_row ids request none s = err attempt_start_failed
  start_row ids request (some row) s = do
    let s1 = record s { receipts = start_receipt ids request row ∷ s.receipts }
    shown ← hydrate s1 row request.guest_id
    ok (done started false shown, s1)

  start_in :
      FreshIds
      → Instants
      → StartAttemptRequest
      → Option Revision
      → Store
      → Result GameplayError (CommandResult × Store)
  unfolding start_row
  start_in ids now request none s = ok (refused no_case, s)
  start_in ids now request (some revision) s =
      let (id, s1) = insert_attempt (new_attempt ids request.guest_id revision now.sampled) s in
      start_row ids request (attempt_row s1 id request.guest_id now.row_read) s1

  restart_row :
      Instants
      → StartAttemptRequest
      → Option AttemptRow
      → Store
      → Result GameplayError (CommandResult × Store)
  unfolding refresh
  restart_row now request none s = ok (refused idempotency_conflict, s)
  restart_row now request (some row) s = do
    (shown, s1) ← refresh request.guest_id row now.sampled s
    ok (done started true shown, s1)

  restart :
      Instants
      → StartAttemptRequest
      → Receipt
      → Option String
      → Store
      → Result GameplayError (CommandResult × Store)
  unfolding restart_row is_start_kind
  restart now request prior none s = ok (refused idempotency_conflict, s)
  restart now request prior (some id) s =
      if not (same_text prior.command_fingerprint (sha256_of_json start_parts))
        || not (is_start_kind prior.command_kind)
      then ok (refused idempotency_conflict, s)
      else (do
        start_receipt_outcome prior
        restart_row now request (attempt_row s id request.guest_id now.row_read) s)

  start_keyed :
      FreshIds
      → Instants
      → StartAttemptRequest
      → Option Receipt
      → Store
      → Result GameplayError (CommandResult × Store)
  unfolding restart start_in
  start_keyed ids now request (some prior) s = restart now request prior prior.attempt_id s
  start_keyed ids now request none s = start_in ids now request (current_revision s now.sampled) s

  unfoldable pub start_body :
      FreshIds
      → Instants
      → StartAttemptRequest
      → Store
      → Result GameplayError (CommandResult × Store)
  unfolding start_keyed
  start_body ids now request s =
      if not (validate_key request.idempotency_key)
      then ok (refused invalid_command, s)
      else if not (lock_guest s request.guest_id)
          || not (session_is_live s request.guest_id request.session_id now.session_checked)
      then ok (refused session_expired, s)
      else start_keyed ids now request (receipt s request.guest_id request.idempotency_key) s

  unfoldable pub start_current_attempt :
      FreshIds → Instants → StartAttemptRequest → Store → Result GameplayError CommandResult × Store
  unfolding start_body
  start_current_attempt ids now request = transaction (start_body ids now request)

  read_row :
      String
      → Instants
      → Option AttemptRow
      → Store
      → Result GameplayError (Option AttemptProjection × Store)
  unfolding refresh
  read_row guest_id now none s = ok (none, s)
  read_row guest_id now (some row) s = do
    (shown, s1) ← refresh guest_id row now.sampled s
    ok (some shown, s1)

  read_body :
      Instants → String → String → Store → Result GameplayError (Option AttemptProjection × Store)
  unfolding read_row
  read_body now guest_id attempt_id s =
      if not (lock_guest s guest_id)
      then ok (none, s)
      else read_row guest_id now (attempt_row s attempt_id guest_id now.row_read) s

  unfoldable pub read_owned_attempt :
      Instants → String → String → Store → Result GameplayError (Option AttemptProjection) × Store
  unfolding read_body
  read_owned_attempt now guest_id attempt_id = transaction (read_body now guest_id attempt_id)

  slot_of : Revision → CaseProjection
  slot_of r = project_not_started (record {
    slot_id = r.slot_id;
    opens_at = to_iso_string r.opens_at;
    closes_at = to_iso_string r.closes_at;
  })

  current_row :
      String → Instants → Option AttemptRow → Store → Result GameplayError (CaseProjection × Store)
  unfolding refresh
  current_row guest_id now none s = err owned_attempt_disappeared
  current_row guest_id now (some row) s = do
    (shown, s1) ← refresh guest_id row now.sampled s
    ok (attempt_view shown, s1)

  current_attempt :
      String
      → Instants
      → Revision
      → Option StoredAttempt
      → Store
      → Result GameplayError (CaseProjection × Store)
  unfolding slot_of current_row
  current_attempt guest_id now revision none s = ok (slot_of revision, s)
  current_attempt guest_id now revision (some a) s =
      if not (lock_guest s guest_id)
      then ok (slot_of revision, s)
      else current_row guest_id now (attempt_row s a.id guest_id now.row_read) s

  current_case :
      String → Instants → Option Revision → Store → Result GameplayError (CaseProjection × Store)
  unfolding current_attempt
  current_case guest_id now none s = ok (project_no_case, s)
  current_case guest_id now (some revision) s =
      current_attempt guest_id now revision (attempt_in_slot s guest_id revision.slot_id) s

  -- `session_checked` is the first reading of the clock, which chooses the revision.
  unfoldable pub read_current_case :
      Instants → String → Store → Result GameplayError CaseProjection × Store
  unfolding current_case
  read_current_case now guest_id =
      transaction (λ s. current_case guest_id now (current_revision s now.session_checked) s)
