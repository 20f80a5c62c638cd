-- ===== src/Gameplay/Rows.antt =====
-- The reads of packages/database/src/gameplay/attempt-records.ts and the guards of runtime.ts.
pub mod Owned
use loremaster.Prelude.{
  ℕ, Bool, ◌&&◌, List, [], ◌∷◌, Option, none, some, String, str_eq, any, find, Result, ◌>>=◌, ltb,
  leb, if◌then◌else◌,
}
use loremaster.Domain.Projections.{
  PrivateCaseFile, PrivateAttemptRecord, PrivateGuessRecord, AttemptProjection, project_attempt,
}
use loremaster.Gameplay.{
  Store, Revision, CaseEntity, StoredAttempt, AttemptRow, GuessRow, GameplayError, projection, lift,
}

unfoldable pub lock_guest : Store → String → Bool
lock_guest s guest_id = any (λ g. str_eq g.id guest_id) s.guests

unfoldable pub session_is_live : Store → String → String → ℕ → Bool
session_is_live s guest_id session_id now =
    any (λ x. str_eq x.id session_id && str_eq x.guest_id guest_id && ltb now x.expires_at)
      s.sessions

is_open : ℕ → Revision → Bool
is_open now r = r.is_published && leb r.opens_at now && ltb now r.closes_at

-- The later opening of two; the first one of equals.
later : Revision → Option Revision → Revision
later r none = r
later r (some q) = if ltb r.opens_at q.opens_at then q else r

latest_open : ℕ → List Revision → Option Revision
unfolding is_open later
latest_open now [] = none
latest_open now (r ∷ rs) =
    let rest = latest_open now rs in if is_open now r then some (later r rest) else rest

unfoldable pub current_revision : Store → ℕ → Option Revision
unfolding latest_open
current_revision s now = latest_open now s.revisions

pub find_revision : Store → String → Option Revision
find_revision s id = find (λ r. str_eq r.id id) s.revisions

joined : ℕ → StoredAttempt → Revision → AttemptRow
joined now a r = record {
  id = a.id;
  guest_id = a.guest_id;
  revision_id = a.revision_id;
  slot_id = a.slot_id;
  play = a.play;
  version = a.version;
  started_at = a.started_at;
  closes_at = r.closes_at;
  snapshot_at = now;
}

join : ℕ → StoredAttempt → Option Revision → Option AttemptRow
unfolding joined
join now a none = none
join now a (some r) = some (joined now a r)

join_found : Store → ℕ → Option StoredAttempt → Option AttemptRow
unfolding join find_revision
join_found s now none = none
join_found s now (some a) = join now a (find_revision s a.revision_id)

owned : String → String → StoredAttempt → Bool
owned attempt_id guest_id a = str_eq a.id attempt_id && str_eq a.guest_id guest_id

unfoldable pub attempt_row : Store → String → String → ℕ → Option AttemptRow
unfolding join_found owned
attempt_row s attempt_id guest_id now =
    join_found s now (find (owned attempt_id guest_id) s.attempts)

-- `SELECT id FROM attempts WHERE guest_id = $1 AND slot_id = $2`
unfoldable pub attempt_in_slot : Store → String → String → Option StoredAttempt
attempt_in_slot s guest_id slot_id =
    find (λ a. str_eq a.guest_id guest_id && str_eq a.slot_id slot_id) s.attempts

entity_of : Store → GuessRow → Option CaseEntity
entity_of s g =
    find (λ e. str_eq e.revision_id g.revision_id && str_eq e.entity_id g.entity_id) s.entities

-- `clock` prints an instant as `toISOString` does, and `hydrate_case` reads the published file of a
-- revision.
module _ (clock : ℕ → String) (hydrate_case : String → Result GameplayError PrivateCaseFile) where
  guess_record : String → GuessRow → CaseEntity → PrivateGuessRecord
  guess_record guest_id g e = record {
    guess_id = g.id;
    guest_id = guest_id;
    entity_id = e.public_id;
    guessed_at = clock g.guessed_at;
  }

  add_guess :
      Store
      → String
      → GuessRow
      → Option CaseEntity
      → List PrivateGuessRecord
      → List PrivateGuessRecord
  unfolding guess_record
  add_guess s guest_id g none rest = rest
  add_guess s guest_id g (some e) rest = guess_record guest_id g e ∷ rest

  -- The guesses of an attempt, in the order of the given rows.
  guess_records : Store → String → String → List GuessRow → List PrivateGuessRecord
  unfolding add_guess entity_of
  guess_records s attempt_id guest_id [] = []
  guess_records s attempt_id guest_id (g ∷ gs) =
      let rest = guess_records s attempt_id guest_id gs in
      if str_eq g.attempt_id attempt_id then add_guess s guest_id g (entity_of s g) rest else rest

  -- `ORDER BY guess.guess_number`
  insert_guess : GuessRow → List GuessRow → List GuessRow
  insert_guess g [] = g ∷ []
  insert_guess g (h ∷ hs) =
      let rest = insert_guess g hs in
      if leb g.guess_number h.guess_number then g ∷ h ∷ hs else h ∷ rest

  by_number : List GuessRow → List GuessRow
  unfolding insert_guess
  by_number [] = []
  by_number (g ∷ gs) = insert_guess g (by_number gs)

  attempt_record : Store → AttemptRow → String → PrivateAttemptRecord
  unfolding guess_records by_number
  attempt_record s row guest_id = record {
    attempt_id = row.id;
    owner_guest_id = row.guest_id;
    slot_id = row.slot_id;
    revision_id = row.revision_id;
    version = row.version;
    started_at = clock row.started_at;
    snapshot_at = clock row.snapshot_at;
    attempt = row.play;
    guesses = guess_records s row.id guest_id (by_number s.guesses);
  }

  unfoldable pub hydrate_projection :
      Store → AttemptRow → String → Result GameplayError AttemptProjection
  unfolding attempt_record
  hydrate_projection s row guest_id = do
    case_file ← hydrate_case row.revision_id
    lift projection (project_attempt case_file (attempt_record s row guest_id) guest_id)
