-- ===== src/Identity.antt =====
-- packages/database/src/identity/session-repository.ts: sessions of guests on the tables of identity.
-- SHA-256, the random draws, the clock and the failures of the database are parameters.
pub mod Creation
pub mod Retries
use loremaster.Prelude.{
  ℕ, suc, zero, ◌+◌, ◌*◌, Bool, ◌&&◌, ◌||◌, List, [], ◌∷◌, Option, none, some, String, str_eq,
  Result, ok, err, any, find, ltb, if◌then◌else◌,
}
use loremaster.Prelude.Js.{Text, same_text}
use loremaster.Api.Cookies.{is_token}

pub record GuestRow : Type 0 where
  pub id : String
  pub pseudonym : String

pub record SessionRow : Type 0 where
  pub id : String
  pub guest_id : String
  pub token_hash : Text
  pub csrf_hash : Text
  pub expires_at : ℕ

-- `loremaster.guests` and `loremaster.guest_sessions`; a new row is put in front.
pub record Tables : Type 0 where
  pub guests : List GuestRow
  pub sessions : List SessionRow

pub record AuthenticatedSession : Type 0 where
  pub guest_id : String
  pub session_id : String
  pub csrf_hash : Text
  pub expires_at : ℕ
  pub pseudonym : String

pub record CreatedGuestSession : Type 0 where
  pub session : AuthenticatedSession
  pub authentication_token : Text
  pub csrf_token : Text

-- What one try draws at random.
pub record Draw : Type 0 where
  pub guest_id : String
  pub session_id : String
  pub authentication_token : Text
  pub csrf_token : Text
  pub pseudonym : String

-- What the database throws in a try, apart from a violated key.
pub data Trouble : Type 0 where
  timeout failure : Trouble

pub data CreateError : Type 0 where
  unique_violation : CreateError
  database : Trouble → CreateError

-- The exception that leaves the operations: the timeout, or `SessionPersistenceError`.
pub data IdentityError : Type 0 where
  database_timeout session_persistence_failed : IdentityError

abbrev pub thirty_days : ℕ
thirty_days = 2592000000

abbrev pub maximum_create_attempts : ℕ
maximum_create_attempts = 3

module _ (hash_secret : Text → Text) where
  -- The keys of the two tables that the row would repeat.
  unfoldable pub collides : Draw → Tables → Bool
  collides d s =
      any (λ g. str_eq g.id d.guest_id) s.guests
      || any
          (λ x.
            str_eq x.id d.session_id || same_text x.token_hash (hash_secret d.authentication_token))
          s.sessions

  -- The rows that the statement inserts, at a time.
  unfoldable pub inserted : Draw → ℕ → Tables → Tables
  inserted d now s = record {
    guests = record { id = d.guest_id; pseudonym = d.pseudonym } ∷ s.guests;
    sessions =
        record {
          id = d.session_id;
          guest_id = d.guest_id;
          token_hash = hash_secret d.authentication_token;
          csrf_hash = hash_secret d.csrf_token;
          expires_at = now + thirty_days;
        }
        ∷ s.sessions;
  }

  unfoldable pub created : Draw → ℕ → CreatedGuestSession
  created d now = record {
    session = record {
      guest_id = d.guest_id;
      session_id = d.session_id;
      csrf_hash = hash_secret d.csrf_token;
      expires_at = now + thirty_days;
      pseudonym = d.pseudonym;
    };
    authentication_token = d.authentication_token;
    csrf_token = d.csrf_token;
  }

  insert_or_refuse : Draw → ℕ → Tables → Result CreateError (CreatedGuestSession × Tables)
  insert_or_refuse d now s =
      if collides d s then err unique_violation else ok (created d now, inserted d now s)

  unfoldable pub create_once :
      Draw → ℕ → Option Trouble → Tables → Result CreateError (CreatedGuestSession × Tables)
  unfolding insert_or_refuse
  create_once d now (some trouble) s = err (database trouble)
  create_once d now none s = insert_or_refuse d now s

  -- Each try has its draw, its time and its trouble, by its number from the last one, which is 0.
  module _ (draw : ℕ → Draw) (now : ℕ → ℕ) (trouble : ℕ → Option Trouble) where
    -- The `catch` of a try, before those that are left.
    after_try :
        Result CreateError (CreatedGuestSession × Tables)
        → Option (Result IdentityError CreatedGuestSession × Tables)
        → Tables
        → Result IdentityError CreatedGuestSession × Tables
    after_try (ok (c, s')) rest s = (ok c, s')
    after_try (err (database timeout)) rest s = (err database_timeout, s)
    after_try (err (database failure)) rest s = (err session_persistence_failed, s)
    after_try (err unique_violation) none s = (err session_persistence_failed, s)
    after_try (err unique_violation) (some rest) s = rest

    -- The loop with tries left after the present one.
    unfoldable pub create_with : ℕ → Tables → Result IdentityError CreatedGuestSession × Tables
    unfolding after_try
    create_with zero s = after_try (create_once (draw zero) (now zero) (trouble zero) s) none s
    create_with (suc left) s =
        after_try (create_once (draw (suc left)) (now (suc left)) (trouble (suc left)) s)
          (some (create_with left s)) s

    unfoldable pub create_guest_session : Tables → Result IdentityError CreatedGuestSession × Tables
    unfolding create_with
    create_guest_session s = create_with 2 s

  session_of : SessionRow → Option GuestRow → Option AuthenticatedSession
  session_of x none = none
  session_of x (some g) = some (record {
    guest_id = x.guest_id;
    session_id = x.id;
    csrf_hash = x.csrf_hash;
    expires_at = x.expires_at;
    pseudonym = g.pseudonym;
  })

  -- `JOIN loremaster.guests guest ON guest.id = session.guest_id`
  joined : List GuestRow → Option SessionRow → Option AuthenticatedSession
  unfolding session_of
  joined guests none = none
  joined guests (some x) = session_of x (find (λ g. str_eq g.id x.guest_id) guests)

  -- `WHERE session.token_hash = $1 AND session.expires_at > clock_timestamp()`
  is_live : Text → ℕ → SessionRow → Bool
  is_live hash now x = same_text x.token_hash hash && ltb now x.expires_at

  unfoldable pub find_session : Text → ℕ → Tables → Option AuthenticatedSession
  unfolding joined is_live
  find_session hash now s = joined s.guests (find (is_live hash now) s.sessions)

  read_session :
      Text → ℕ → Option Trouble → Tables → Result IdentityError (Option AuthenticatedSession)
  read_session token now (some timeout) s = err database_timeout
  read_session token now (some failure) s = err session_persistence_failed
  read_session token now none s = ok (find_session (hash_secret token) now s)

  unfoldable pub authenticate_session :
      Text → ℕ → Option Trouble → Tables → Result IdentityError (Option AuthenticatedSession)
  unfolding read_session
  authenticate_session token now trouble s =
      if is_token token then read_session token now trouble s else ok none

  unfoldable pub verify_session_csrf_token : AuthenticatedSession → Text → Bool
  verify_session_csrf_token session csrf_token =
      is_token csrf_token && same_text session.csrf_hash (hash_secret csrf_token)
