-- ===== src/Api/Cookies.antt =====
-- apps/api/src/security: the cookies of a request (cookies.ts), and the controls that authenticate
-- it (auth.ts) and check its token against forgery (csrf.ts).
pub mod Guards
use loremaster.Prelude.{
  ℕ, Bool, true, false, ◌&&◌, ◌||◌, not, List, [], ◌∷◌, ◌==◌, Option, none, some, all, length, ltb,
  leb, if◌then◌else◌,
}
use loremaster.Api.RateLimit.{
  Operation, AuthenticationPolicy, no_auth, bootstrap, session_auth, gameplay_mutation, auth,
}
use loremaster.Prelude.Js.{Text, split, trim, same_text}

-- `undefined`, `null` for a cookie that is repeated, and the value.
pub data CookieRead : Type 0 where
  missing : CookieRead
  repeated : CookieRead
  value : Text → CookieRead

-- `part.indexOf('=')` and the two slices around it
halves_after : ℕ → Option (Text × Text) → Option (Text × Text)
halves_after c none = none
halves_after c (some (name, rest)) = some (c ∷ name, rest)

unfoldable pub halves : Text → Option (Text × Text)
unfolding halves_after
halves [] = none
halves (c ∷ cs) = let rest = halves_after c (halves cs) in if c == b'=' then some ([], cs) else rest

is_named : Text → Option (Text × Text) → Option Text
is_named name none = none
is_named name (some (found, rest)) = if same_text (trim found) name then some (trim rest) else none

-- The value of a part of the header, if it is the named cookie.
unfoldable pub named_value : Text → Text → Option Text
unfolding is_named halves
named_value name part = is_named name (halves part)

found : Option Text → CookieRead
found none = missing
found (some v) = value v

-- A part that is the named cookie, after the value found before it.
repeat : Option Text → Text → (Option Text → CookieRead) → CookieRead
repeat none v next = next (some v)
repeat (some w) v next = repeated

visit : Option Text → Option Text → (Option Text → CookieRead) → CookieRead
unfolding repeat
visit none before next = next before
visit (some v) before next = repeat before v next

-- The loop over the parts, with the value found so far.
scan : Text → List Text → Option Text → CookieRead
unfolding visit found
scan name [] before = found before
scan name (part ∷ parts) before = visit (named_value name part) before (scan name parts)

read_header : Text → Option Text → CookieRead
unfolding scan
read_header name none = missing
read_header name (some header) = scan name (split b';' header) none

-- What the controls read of a request.
pub record SecurityRequest : Type 0 where
  pub cookie_header : Option Text
  -- `x-csrf-token`, when it is a text
  pub csrf_header : Option Text

unfoldable pub read_unique_cookie : SecurityRequest → Text → CookieRead
unfolding read_header
read_unique_cookie request name = read_header name request.cookie_header

is_token_character : ℕ → Bool
is_token_character c =
    leb b'A' c && leb c b'Z'
    || leb b'a' c && leb c b'z'
    || leb b'0' c && leb c b'9'
    || c == b'_'
    || c == b'-'

-- `TOKEN_PATTERN`
unfoldable pub is_token : Text → Bool
unfolding is_token_character
is_token t = length t == 43 && all is_token_character t

pub data HttpError : Type 0 where
  request_forbidden authentication_required service_unavailable database_timeout : HttpError

-- The call of `next`: with an error, or without.
pub data Next : Type 0 where
  proceed : Next
  fail : HttpError → Next

module _ {Session : Type 0} (verify_csrf_token : Session → Text → Bool) where
  tokens_agree : Session → Text → Text → Bool
  tokens_agree session header cookie =
      is_token header
      && is_token cookie
      && same_text header cookie
      && verify_csrf_token session header

  csrf_passes : Option Session → Option Text → CookieRead → Bool
  unfolding tokens_agree
  csrf_passes (some session) (some header) (value cookie) = tokens_agree session header cookie
  csrf_passes _ _ _ = false

  csrf_under : AuthenticationPolicy → Text → Option Session → SecurityRequest → Next
  unfolding csrf_passes
  csrf_under gameplay_mutation cookie_name session request =
      if csrf_passes session request.csrf_header (read_unique_cookie request cookie_name)
      then proceed
      else fail request_forbidden
  csrf_under _ cookie_name session request = proceed

  -- The middleware of `createCsrfControl`.
  unfoldable pub csrf_control : Operation → Text → Option Session → SecurityRequest → Next
  unfolding csrf_under
  csrf_control operation = csrf_under (auth operation)

-- What `sessions.authenticate` gives: a session that expires at a time, none, or an exception with
-- the code of a timeout of the database or with another one.
pub data Authentication (Session : Type 0) : Type 0 where
  authenticated : Session → ℕ → Authentication Session
  unauthenticated : Authentication Session
  timed_out : Authentication Session
  failed : Authentication Session

-- What the middleware did: the session stored for the request, whether it cleared the cookies, and
-- the call of `next`.
pub record Outcome (Session : Type 0) : Type 0 where
  pub session : Option Session
  pub cleared : Bool
  pub next : Next

module _ {Session : Type 0} (authenticate : Text → Authentication Session) where
  sign_out : Outcome Session
  sign_out = record { session = none; cleared = true; next = fail authentication_required }

  admit : ℕ → Authentication Session → Outcome Session
  unfolding sign_out
  admit now (authenticated s expires_at) =
      if leb expires_at now
      then sign_out
      else record { session = some s; cleared = false; next = proceed }
  admit now unauthenticated = sign_out
  admit now timed_out = record { session = none; cleared = false; next = fail database_timeout }
  admit now failed = record { session = none; cleared = false; next = fail service_unavailable }

  authenticate_cookie : ℕ → CookieRead → Outcome Session
  unfolding admit
  authenticate_cookie now (value token) =
      if is_token token then admit now (authenticate token) else sign_out
  authenticate_cookie now missing = sign_out
  authenticate_cookie now repeated = sign_out

  checked : Text → ℕ → SecurityRequest → Outcome Session
  unfolding authenticate_cookie
  checked cookie_name now request = authenticate_cookie now (read_unique_cookie request cookie_name)

  authenticate_under : AuthenticationPolicy → Text → ℕ → SecurityRequest → Outcome Session
  unfolding checked
  authenticate_under no_auth cookie_name now request = record {
    session = none;
    cleared = false;
    next = proceed;
  }
  authenticate_under bootstrap cookie_name now request = record {
    session = none;
    cleared = false;
    next = proceed;
  }
  authenticate_under session_auth cookie_name now request = checked cookie_name now request
  authenticate_under gameplay_mutation cookie_name now request = checked cookie_name now request

  -- The middleware of `createAuthenticationControl`.
  unfoldable pub authentication_control : Operation → Text → ℕ → SecurityRequest → Outcome Session
  unfolding authenticate_under
  authentication_control operation = authenticate_under (auth operation)
