-- ===== src/Web/Retry/Directives.antt =====
-- What apps/web/src/api/retry.ts never does.
use loremaster.Prelude.{
  zero, ℕ, suc, false, ◌*◌, ◌^◌, min, ◌≤◌, ◌≡◌, ◌≢◌, refl, ◌⊎◌, inl, inr, Option, none, some, leb,
  if◌then◌else◌, arith,
}
use loremaster.Prelude.Int.{ℤ, pos, negsuc}
use loremaster.Api.RateLimit.{
  Operation, AuthenticationPolicy, no_auth, bootstrap, session_auth, gameplay_mutation, auth,
}
use loremaster.Web.Retry.{
  ApiErrorCode, ErrorKind, ApiClientError, RetryDirective, do_not_retry, automatic_retry,
  replay_exact_mutation, refresh_then_new_command, use_new_command_key, backoff_milliseconds, clamp,
  directive, retry_directive, follow, follow_code, policy_action, mutation_policy, bootstrap_policy,
  read_policy, unanswered, is_mutation, PolicyAction, same_idempotency_key_only,
  after_retry_after_with_same_idempotency_key, after_retry_after, after_backoff,
  after_refresh_with_new_command_key, new_valid_command_key, network_error, malformed_response,
  cancelled, rate_limited, api_error, invalid_client_request, session_security,
}

-- A command is repeated with its key, or not at all by itself; other calls are retried without one.
pub data Allowed : AuthenticationPolicy → RetryDirective → Type 0 where
  stop : {p : AuthenticationPolicy} → Allowed p do_not_retry
  replay : {n : ℕ} → Allowed gameplay_mutation (replay_exact_mutation n)
  refresh : Allowed gameplay_mutation refresh_then_new_command
  new_key : Allowed gameplay_mutation use_new_command_key
  again : {p : AuthenticationPolicy} {n : ℕ} → p ≢ gameplay_mutation → Allowed p (automatic_retry n)

-- The actions of the policy of reads and of sessions.
IsPlain : Option PolicyAction → Type 0
IsPlain a = (a ≡ none) ⊎ (a ≡ some after_retry_after) ⊎ (a ≡ some after_backoff)

bootstrap-IsPlain : (code : ApiErrorCode) → IsPlain (bootstrap_policy code)
unfolding IsPlain bootstrap_policy
bootstrap-IsPlain code = ground arith

read-IsPlain : (code : ApiErrorCode) → IsPlain (read_policy code)
unfolding IsPlain read_policy
read-IsPlain code = ground arith

plain-Allowed :
    (p : AuthenticationPolicy) (a : Option PolicyAction) (after : Option ℕ) (n : ℤ)
    → p ≢ gameplay_mutation
    → IsPlain a
    → Allowed p (follow a after n)
unfolding IsPlain follow
plain-Allowed p a after n h (inl e) = rw e stop
plain-Allowed p a after n h (inr (inl e)) = rw e (again h)
plain-Allowed p a after n h (inr (inr e)) = rw e (again h)

keyed :
    (code : ApiErrorCode)
    → (mutation_policy code ≢ some after_retry_after) × (mutation_policy code ≢ some after_backoff)
unfolding mutation_policy
keyed code = ground arith

keyed-Allowed :
    (a : Option PolicyAction) (after : Option ℕ) (n : ℤ)
    → (a ≢ some after_retry_after) × (a ≢ some after_backoff)
    → Allowed gameplay_mutation (follow a after n)
unfolding follow
keyed-Allowed none after n h = stop
keyed-Allowed (some same_idempotency_key_only) after n h = replay
keyed-Allowed (some after_retry_after_with_same_idempotency_key) after n h = replay
keyed-Allowed (some after_refresh_with_new_command_key) after n h = refresh
keyed-Allowed (some new_valid_command_key) after n h = new_key
keyed-Allowed (some after_retry_after) after n h = absurd (h.0 refl)
keyed-Allowed (some after_backoff) after n h = absurd (h.1 refl)

code-Allowed :
    (p : AuthenticationPolicy) (code : Option ApiErrorCode) (after : Option ℕ) (n : ℤ)
    → Allowed p (follow_code p code after n)
unfolding follow_code policy_action
code-Allowed p none after n = stop
code-Allowed gameplay_mutation (some code) after n =
    keyed-Allowed (mutation_policy code) after n (keyed code)
code-Allowed bootstrap (some code) after n =
    plain-Allowed bootstrap (bootstrap_policy code) after n (λ h. cc) (bootstrap-IsPlain code)
code-Allowed session_auth (some code) after n =
    plain-Allowed session_auth (read_policy code) after n (λ h. cc) (read-IsPlain code)
code-Allowed no_auth (some code) after n =
    plain-Allowed no_auth (read_policy code) after n (λ h. cc) (read-IsPlain code)

unanswered-Allowed :
    (p : AuthenticationPolicy) (d : RetryDirective)
    → (p ≢ gameplay_mutation → Allowed p d)
    → Allowed p (unanswered p d)
unfolding unanswered is_mutation
unanswered-Allowed gameplay_mutation d h = replay
unanswered-Allowed bootstrap d h = h (λ q. cc)
unanswered-Allowed session_auth d h = h (λ q. cc)
unanswered-Allowed no_auth d h = h (λ q. cc)

limited-Allowed :
    (p : AuthenticationPolicy) (n : ℕ)
    → Allowed p (if is_mutation p then replay_exact_mutation n else automatic_retry n)
unfolding is_mutation
limited-Allowed gameplay_mutation n = replay
limited-Allowed bootstrap n = again (λ q. cc)
limited-Allowed session_auth n = again (λ q. cc)
limited-Allowed no_auth n = again (λ q. cc)

directive-Allowed :
    (p : AuthenticationPolicy) (k : ErrorKind) (code : Option ApiErrorCode) (after : Option ℕ)
    (n : ℤ)
    → Allowed p (directive p k code after n)
unfolding directive
directive-Allowed p network_error code after n = unanswered-Allowed p _ again
directive-Allowed p malformed_response code after n = unanswered-Allowed p _ again
directive-Allowed p cancelled code after n = unanswered-Allowed p _ (λ _. stop)
directive-Allowed p rate_limited code after n = limited-Allowed p _
directive-Allowed p api_error code after n = code-Allowed p code after n
directive-Allowed p invalid_client_request code after n = stop
directive-Allowed p session_security code after n = stop

-- After any failure of any operation, a gameplay command is never retried automatically: it is
-- replayed exactly, replaced under a new key, or left. An operation that is no gameplay command is
-- never replayed as one and never asks for a key: it is retried or left.
pub retry_directive-Allowed :
    (o : Operation) (error : ApiClientError) (attempt : ℤ)
    → Allowed (auth o) (retry_directive o error attempt)
unfolding retry_directive
retry_directive-Allowed o error attempt =
    directive-Allowed (auth o) error.kind error.api_code error.retry_after_milliseconds attempt

from_five : (k : ℕ) → 5 ≤ k → k ≤ 10 → (k ≡ 5) ⊎ (k ≡ 6) ⊎ (k ≡ 7) ⊎ (k ≡ 8) ⊎ (k ≡ 9) ⊎ (k ≡ 10)
from_five k h h' = ground arith

capped : (k : ℕ) → 5 ≤ k → k ≤ 10 → min (500 * 2 ^ k) 8000 ≡ 8000
capped k h h' = elim (from_five k h h') [
  | inl e ↦ rw e refl
  | inr (inl e) ↦ rw e refl
  | inr (inr (inl e)) ↦ rw e refl
  | inr (inr (inr (inl e))) ↦ rw e refl
  | inr (inr (inr (inr (inl e)))) ↦ rw e refl
  | inr (inr (inr (inr (inr e)))) ↦ rw e refl
]

late_wait : (k : ℕ) → 5 ≤ k → backoff_milliseconds (pos k) ≡ (if leb k 4 then 500 * 2 ^ k else 8000)
unfolding backoff_milliseconds clamp
late_wait k h =
    let over : leb k 4 ≡ false = ground arith in
    rw over (capped (min k 10) (omega arith) (omega arith))

-- The wait before the n-th retry is half a second doubled n times, up to the fourth, and eight
-- seconds from then on; a negative number counts as 0.
pub backoff_milliseconds_lem :
    (n : ℕ)
    → (backoff_milliseconds (pos n) ≡ (if leb n 4 then 500 * 2 ^ n else 8000))
      × (backoff_milliseconds (negsuc n) ≡ 500)
unfolding backoff_milliseconds clamp
backoff_milliseconds_lem zero = (refl, refl)
backoff_milliseconds_lem (suc zero) = (refl, refl)
backoff_milliseconds_lem (suc (suc zero)) = (refl, refl)
backoff_milliseconds_lem (suc (suc (suc zero))) = (refl, refl)
backoff_milliseconds_lem (suc (suc (suc (suc zero)))) = (refl, refl)
backoff_milliseconds_lem (suc (suc (suc (suc (suc n))))) =
    (late_wait (suc (suc (suc (suc (suc n))))) (omega arith), refl)
