-- ===== src/Web/Retry.antt =====
-- apps/web/src/api/retry.ts: what the client does after a failed call.
pub mod Directives
use loremaster.Prelude.{ℕ, ◌*◌, ◌^◌, min, Bool, true, false, Option, none, some, if◌then◌else◌}
use loremaster.Prelude.Int.{ℤ, pos, negsuc}
use loremaster.Api.RateLimit.{Operation, AuthenticationPolicy, gameplay_mutation, bootstrap, auth}

pub data ApiErrorCode : Type 0 where
  invalid_request invalid_guess authentication_required request_forbidden resource_not_found
        no_current_case idempotency_conflict stale_version evidence_limit terminal_attempt
        body_too_large unsupported_media_type rate_limited_code internal_error service_unavailable
        request_timeout :
      ApiErrorCode

pub data ErrorKind : Type 0 where
  api_error cancelled invalid_client_request malformed_response network_error rate_limited
        session_security :
      ErrorKind

pub record ApiClientError : Type 0 where
  pub kind : ErrorKind
  pub api_code : Option ApiErrorCode
  pub retry_after_milliseconds : Option ℕ

pub data RetryDirective : Type 0 where
  do_not_retry : RetryDirective
  automatic_retry : (delay_milliseconds : ℕ) → RetryDirective
  replay_exact_mutation : (delay_milliseconds : ℕ) → RetryDirective
  refresh_then_new_command : RetryDirective
  use_new_command_key : RetryDirective

-- The actions of `API_RETRY_POLICY`.
pub data PolicyAction : Type 0 where
  same_idempotency_key_only after_retry_after_with_same_idempotency_key after_retry_after
        after_backoff after_refresh_with_new_command_key new_valid_command_key :
      PolicyAction

clamp : ℤ → ℕ
clamp (pos n) = min n 10
clamp (negsuc n) = 0

-- The number of the attempt is an integer, which callers count from 0.
unfoldable pub backoff_milliseconds : ℤ → ℕ
unfolding clamp
backoff_milliseconds attempt = min (500 * 2 ^ clamp attempt) 8000

mutation_policy : ApiErrorCode → Option PolicyAction
mutation_policy internal_error = some same_idempotency_key_only
mutation_policy service_unavailable = some same_idempotency_key_only
mutation_policy request_timeout = some same_idempotency_key_only
mutation_policy rate_limited_code = some after_retry_after_with_same_idempotency_key
mutation_policy stale_version = some after_refresh_with_new_command_key
mutation_policy idempotency_conflict = some new_valid_command_key
mutation_policy _ = none

bootstrap_policy : ApiErrorCode → Option PolicyAction
bootstrap_policy rate_limited_code = some after_retry_after
bootstrap_policy internal_error = some after_backoff
bootstrap_policy service_unavailable = some after_backoff
bootstrap_policy _ = none

read_policy : ApiErrorCode → Option PolicyAction
read_policy internal_error = some after_backoff
read_policy service_unavailable = some after_backoff
read_policy _ = none

policy_action : AuthenticationPolicy → ApiErrorCode → Option PolicyAction
unfolding mutation_policy bootstrap_policy read_policy
policy_action gameplay_mutation code = mutation_policy code
policy_action bootstrap code = bootstrap_policy code
policy_action _ code = read_policy code

or_zero : Option ℕ → ℕ
or_zero none = 0
or_zero (some n) = n

follow : Option PolicyAction → Option ℕ → ℤ → RetryDirective
unfolding or_zero
follow (some same_idempotency_key_only) after attempt = replay_exact_mutation 0
follow (some after_retry_after_with_same_idempotency_key) after attempt =
    replay_exact_mutation (or_zero after)
follow (some after_retry_after) after attempt = automatic_retry (or_zero after)
follow (some after_backoff) after attempt = automatic_retry (backoff_milliseconds attempt)
follow (some after_refresh_with_new_command_key) after attempt = refresh_then_new_command
follow (some new_valid_command_key) after attempt = use_new_command_key
follow none after attempt = do_not_retry

is_mutation : AuthenticationPolicy → Bool
is_mutation gameplay_mutation = true
is_mutation _ = false

-- No answer that the client can read.
unanswered : AuthenticationPolicy → RetryDirective → RetryDirective
unfolding is_mutation
unanswered policy otherwise = if is_mutation policy then replay_exact_mutation 0 else otherwise

follow_code : AuthenticationPolicy → Option ApiErrorCode → Option ℕ → ℤ → RetryDirective
unfolding follow policy_action
follow_code policy none after attempt = do_not_retry
follow_code policy (some code) after attempt = follow (policy_action policy code) after attempt

-- The directive, by the policy of the operation.
unfoldable pub directive :
    AuthenticationPolicy → ErrorKind → Option ApiErrorCode → Option ℕ → ℤ → RetryDirective
unfolding unanswered follow_code is_mutation or_zero
directive policy network_error code after attempt =
    unanswered policy (automatic_retry (backoff_milliseconds attempt))
directive policy malformed_response code after attempt =
    unanswered policy (automatic_retry (backoff_milliseconds attempt))
directive policy cancelled code after attempt = unanswered policy do_not_retry
directive policy rate_limited code after attempt =
    if is_mutation policy
    then replay_exact_mutation (or_zero after)
    else automatic_retry (or_zero after)
directive policy api_error code after attempt = follow_code policy code after attempt
directive policy _ code after attempt = do_not_retry

unfoldable pub retry_directive : Operation → ApiClientError → ℤ → RetryDirective
unfolding directive
retry_directive o error attempt =
    directive (auth o) error.kind error.api_code error.retry_after_milliseconds attempt
