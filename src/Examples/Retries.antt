-- ===== src/Examples/Retries.antt =====
-- Runs of apps/web/src/api/retry.ts.
use loremaster.Prelude.{◌*◌, ◌^◌, ◌≡◌, refl, none, some, leb, if◌then◌else◌}
use loremaster.Prelude.Int.{pos, negsuc}
use loremaster.Api.RateLimit.{run_gameplay_command, get_profile, auth}
use loremaster.Web.Retry.{
  ApiClientError, api_error, service_unavailable, replay_exact_mutation, automatic_retry,
  retry_directive, backoff_milliseconds,
}
use loremaster.Web.Retry.Directives.{Allowed, retry_directive-Allowed, backoff_milliseconds_lem}

abbrev unavailable : ApiClientError
unavailable = record {
  kind = api_error;
  api_code = some service_unavailable;
  retry_after_milliseconds = none;
}

command_replayed :
    retry_directive run_gameplay_command unavailable (pos 0) ≡ replay_exact_mutation 0
unfolding retry_directive auth
command_replayed = refl

read_retried : retry_directive get_profile unavailable (pos 2) ≡ automatic_retry 2000
unfolding retry_directive auth backoff_milliseconds
read_retried = refl

retry_directive-Allowed_example :
    Allowed (auth run_gameplay_command) (retry_directive run_gameplay_command unavailable (pos 3))
retry_directive-Allowed_example = retry_directive-Allowed run_gameplay_command unavailable (pos 3)

backoff_milliseconds_lem_example :
    (backoff_milliseconds (pos 7) ≡ (if leb 7 4 then 500 * 2 ^ 7 else 8000))
    × (backoff_milliseconds (negsuc 7) ≡ 500)
backoff_milliseconds_lem_example = backoff_milliseconds_lem 7
