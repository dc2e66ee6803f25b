-- ===== src/Chart/Retries.antt =====
-- internal/tools/chart/chart.go: which errors of fetching a chart are retried, and how.
use core_provider.Base.{ℕ, Bool, true, false, ◌||◌, ◌==◌, if◌then◌else◌}
use core_provider.Base.Result.{
  Error, status, ApiErrors, is_canceled, is_deadline_exceeded, is_transient_net,
}
use core_provider.Base.Exec.{Exec}
use core_provider.Retry.{Config, pos}

-- `switch statusErr.ErrStatus.Code`, where the error itself is a StatusError
unfoldable pub has_permanent_status : Error → Bool
has_permanent_status (status code reason) =
    code == 401 || code == 403 || code == 404 || code == 422 || code == 400
has_permanent_status _ = false

-- isNonRetryableChartError(err)
unfoldable pub is_non_retryable_chart_error : ApiErrors → Error → Bool
unfolding has_permanent_status
is_non_retryable_chart_error api e =
    if api.is_forbidden e
      || api.is_unauthorized e
      || api.is_not_found e
      || api.is_invalid e
      || api.is_bad_request e
    then true
    else has_permanent_status e

-- isRetryableChartError(err), where the error is not nil
unfoldable pub is_retryable_chart_error : ApiErrors → Error → Bool
is_retryable_chart_error api e =
    if is_canceled e
    then false
    else if is_deadline_exceeded e
    then true
    else if is_non_retryable_chart_error api e
    then false
    else if is_transient_net e
    then true
    else true

-- the retry.Config of chartBytesFromSpecWithRetry; OnRetry writes a log
unfoldable pub chart_config : {W : Type 0} → ApiErrors → (ℕ → Exec W (Unit {0})) → Config W
chart_config api wait = record {
  attempts = pos 5;
  initial_delay = 250000000;
  maximum_delay = 2000000000;
  wait = wait;
  retryable = is_retryable_chart_error api;
  on_retry = λ attempt d e w. w;
}
