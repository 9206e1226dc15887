-- ===== src/Crawler/Page.antt =====
-- internal/crawler/crawl_page.go and retry.go: the attempts at one page. What the browser and the
-- clock do in each attempt is an input. The count of crawled URLs, which each call raises by one
-- first, and the length of a backoff are left out.
use omegacrawl.Base.{
  ℕ, zero, suc, ◌+◌, Bool, true, false, none, some, ltb, leb, ◌==◌, ◌||◌, ◌&&◌, if◌then◌else◌,
}
use omegacrawl.Errors.Kinds.{GoError, Wrapped, nil, wrapping}
use omegacrawl.Errors.Classify.{classify, retryable_of}

-- `IsRetryable` and `IsRateLimited` of a status code.
unfoldable pub is_retryable_status : ℕ → Bool
is_retryable_status code =
    if code == 429
    then true
    else if code == 503
    then true
    else if code == 504
    then true
    else if code == 408
    then true
    else leb 500 code

unfoldable pub is_rate_limited : ℕ → Bool
is_rate_limited code = code == 429 || code == 503

-- One attempt: whether a context is cancelled while it waits for the backoff, whether a browser is
-- acquired, and what `doCrawl` returns.
pub record Attempt : Type 0 where
  pub cancelled : Bool
  pub acquired : Bool
  pub result : Wrapped

-- What is told to the circuit breaker of the host; a failure is also counted in the metrics.
pub data Report : Type 0 where
  reported_success reported_failure no_report : Report

pub record Tried : Type 0 where
  pub visits : ℕ
  pub report : Report

abbrev pub retryable_error : GoError → Bool
retryable_error e = elim (classify 0 (wrapping e)) [ none ↦ false | some c ↦ retryable_of c ]

-- After the loop: `if lastErr != nil { Failure ... }`.
abbrev pub finish : ℕ → Wrapped → Tried
finish visits nil = record { visits = visits; report = no_report }
finish visits (wrapping e) = record { visits = visits; report = reported_failure }

-- An attempt with `visits` made before it, given the rest of the loop for a new `lastErr`.
unfoldable pub visit : Attempt → (GoError → Tried) → ℕ → Tried
visit a retry visits =
    if a.acquired
    then elim a.result [
      | nil ↦ record { visits = visits + 1; report = reported_success }
      | wrapping e ↦ if retryable_error e then retry e else finish (visits + 1) (wrapping e)
    ]
    else record { visits = visits; report = no_report }

-- The loop with `n` attempts left. `attempt` is its variable, and the number of calls of `doCrawl`
-- so far, since the loop goes on only after one; `last` is `lastErr`.
unfoldable pub attempts : ℕ → ℕ → Wrapped → (ℕ → Attempt) → Tried
unfolding visit
attempts zero attempt last env = finish attempt last
attempts (suc n) attempt last env =
    let retry : GoError → Tried = λ e. attempts n (attempt + 1) (wrapping e) env in
    if ltb 0 attempt && (env attempt).cancelled
    then record { visits = attempt; report = no_report }
    else visit (env attempt) retry attempt

-- `crawlPage` with `MaxRetries` attempts: how often it visits the page, and what it reports.
unfoldable pub crawl_page : ℕ → (ℕ → Attempt) → Tried
crawl_page max_retries env = attempts max_retries 0 nil env
