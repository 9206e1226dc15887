-- ===== src/Errors/Kinds.antt =====
-- internal/errors/types.go, crawl.go and sentinels.go: the kinds, `CrawlError`, and `errors.Is` on
-- sentinels. A Go error is a sentinel, a `CrawlError`, or one that another package made, of which
-- only what this package asks is kept.
use Prim.Native.String.{String}
use omegacrawl.Base.{ℕ, Bool, true, false, List}

pub data Kind : Type 0 where
  kind_unknown kind_timeout kind_network kind_dns kind_tls kind_http kind_rate_limit : Kind
  kind_blocked kind_auth kind_parse kind_resource kind_browser kind_oom kind_cancelled : Kind

pub data Sentinel : Type 0 where
  err_timeout err_network err_dns err_tls err_http err_rate_limit err_blocked : Sentinel
  err_auth err_parse err_resource err_browser err_oom err_cancelled err_unknown : Sentinel

pub Sentinel-discrete : Discrete Sentinel
Sentinel-discrete = hlevel

-- The map `kindSentinel` and `SentinelFor`; no other value of `Kind` is ever made.
unfoldable pub sentinel_for : Kind → Sentinel
sentinel_for kind_timeout = err_timeout
sentinel_for kind_network = err_network
sentinel_for kind_dns = err_dns
sentinel_for kind_tls = err_tls
sentinel_for kind_http = err_http
sentinel_for kind_rate_limit = err_rate_limit
sentinel_for kind_blocked = err_blocked
sentinel_for kind_auth = err_auth
sentinel_for kind_parse = err_parse
sentinel_for kind_resource = err_resource
sentinel_for kind_browser = err_browser
sentinel_for kind_oom = err_oom
sentinel_for kind_cancelled = err_cancelled
sentinel_for kind_unknown = err_unknown

-- `Kind.String`
unfoldable pub kind_string : Kind → String
kind_string kind_timeout = "timeout"
kind_string kind_network = "network"
kind_string kind_dns = "dns"
kind_string kind_tls = "tls"
kind_string kind_http = "http"
kind_string kind_rate_limit = "rate_limit"
kind_string kind_blocked = "blocked"
kind_string kind_auth = "auth"
kind_string kind_parse = "parse"
kind_string kind_resource = "resource"
kind_string kind_browser = "browser"
kind_string kind_oom = "oom"
kind_string kind_cancelled = "cancelled"
kind_string kind_unknown = "unknown"

unfoldable pub is_retryable : Kind → Bool
is_retryable kind_timeout = true
is_retryable kind_network = true
is_retryable kind_rate_limit = true
is_retryable kind_browser = true
is_retryable kind_resource = true
is_retryable kind_dns = false
is_retryable kind_tls = false
is_retryable kind_http = false
is_retryable kind_blocked = false
is_retryable kind_auth = false
is_retryable kind_parse = false
is_retryable kind_oom = false
is_retryable kind_cancelled = false
is_retryable kind_unknown = false

mutual
  -- An error value that is not nil. `other` is one of another package: an identity, its text, its
  -- `Timeout()` if it has that method, whether `errors.Is` finds `context.Canceled` in it, and the
  -- error that it wraps.
  pub data GoError : Type 0 where
    sentinel : Sentinel → GoError
    crawl : CrawlError → GoError
    other : ℕ → List ℕ → Timeouts → Bool → Wrapped → GoError

  pub data Timeouts : Type 0 where
    no_method : Timeouts
    timeout_is : Bool → Timeouts

  pub data Wrapped : Type 0 where
    nil : Wrapped
    wrapping : GoError → Wrapped

  -- `CrawlError`, with the identity of the pointer first and without the instant of its making:
  -- pointer, kind, message, wrapped error, URL, host, retryable, status code.
  pub data CrawlError : Type 0 where
    crawl_error : ℕ → Kind → List ℕ → Wrapped → String → String → Bool → ℕ → CrawlError
