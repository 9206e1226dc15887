-- ===== src/Errors/Classify.antt =====
-- internal/errors/crawl.go and classify.go: making crawl errors, matching them, and `Classify`.
use Prim.Native.Char.{code}
use Prim.Native.String.{String}
use omegacrawl.Base.{
  ℕ, Bool, true, false, ◌||◌, List, [], ◌∷◌, Option, none, some, if◌then◌else◌, ◌==◌,
}
use omegacrawl.Errors.Contains.{contains}
use omegacrawl.Errors.Kinds.{
  Kind, kind_unknown, kind_timeout, kind_network, kind_dns, kind_tls, kind_rate_limit, kind_blocked,
  kind_auth, kind_oom, kind_cancelled, Sentinel, err_timeout, err_network, err_dns, err_tls,
  err_http, err_rate_limit, err_blocked, err_auth, err_parse, err_resource, err_browser, err_oom,
  err_cancelled, err_unknown, Sentinel-discrete, sentinel_for, is_retryable, GoError, sentinel,
  crawl, other, timeout_is, Wrapped, nil, wrapping, CrawlError, crawl_error,
}

-- The bytes of an ASCII text.
abbrev pub codes : String → List ℕ
codes String.[] = []
codes (String.◌∷◌ c s) = code c ∷ codes s

abbrev pub kind_of : CrawlError → Kind
kind_of (crawl_error p k m w u h r s) = k

abbrev pub retryable_of : CrawlError → Bool
retryable_of (crawl_error p k m w u h r s) = r

abbrev pub status_code_of : CrawlError → ℕ
status_code_of (crawl_error p k m w u h r s) = s

-- `New`; `p` is the pointer that the allocation gives.
unfoldable pub new_error : ℕ → Kind → List ℕ → CrawlError
new_error p kind msg = crawl_error p kind msg nil "" "" (is_retryable kind) 0

-- `Wrap`
unfoldable pub wrap_error : ℕ → Kind → List ℕ → Wrapped → CrawlError
wrap_error p kind msg err = crawl_error p kind msg err "" "" (is_retryable kind) 0

unfoldable pub with_url : String → CrawlError → CrawlError
with_url url (crawl_error p k m w u h r s) = crawl_error p k m w url h r s

unfoldable pub with_host : String → CrawlError → CrawlError
with_host host (crawl_error p k m w u h r s) = crawl_error p k m w u host r s

unfoldable pub with_status_code : ℕ → CrawlError → CrawlError
with_status_code code (crawl_error p k m w u h r s) = crawl_error p k m w u h r code

abbrev same_sentinel : Sentinel → Sentinel → Bool
same_sentinel a b = elim (Sentinel-discrete a b) [ yes h ↦ true | no h ↦ false ]

-- `==` on error values: sentinels are distinct pointers, and so is every other error.
unfoldable pub same : GoError → GoError → Bool
same (sentinel a) (sentinel b) = same_sentinel a b
same (crawl (crawl_error p k m w u h r s)) (crawl (crawl_error p' k' m' w' u' h' r' s')) = p == p'
same (other i t o c w) (other i' t' o' c' w') = i == i'
same _ _ = false

-- `errors.Is` of a chain of errors, through the method `Is` of a `CrawlError`, for a target that
-- is not nil; `errors.Is` of nil is false.
unfoldable mutual
  pub errors_is : GoError → GoError → Bool
  errors_is (sentinel a) target = same (sentinel a) target
  errors_is (crawl c) target =
      same (crawl c) target || (crawl_error_is c target || unwrapped_is c target)
  errors_is (other i t o c w) target = same (other i t o c w) target || wrapped_is w target

  -- The method `Is`, where `target == e` was found false before or is found so here.
  pub crawl_error_is : CrawlError → GoError → Bool
  crawl_error_is (crawl_error p k m w u h r s) target =
      same (crawl (crawl_error p k m w u h r s)) target
      || (same target (sentinel (sentinel_for k)) || wrapped_is w target)

  -- `errors.Is` of what `Unwrap` returns.
  pub unwrapped_is : CrawlError → GoError → Bool
  unwrapped_is (crawl_error p k m w u h r s) target = wrapped_is w target

  pub wrapped_is : Wrapped → GoError → Bool
  wrapped_is nil target = false
  wrapped_is (wrapping e) target = errors_is e target

-- `errors.As` with a `*CrawlError`: the first one on the chain.
unfoldable mutual
  pub as_crawl_error : GoError → Option CrawlError
  as_crawl_error (sentinel a) = none
  as_crawl_error (crawl c) = some c
  as_crawl_error (other i t o c w) = as_crawl_error_wrapped w

  pub as_crawl_error_wrapped : Wrapped → Option CrawlError
  as_crawl_error_wrapped nil = none
  as_crawl_error_wrapped (wrapping e) = as_crawl_error e

-- The texts of the sentinels.
unfoldable pub sentinel_text : Sentinel → List ℕ
sentinel_text err_timeout = codes "crawl: timeout"
sentinel_text err_network = codes "crawl: network"
sentinel_text err_dns = codes "crawl: dns"
sentinel_text err_tls = codes "crawl: tls"
sentinel_text err_http = codes "crawl: http"
sentinel_text err_rate_limit = codes "crawl: rate limited"
sentinel_text err_blocked = codes "crawl: blocked"
sentinel_text err_auth = codes "crawl: auth"
sentinel_text err_parse = codes "crawl: parse"
sentinel_text err_resource = codes "crawl: resource"
sentinel_text err_browser = codes "crawl: browser"
sentinel_text err_oom = codes "crawl: out of memory"
sentinel_text err_cancelled = codes "crawl: cancelled"
sentinel_text err_unknown = codes "crawl: unknown"

unfoldable pub any_of : List ℕ → List String → Bool
any_of s [] = false
any_of s (n ∷ ns) = contains s (codes n) || any_of s ns

-- The tests on the text, in their order; `p` is the pointer of the error that is made.
unfoldable pub classify_text : ℕ → List ℕ → CrawlError
classify_text p s =
    if any_of s ("no such host" ∷ "DNS" ∷ "dns" ∷ [])
    then new_error p kind_dns s
    else if any_of s ("tls" ∷ "certificate" ∷ "handshake" ∷ [])
    then new_error p kind_tls s
    else if any_of s ("timeout" ∷ "deadline" ∷ [])
    then new_error p kind_timeout s
    else if any_of s ("429" ∷ "rate limit" ∷ "too many" ∷ [])
    then with_status_code 429 (new_error p kind_rate_limit s)
    else if any_of s ("403" ∷ "blocked" ∷ "captcha" ∷ [])
    then with_status_code 403 (new_error p kind_blocked s)
    else if any_of s ("401" ∷ "auth" ∷ "login" ∷ [])
    then with_status_code 401 (new_error p kind_auth s)
    else if any_of s ("connection refused" ∷ "connection reset" ∷ "broken pipe" ∷ [])
    then new_error p kind_network s
    else if any_of s ("no memory" ∷ "cannot allocate" ∷ [])
    then new_error p kind_oom s
    else if any_of s ("canceled" ∷ "cancelled" ∷ [])
    then new_error p kind_cancelled s
    else new_error p kind_unknown s

-- After `errors.As` found no `CrawlError`: the method `Timeout`, `context.Canceled`, the text.
unfoldable pub classify_other : ℕ → GoError → CrawlError
classify_other p (sentinel a) = classify_text p (sentinel_text a)
classify_other p (crawl c) = c
classify_other p (other i text (timeout_is true) canceled w) =
    with_status_code 408 (new_error p kind_timeout (codes "request timed out"))
classify_other p (other i text t canceled w) =
    if canceled then new_error p kind_cancelled text else classify_text p text

unfoldable pub classify : ℕ → Wrapped → Option CrawlError
classify p nil = none
classify p (wrapping err) = elim (as_crawl_error err) [
  | some ce ↦ some ce
  | none ↦ some (classify_other p err)
]
