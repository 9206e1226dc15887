-- ===== src/Errors/Matching.antt =====
-- internal/errors: every classified error is consistent, and matches the sentinel of its kind.
use omegacrawl.Base.{
  ℕ, ◌≡◌, refl, ◌↔◌, ◌⊎◌, inl, inr, Bool, true, false, ◌||◌, List, none, some, arith, Option-cases,
}
use omegacrawl.Errors.Kinds.{
  Kind, kind_timeout, kind_rate_limit, kind_blocked, kind_auth, Sentinel, Sentinel-discrete,
  sentinel_for, is_retryable, GoError, sentinel, crawl, other, Timeouts, no_method, timeout_is,
  Wrapped, nil, wrapping, CrawlError, crawl_error,
}
use omegacrawl.Errors.Classify.{
  kind_of, retryable_of, status_code_of, new_error, with_status_code, same, errors_is,
  crawl_error_is, unwrapped_is, wrapped_is, as_crawl_error, classify_text, classify_other, classify,
}

-- What an error that `Classify` makes is like: it wraps nothing, it is retryable as its kind is,
-- and its status code is the one of its kind.
abbrev pub status_of : Kind → ℕ
status_of kind_rate_limit = 429
status_of kind_blocked = 403
status_of kind_auth = 401
status_of _ = 0

pub record IsMade (c : CrawlError) : Type 0 where
  pub retryable : retryable_of c ≡ is_retryable (kind_of c)
  pub status :
      (status_code_of c ≡ status_of (kind_of c))
      ⊎ ((status_code_of c ≡ 408) × (kind_of c ≡ kind_timeout))

classify_text-IsMade : (p : ℕ) (s : List ℕ) → IsMade (classify_text p s)
unfolding classify_text new_error with_status_code
classify_text-IsMade p s = ground arith

classify_other-IsMade :
    (p : ℕ) (e : GoError) → as_crawl_error e ≡ none → IsMade (classify_other p e)
unfolding classify_other new_error with_status_code as_crawl_error
classify_other-IsMade p (sentinel a) h = classify_text-IsMade p _
classify_other-IsMade p (crawl c) h = cc
classify_other-IsMade p (other i text (timeout_is true) canceled w) h = ground arith
classify_other-IsMade p (other i text (timeout_is false) true w) h = ground arith
classify_other-IsMade p (other i text (timeout_is false) false w) h = classify_text-IsMade p text
classify_other-IsMade p (other i text no_method true w) h = ground arith
classify_other-IsMade p (other i text no_method false w) h = classify_text-IsMade p text

-- `Classify` returns nil for nil. An error whose chain holds a `CrawlError` is classified as
-- the first of these; any other gives a new one, retryable exactly if its kind is, with the status
-- code of its kind (or a timeout with 408).
pub classify_lem :
    (p : ℕ) (e : GoError)
    → (classify p nil ≡ none)
      × (((c : CrawlError) × (as_crawl_error e ≡ some c) × (classify p (wrapping e) ≡ some c))
          ⊎ ((c : CrawlError) × (as_crawl_error e ≡ none)
              × (classify p (wrapping e) ≡ some c)
              × IsMade c))
unfolding classify
classify_lem p e = (
  refl,
  elim (Option-cases (as_crawl_error e)) [
    | inl h ↦ inr (classify_other p e, h, rw (h, classify), classify_other-IsMade p e h)
    | inr (c, h) ↦ inl (c, h, rw (h, classify))
  ],
)

same_sentinel_iff : (a b : Sentinel) → (same (sentinel a) (sentinel b) ≡ true) ↔ (a ≡ b)
unfolding same
same_sentinel_iff a b =
    elim (Sentinel-discrete a b)
      as (λ d. (elim d [ yes h ↦ true | no h ↦ false ] ≡ true) ↔ (a ≡ b)) [
        | yes h ↦ (λ _. h, λ _. refl)
        | no h ↦ (λ e. cc, λ e. absurd (h e))
      ]

-- The sentinels that `errors.Is` finds on a chain: the sentinel itself, that of the kind of a
-- `CrawlError`, and those of what is wrapped.
mutual
  pub Carries : GoError → Sentinel → Type 0
  Carries (sentinel a) s = a ≡ s
  Carries (crawl c) s = CrawlCarries c s
  Carries (other i t o b w) s = WrappedCarries w s

  pub CrawlCarries : CrawlError → Sentinel → Type 0
  CrawlCarries (crawl_error p k m w u h r x) s = (sentinel_for k ≡ s) ⊎ WrappedCarries w s

  pub WrappedCarries : Wrapped → Sentinel → Type 0
  WrappedCarries nil s = ⊥
  WrappedCarries (wrapping e) s = Carries e s

same_crawl_sentinel : (c : CrawlError) (s : Sentinel) → same (crawl c) (sentinel s) ≡ false
unfolding same
same_crawl_sentinel (crawl_error p k m w u h r x) s = refl

same_other_sentinel :
    (i : ℕ) (t : List ℕ) (o : Timeouts) (b : Bool) (w : Wrapped) (s : Sentinel)
    → same (other i t o b w) (sentinel s) ≡ false
unfolding same
same_other_sentinel i t o b w s = refl

mutual
  unfolding errors_is Carries

  errors_is_iff : (e : GoError) (s : Sentinel) → (errors_is e (sentinel s) ≡ true) ↔ Carries e s
  errors_is_iff (sentinel a) s = same_sentinel_iff a s
  errors_is_iff (crawl c) s = ground (arith, same_crawl_sentinel c s, crawl_is_iff c s)
  errors_is_iff (other i t o b w) s =
      ground (arith, same_other_sentinel i t o b w s, wrapped_is_iff w s)

  crawl_is_iff :
      (c : CrawlError) (s : Sentinel)
      → ((crawl_error_is c (sentinel s) || unwrapped_is c (sentinel s)) ≡ true) ↔ CrawlCarries c s
  crawl_is_iff (crawl_error p k m w u h r x) s = ground (
    arith,
    wrapped_is_iff w s,
    same_crawl_sentinel (crawl_error p k m w u h r x) s,
    same_sentinel_iff s (sentinel_for k),
  )

  wrapped_is_iff :
      (w : Wrapped) (s : Sentinel) → (wrapped_is w (sentinel s) ≡ true) ↔ WrappedCarries w s
  wrapped_is_iff nil s = ground arith
  wrapped_is_iff (wrapping e) s = errors_is_iff e s

-- `errors.Is` finds a sentinel in an error exactly when the chain carries it: as the error itself,
-- by the kind of a `CrawlError` on the chain, or at its end.
pub errors_is-Carries :
    (e : GoError) (s : Sentinel) → (errors_is e (sentinel s) ≡ true) ↔ Carries e s
errors_is-Carries e s = errors_is_iff e s
