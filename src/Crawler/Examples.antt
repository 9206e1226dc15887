-- ===== src/Crawler/Examples.antt =====
-- Test data for the crawler, and the theorems applied to it.
use Prim.Native.String.{String}
use omegacrawl.Base.{ℕ, zero, suc, ◌≤◌, ◌<◌, ◌≡◌, refl, ◌↔◌, ◌⊎◌, true, false, List, [], ◌∷◌, arith}
use text.Mathlib.TextEquality.{eq_iff}
use omegacrawl.Base.Int.{pos}
use omegacrawl.Base.Dict.{member, add, member-add}
use omegacrawl.Errors.Kinds.{GoError, other, is_retryable, timeout_is, Wrapped, nil, wrapping}
use omegacrawl.Errors.Classify.{
  codes, classify, as_crawl_error, classify_other, with_status_code, new_error,
}
use omegacrawl.Crawler.Domain.{is_allowed_domain, UnderAny, is_allowed_domain_iff}
use omegacrawl.Crawler.Admit.{Filters, Policy, Dedup}
use omegacrawl.Crawler.Once.{IsCovered}
use omegacrawl.Crawler.Overlap.{
  Call, added_bloom, through, passed_calls, CallEvent, begins, moves, interleaved,
}
use omegacrawl.Crawler.Overlap.Passes.{passed_calls-le-through}
use omegacrawl.Crawler.Page.{Attempt, retryable_error}
use omegacrawl.Crawler.Attempts.{Retried}

is_allowed_domain_iff_example :
    (is_allowed_domain (codes "a.org" ∷ []) (codes "www.a.org") ≡ true)
    ↔ ((codes "a.org" ∷ [] ≡ []) ⊎ UnderAny (codes "www.a.org") (codes "a.org" ∷ []))
is_allowed_domain_iff_example = is_allowed_domain_iff (codes "a.org" ∷ []) (codes "www.a.org")

in_add :
    (u v : String) (e : List String) → member v (add u e) ≡ true → (u ≡ v) ⊎ (member v e ≡ true)
in_add u v e h = ground (arith, member-add u v e, eq_iff u v)

self_add : (u : String) (e : List String) → member u (add u e) ≡ true
self_add u e = ground (arith, member-add u u e, eq_iff u u)

kept_add : (u v : String) (e : List String) → member v e ≡ true → member v (add u e) ≡ true
kept_add u v e h = ground (arith, member-add u v e)

-- Sets of strings in the place of both filters.
abbrev sets : Filters
sets = record {
  Exact = List String;
  exact_contains = member;
  exact_add = add;
  contains-exact_add = in_add;
  Bloom = List String;
  has_seen = member;
  bloom_add = add;
  has_seen-add_self = self_add;
  has_seen-add = kept_add;
}

abbrev open_policy : Policy
open_policy = record {
  is_valid_url = λ u. true;
  get_host = λ u. [];
  allowed_domains = [];
  exclude_fn = λ u. false;
  max_total_urls = pos 100;
}

abbrev none_seen : Dedup sets
none_seen = record { exact = []; bloom = [] }

-- A call that has tested both filters, one that begins later, and their steps.
abbrev one_through : List Call
one_through = record { url = "https://a.org/"; phase = added_bloom } ∷ []

abbrev a_second : List CallEvent
a_second =
    begins "https://a.org/"
    ∷ moves 0 1 2
    ∷ moves 1 1 2
    ∷ moves 0 1 2
    ∷ moves 0 1 2
    ∷ moves 0 1 2
    ∷ []

abbrev one_seen : Dedup sets
one_seen = record { exact = []; bloom = "https://a.org/" ∷ [] }

passed_calls-le-through_example :
    passed_calls "https://a.org/" (interleaved sets open_policy a_second (one_through, one_seen)).0
    ≤ through "https://a.org/" one_through
unfolding member
passed_calls-le-through_example =
    passed_calls-le-through sets open_policy a_second "https://a.org/" one_through one_seen refl

none_seen-IsCovered : IsCovered sets open_policy none_seen
none_seen-IsCovered = record { covered = λ u h. h }

abbrev slow : GoError
slow = other 1 (codes "slow") (timeout_is true) false nil

slow_retryable : retryable_error slow ≡ true
unfolding classify as_crawl_error classify_other with_status_code new_error is_retryable
slow_retryable = refl

-- Every attempt times out.
abbrev timing_out : ℕ → Attempt
timing_out i = record { cancelled = false; acquired = true; result = wrapping slow }

-- The first attempt times out, the next one succeeds.
abbrev second_result : ℕ → Wrapped
second_result zero = wrapping slow
second_result (suc i) = nil

abbrev second_try : ℕ → Attempt
second_try i = record { cancelled = false; acquired = true; result = second_result i }

first-Retried : (j : ℕ) → j < 1 → Retried second_try j
first-Retried zero h = (refl, (slow, refl, slow_retryable))
first-Retried (suc j) h = absurd (omega arith)
