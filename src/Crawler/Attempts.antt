-- ===== src/Crawler/Attempts.antt =====
-- internal/crawler/crawl_page.go: how often a page is visited and what is reported of it.
use omegacrawl.Base.{
  ℕ, zero, suc, ◌+◌, ◌-◌, ◌<◌, ◌≡◌, refl, ap, ◌∙◌, ◌⊎◌, inl, inr, Bool, true, false, ◌&&◌, not, ltb,
  arith, Bool-cases,
}
use omegacrawl.Errors.Kinds.{GoError, Wrapped, nil, wrapping}
use omegacrawl.Crawler.Page.{
  Attempt, reported_success, reported_failure, no_report, retryable_error, visit, attempts,
  crawl_page,
}

-- The attempt reaches the page: it is not cancelled in its backoff (the first has none), and a
-- browser is acquired.
abbrev pub reaches : (ℕ → Attempt) → ℕ → Bool
reaches env i = not (ltb 0 i && (env i).cancelled) && (env i).acquired

-- The attempt fails in a way that is tried again.
abbrev pub Retried : (ℕ → Attempt) → ℕ → Type 0
Retried env i =
    (reaches env i ≡ true)
    × ((e : GoError) × ((env i).result ≡ wrapping e) × (retryable_error e ≡ true))

abbrev IsError : Wrapped → Type 0
IsError w = (e : GoError) × (w ≡ wrapping e)

Wrapped-cases : (w : Wrapped) → (w ≡ nil) ⊎ IsError w
Wrapped-cases nil = inl refl
Wrapped-cases (wrapping e) = inr (e, refl)

attempts-Retried :
    (n i : ℕ) (last : Wrapped) (env : ℕ → Attempt)
    → Retried env i
    → (e : GoError) × (attempts (suc n) i last env ≡ attempts n (i + 1) (wrapping e) env)
unfolding attempts visit
attempts-Retried n i last env (r, (e, f, g)) = (e, ground (arith, r, f, g))

-- After `k` attempts that are tried again the loop stands at the next one.
attempts-skip :
    (k n i : ℕ) (last : Wrapped) (env : ℕ → Attempt)
    → ((j : ℕ) → j < k → Retried env (i + j))
    → (w : Wrapped) × (attempts (k + n) i last env ≡ attempts n (i + k) w env)
      × ((w ≡ last) × (k ≡ 0) ⊎ IsError w)
attempts-skip zero n i last env h = (
  last,
  (let e : zero + n ≡ n = omega arith in let f : i + zero ≡ i = omega arith in rw (e, f) refl),
  inl (refl, refl),
)
attempts-skip (suc k) n i last env h =
    let f0 : i + 0 ≡ i = omega arith in
    let (e, p) = attempts-Retried (k + n) i last env (rw f0 at (h 0 (omega arith))) in
    let (w, q, r) =
      attempts-skip k n (i + 1) (wrapping e) env
        (λ j l. let g : i + 1 + j ≡ i + suc j = omega arith in rw g (h (suc j) (omega arith))) in
    let f1 : suc k + n ≡ suc (k + n) = omega arith in
    let f2 : i + suc k ≡ i + 1 + k = omega arith in
    (w, rw (f1, f2) (p ∙ q), inr (elim r [ inl a ↦ (e, a.0) | inr b ↦ b ]))

-- The attempt at index `k` ends the loop in one of four ways.
attempts-ends :
    (n k : ℕ) (last : Wrapped) (env : ℕ → Attempt)
    → (reaches env k ≡ false
        → attempts (suc n) k last env ≡ record { visits = k; report = no_report })
      × (reaches env k ≡ true
          → (env k).result ≡ nil
          → attempts (suc n) k last env ≡ record { visits = k + 1; report = reported_success })
      × ((e : GoError)
          → reaches env k ≡ true
          → (env k).result ≡ wrapping e
          → retryable_error e ≡ false
          → attempts (suc n) k last env ≡ record { visits = k + 1; report = reported_failure })
unfolding attempts visit
attempts-ends n k last env =
    (λ h. ground (arith, h), λ h f. ground (arith, h, f), λ e h f g. ground (arith, h, f, g))

skipped :
    (n k : ℕ) (env : ℕ → Attempt)
    → k < n
    → ((j : ℕ) → j < k → Retried env j)
    → (m : ℕ) × (w : Wrapped) × (crawl_page n env ≡ attempts (suc m) k w env)
unfolding crawl_page
skipped n k env l h =
    let (w, p, r) =
      attempts-skip k (n - k) 0 nil env (λ j b. let e : 0 + j ≡ j = omega arith in rw e (h j b)) in
    let e1 : k + (n - k) ≡ n = omega arith in
    let e2 : n - k ≡ suc (n - k - 1) = omega arith in
    let e3 : 0 + k ≡ k = omega arith in
    (n - k - 1, w, (rw (e1, e3) at p) ∙ ap (λ x. attempts x k w env) e2)

-- When the attempts before attempt `k` are tried again and `k` is below the maximum, attempt `k` is
-- either tried again too, or it ends the calls: with nothing reported after `k` visits if it is
-- cancelled or gets no browser, and after `k + 1` visits with a success if `doCrawl` succeeds and
-- with a failure if it fails for good.
pub crawl_page-ends :
    (n k : ℕ) (env : ℕ → Attempt)
    → k < n
    → ((j : ℕ) → j < k → Retried env j)
    → Retried env k
      ⊎ ((reaches env k ≡ false) × (crawl_page n env ≡ record { visits = k; report = no_report }))
      ⊎ ((reaches env k ≡ true)
          × ((env k).result ≡ nil)
          × (crawl_page n env ≡ record { visits = k + 1; report = reported_success }))
      ⊎ ((e : GoError) × (reaches env k ≡ true)
          × ((env k).result ≡ wrapping e)
          × (retryable_error e ≡ false)
          × (crawl_page n env ≡ record { visits = k + 1; report = reported_failure }))
crawl_page-ends n k env l h =
    let (m, w, p) = skipped n k env l h in
    let (a, b, c) = attempts-ends m k w env in
    elim (Bool-cases (reaches env k)) [
      | inr r ↦ inr (inl (r, p ∙ a r))
      | inl r ↦ elim (Wrapped-cases (env k).result) [
        | inl s ↦ inr (inr (inl (r, s, p ∙ b r s)))
        | inr (e, s) ↦ elim (Bool-cases (retryable_error e)) [
          | inl t ↦ inl (r, (e, s, t))
          | inr t ↦ inr (inr (inr (e, r, s, t, p ∙ c e r s t)))
        ]
      ]
    ]
