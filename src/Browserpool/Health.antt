-- ===== src/Browserpool/Health.antt =====
-- internal/browserpool/health.go: what `HealthCheck` and `Close` leave.
use omegacrawl.Base.{
  ℕ, ◌+◌, ◌<◌, ◌≡◌, ◌≢◌, refl, ap, Bool, true, false, List, [], ◌∷◌, some, All, arith, inl, inr,
  Bool-cases, if◌then◌else◌,
}
use omegacrawl.Browserpool.Pool.{
  BrowserInstance, Pool, set_alive, shutdown, launch_instance, mark_dead, replace_from,
  health_check,
}

if_false : {A : Type 0} (b : Bool) (x y : A) → b ≡ false → (if b then x else y) ≡ y
if_false b x y e = rw e refl

module _ (launches : ℕ → Bool) (now : ℕ) (works : (n : ℕ) → launches n ≡ true) where
  -- The instances have live browsers.
  abbrev pub AllLive : (ℕ → Bool) → List BrowserInstance → Type 0
  AllLive alive l = All (λ i. alive i.browser ≡ true) l

  -- The browsers of the instances were launched before.
  abbrev pub Launched : ℕ → List BrowserInstance → Type 0
  Launched n l = All (λ i. i.browser < n) l

  -- The pool after an instance was shut down and another browser launched.
  abbrev relaunched : BrowserInstance → Pool → Pool
  relaunched i p = record p {
    launched = p.launched + 1;
    alive = set_alive (set_alive p.alive i.browser false) p.launched true;
  }

  abbrev new_browser : Pool → BrowserInstance
  new_browser p = record { browser = p.launched; healthy = true; last_used = now }

  launch_instance-shutdown :
      (i : BrowserInstance) (p : Pool)
      → launch_instance launches now (shutdown i p) ≡ (relaunched i p, some (new_browser p))
  unfolding launch_instance shutdown
  launch_instance-shutdown i p = rw (launch_instance, works p.launched) refl

  -- An instance that was found dead is replaced.
  replaced :
      (found : ℕ → Bool) (i : BrowserInstance) (l : List BrowserInstance) (p : Pool)
      → p.closed ≡ false
      → found i.browser ≡ false
      → let r = replace_from launches now found l (relaunched i p) in
        replace_from launches now found (i ∷ l) p ≡ (r.0, new_browser p ∷ r.1)
  unfolding replace_from
  replaced found i l p c e =
      rw (replace_from, e, launch_instance-shutdown i p, launch_instance-shutdown i p)
        (if_false p.closed _ _ c)

  -- A browser that is alive stays so unless it is one of those that were found dead.
  replace_from-alive :
      (found : ℕ → Bool) (b : ℕ) (l : List BrowserInstance) (p : Pool)
      → p.closed ≡ false
      → All (λ i. found i.browser ≡ false → i.browser ≢ b) l
      → p.alive b ≡ true
      → (replace_from launches now found l p).0.alive b ≡ true
  unfolding replace_from
  replace_from-alive found b [] p c s h = h
  replace_from-alive found b (i ∷ l) p c (s0, s) h = elim (Bool-cases (found i.browser)) [
    | inl e ↦ rw (replace_from, e) (replace_from-alive found b l p c s h)
    | inr e ↦
        let ne : i.browser ≢ b = s0 e in
        rw (replaced found i l p c e)
          (replace_from-alive found b l (relaunched i p) c s (ground arith))
  ]

  Launched-suc : (n : ℕ) (l : List BrowserInstance) → Launched n l → Launched (n + 1) l
  Launched-suc n [] h = tt
  Launched-suc n (i ∷ l) (p, h) = (omega (arith, p), Launched-suc n l h)

  Launched-ne :
      (found : ℕ → Bool) (n : ℕ) (l : List BrowserInstance)
      → Launched n l
      → All (λ i. found i.browser ≡ false → i.browser ≢ n) l
  Launched-ne found n [] h = tt
  Launched-ne found n (i ∷ l) (p, h) = ((λ f e. omega (arith, p, e)), Launched-ne found n l h)

  found-ne :
      (found : ℕ → Bool) (n : ℕ) (l : List BrowserInstance)
      → found n ≡ true
      → All (λ i. found i.browser ≡ false → i.browser ≢ n) l
  found-ne found n [] h = tt
  found-ne found n (i ∷ l) h = ((λ f e. ground (arith, f, h, ap found e)), found-ne found n l h)

  replace_from-AllLive :
      (found : ℕ → Bool) (l : List BrowserInstance) (p : Pool)
      → p.closed ≡ false
      → Launched p.launched l
      → ((n : ℕ) → found n ≡ true → p.alive n ≡ true)
      → AllLive
          (replace_from launches now found l p).0.alive
          (replace_from launches now found l p).1
  unfolding replace_from
  replace_from-AllLive found [] p c s h = tt
  replace_from-AllLive found (i ∷ l) p c (s0, s) h = elim (Bool-cases (found i.browser)) [
    | inl e ↦
        rw (replace_from, e)
          (
            replace_from-alive found i.browser l p c (found-ne found i.browser l e) (h i.browser e),
            replace_from-AllLive found l p c s h,
          )
    | inr e ↦ rw (replaced found i l p c e) (
      replace_from-alive found p.launched l (relaunched i p) c (Launched-ne found p.launched l s)
          (ground arith),
      replace_from-AllLive found l (relaunched i p) c (Launched-suc p.launched l s) (λ n f.
          let ne : i.browser ≢ n = λ d. ground (arith, e, f, ap found d) in
          let a : p.alive n ≡ true = h n f in ground arith),
    )
  ]

  mark_dead-Launched :
      (alive : ℕ → Bool) (n : ℕ) (l : List BrowserInstance)
      → Launched n l
      → Launched n (mark_dead alive l)
  unfolding mark_dead
  mark_dead-Launched alive n [] h = tt
  mark_dead-Launched alive n (i ∷ l) (p, h) = elim (Bool-cases (alive i.browser)) [
    | inl e ↦ rw (mark_dead, e) (p, mark_dead-Launched alive n l h)
    | inr e ↦ rw (mark_dead, e) (p, mark_dead-Launched alive n l h)
  ]

  -- Where every launch succeeds and no other call comes in between, HealthCheck leaves an open pool
  -- with live browsers only.
  pub health_check-AllLive :
      (p : Pool)
      → p.closed ≡ false
      → Launched p.launched p.instances
      → AllLive (health_check launches now p).alive (health_check launches now p).instances
  unfolding health_check
  health_check-AllLive p c s =
      replace_from-AllLive p.alive (mark_dead p.alive p.instances) p c
        (mark_dead-Launched p.alive p.launched p.instances s) (λ n e. e)
