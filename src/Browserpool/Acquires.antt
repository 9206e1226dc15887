-- ===== src/Browserpool/Acquires.antt =====
-- internal/browserpool/acquire.go: what `Acquire` hands out.
use mathlib.Core.Path.{subst}
use mathlib.Core.List.{Memᴰ}
use omegacrawl.Base.{
  ℕ, ◌≡◌, refl, ap, ◌⊎◌, Bool, true, false, List, [], ◌∷◌, Option, none, some, arith, inl, inr,
  Bool-cases, Option-cases, length, ◌==◌,
}
use omegacrawl.Browserpool.Pool.{
  BrowserInstance, Pool, PoolError, err_no_instance, shutdown, select_instance, launch_instance,
  restart_from, is_unhealthy, is_dead, try_restart_instance, touch, hand_out, or_restart, acquire,
}
use omegacrawl.Browserpool.Selects.{LeastUsed, select_instance-LeastUsed}

module _ (launches : ℕ → Bool) (now : ℕ) where
  -- What a restart gives is alive, and one of the instances.
  abbrev Restarted : Pool × List BrowserInstance × Option BrowserInstance → Type 0
  Restarted (q, l, none) = Unit
  Restarted (q, l, some inst) = (q.alive inst.browser ≡ true) × Memᴰ inst l

  Restarted-cons :
      (q : Pool) (l : List BrowserInstance) (o : Option BrowserInstance) (inst : BrowserInstance)
      → Restarted (q, l, o)
      → Restarted (q, inst ∷ l, o)
  Restarted-cons q l none inst h = tt
  Restarted-cons q l (some new) inst (a, m) = (a, Memᴰ.tail m)

  restart_from-Restarted :
      (test : Pool → BrowserInstance → Bool) (l : List BrowserInstance) (p : Pool)
      → Restarted (restart_from launches now test l p)
  unfolding restart_from launch_instance shutdown
  restart_from-Restarted test [] p = tt
  restart_from-Restarted test (inst ∷ l) p = elim (Bool-cases (test p inst)) [
    | inl e ↦ elim (Bool-cases (launches p.launched)) [
      | inl b ↦ rw (restart_from, e, launch_instance, shutdown, b) (ground arith, Memᴰ.head refl)
      | inr b ↦
          let q = (launch_instance launches now (shutdown inst p)).0 in
          let r = restart_from launches now test l q in
          rw (restart_from, e, launch_instance, shutdown, b)
            (Restarted-cons r.0 r.1 r.2 inst (restart_from-Restarted test l q))
    ]
    | inr e ↦
        let r = restart_from launches now test l p in
        rw (restart_from, e) (Restarted-cons r.0 r.1 r.2 inst (restart_from-Restarted test l p))
  ]

  touch-Memᴰ :
      (inst i : BrowserInstance) (l : List BrowserInstance)
      → i.browser ≡ inst.browser
      → Memᴰ i l
      → Memᴰ inst (touch inst l)
  unfolding touch
  touch-Memᴰ inst i [] e m = elim m [ ]
  touch-Memᴰ inst i (x ∷ l) e (Memᴰ.head h) =
      let t : (x.browser == inst.browser) ≡ true = ground (arith, ap (λ y. y.browser) h, e) in
      rw (touch, t) (Memᴰ.head refl)
  touch-Memᴰ inst i (x ∷ l) e (Memᴰ.tail m) = Memᴰ.tail (touch-Memᴰ inst i l e m)

  -- No launch succeeds: nothing is replaced.
  restart_from-fails :
      (test : Pool → BrowserInstance → Bool) (l : List BrowserInstance) (p : Pool)
      → ((n : ℕ) → launches n ≡ false)
      → (restart_from launches now test l p).2 ≡ none
  unfolding restart_from launch_instance
  restart_from-fails test [] p h = refl
  restart_from-fails test (inst ∷ l) p h = elim (Bool-cases (test p inst)) [
    | inl e ↦
        rw (restart_from, e, launch_instance, h (shutdown inst p).launched)
          (restart_from-fails test l _ h)
    | inr e ↦ rw (restart_from, e) (restart_from-fails test l p h)
  ]

  or_restart-fails :
      (p : Pool)
      → ((n : ℕ) → launches n ≡ false)
      → (or_restart launches now p).1 ≡ inl err_no_instance
  unfolding or_restart try_restart_instance
  or_restart-fails p h =
      let r = restart_from launches now is_unhealthy p.instances p in
      let none_left : (try_restart_instance launches now p).1 ≡ none =
        rw (try_restart_instance, restart_from-fails is_unhealthy p.instances p h)
          (restart_from-fails is_dead r.1 (record r.0 { instances = r.1 }) h) in
      rw (or_restart, none_left) refl

  -- Where the instance that is picked is dead and no browser can be launched, Acquire answers that
  -- there is no healthy instance, whatever other healthy instances with live browsers the pool has.
  pub acquire-gives_up :
      (p : Pool) (inst : BrowserInstance)
      → p.closed ≡ false
      → select_instance p ≡ some inst
      → p.alive inst.browser ≡ false
      → ((n : ℕ) → launches n ≡ false)
      → (acquire launches now p).1 ≡ inl err_no_instance
  unfolding acquire
  acquire-gives_up p inst c s d h = elim (Bool-cases (length p.instances == 0)) [
    | inl e ↦ rw (acquire, c, e) refl
    | inr e ↦
        rw (acquire, c, e, s, d)
          (or_restart-fails
            (record p { instances = touch (record inst { healthy = false }) p.instances }) h)
  ]

  -- The answer is an error, or a live browser of the pool that counts as used now.
  abbrev pub HandedOut : Pool × (PoolError ⊎ ℕ) → Type 0
  HandedOut (q, inl e) = Unit
  HandedOut (q, inr b) =
      (q.alive b ≡ true)
      × (i : BrowserInstance) × Memᴰ i q.instances
      × (i.browser ≡ b)
      × (i.last_used ≡ now)

  hand_out-HandedOut :
      (inst : BrowserInstance) (p : Pool)
      → p.alive inst.browser ≡ true
      → Memᴰ inst p.instances
      → HandedOut (hand_out launches now inst p, inr inst.browser)
  unfolding hand_out
  hand_out-HandedOut inst p a m =
      let used = record inst { last_used = now } in
      (a, used, touch-Memᴰ used inst p.instances refl m, refl, refl)

  abbrev Ready : Pool × Option BrowserInstance → Type 0
  Ready (q, none) = Unit
  Ready (q, some inst) = (q.alive inst.browser ≡ true) × Memᴰ inst q.instances

  Ready-of_Restarted :
      (q : Pool) (l : List BrowserInstance) (o : Option BrowserInstance)
      → Restarted (q, l, o)
      → Ready (record q { instances = l }, o)
  Ready-of_Restarted q l none h = tt
  Ready-of_Restarted q l (some inst) h = h

  try_restart_instance-Ready : (p : Pool) → Ready (try_restart_instance launches now p)
  unfolding try_restart_instance
  try_restart_instance-Ready p =
      let r = restart_from launches now is_unhealthy p.instances p in
      let r' = restart_from launches now is_dead r.1 (record r.0 { instances = r.1 }) in
      elim (Option-cases r.2) [
        | inr (inst, e) ↦
            rw (try_restart_instance, e)
              (subst (λ o. Restarted (r.0, r.1, o)) e
                (restart_from-Restarted is_unhealthy p.instances p))
        | inl e ↦
            rw (try_restart_instance, e)
              (Ready-of_Restarted r'.0 r'.1 r'.2
                (restart_from-Restarted is_dead r.1 (record r.0 { instances = r.1 })))
      ]

  or_restart-HandedOut : (p : Pool) → HandedOut (or_restart launches now p)
  unfolding or_restart try_restart_instance
  or_restart-HandedOut p =
      let t = try_restart_instance launches now p in
      elim (Option-cases t.1) [
        | inl e ↦ rw (or_restart, e) tt
        | inr (inst, e) ↦
            let (a, m) = subst (λ o. Ready (t.0, o)) e (try_restart_instance-Ready p) in
            rw (or_restart, e) (hand_out-HandedOut inst t.0 a m)
      ]

  -- Acquire answers an error, or a browser whose context is live, which is one of the pool's and is
  -- marked as used now.
  pub acquire-HandedOut : (p : Pool) → HandedOut (acquire launches now p)
  unfolding acquire
  acquire-HandedOut p = elim (Bool-cases p.closed) [
    | inl c ↦ rw (acquire, c) tt
    | inr c ↦ elim (Bool-cases (length p.instances == 0)) [
      | inl e ↦ rw (acquire, c, e) tt
      | inr e ↦ elim (Option-cases (select_instance p)) [
        | inl s ↦ rw (acquire, c, e, s) (or_restart-HandedOut p)
        | inr (inst, s) ↦
            let (m, _, _) =
              subst (LeastUsed (λ i. Memᴰ i p.instances)) s (select_instance-LeastUsed p) in
            elim (Bool-cases (p.alive inst.browser)) [
              | inl a ↦ rw (acquire, c, e, s, a) (hand_out-HandedOut inst p a m)
              | inr a ↦
                  rw (acquire, c, e, s, a)
                    (or_restart-HandedOut (record p {
                      instances = touch (record inst { healthy = false }) p.instances;
                    }))
            ]
      ]
    ]
  ]
