-- ===== src/Browserpool/Pool.antt =====
-- internal/browserpool/acquire.go, health.go, launch.go, types.go: the pool of browsers. A browser is
-- a number; `alive` tells whether its context has no error. `launches` tells which launches succeed,
-- counted from the first. A method that holds the mutex is one step.
use omegacrawl.Base.{
  ℕ, zero, suc, ◌+◌, Bool, true, false, not, List, [], ◌∷◌, ◌++◌, Option, none, some, ltb, ◌==◌,
  if◌then◌else◌, ◌&&◌, length, ◌⊎◌, inl, inr,
}
use omegacrawl.Base.Int.{ℤ, or_default}

pub record BrowserInstance : Type 0 where
  pub browser : ℕ
  pub healthy : Bool
  pub last_used : ℕ

pub record Pool : Type 0 where
  pub instances : List BrowserInstance
  pub size : ℕ
  pub closed : Bool
  pub alive : ℕ → Bool
  pub launched : ℕ  -- the launches so far

pub data PoolError : Type 0 where
  err_pool_closed err_no_instance launch_failed : PoolError

abbrev pub set_alive : (ℕ → Bool) → ℕ → Bool → ℕ → Bool
set_alive alive browser v b = if browser == b then v else alive b

-- `New` with a size of at least one; `alive_before` is read for no browser.
unfoldable pub new_pool : ℤ → (ℕ → Bool) → Pool
new_pool size alive_before = record {
  instances = [];
  size = or_default size 1;
  closed = false;
  alive = alive_before;
  launched = 0;
}

unfoldable pub shutdown : BrowserInstance → Pool → Pool
shutdown inst p = record p { alive = set_alive p.alive inst.browser false }

-- The loop of `selectInstance`, with the best instance so far.
unfoldable pub select_from : Option BrowserInstance → List BrowserInstance → Option BrowserInstance
select_from best [] = best
select_from none (inst ∷ instances) =
    select_from (if inst.healthy then some inst else none) instances
select_from (some best) (inst ∷ instances) =
    select_from (if inst.healthy && ltb inst.last_used best.last_used then some inst else some best)
      instances

unfoldable pub select_instance : Pool → Option BrowserInstance
unfolding select_from
select_instance p = select_from none p.instances

unfoldable pub is_unhealthy : Pool → BrowserInstance → Bool
is_unhealthy p inst = not inst.healthy

unfoldable pub is_dead : Pool → BrowserInstance → Bool
is_dead p inst = not (p.alive inst.browser)

-- A field of the instance that holds the browser is written.
unfoldable pub touch : BrowserInstance → List BrowserInstance → List BrowserInstance
touch inst [] = []
touch inst (i ∷ instances) = (if i.browser == inst.browser then inst else i) ∷ touch inst instances

-- Each instance is shut down.
unfoldable pub shutdown_all : List BrowserInstance → Pool → Pool
unfolding shutdown
shutdown_all [] p = p
shutdown_all (inst ∷ instances) p = shutdown_all instances (shutdown inst p)

-- The first loop of `HealthCheck`: an instance whose browser is dead is not healthy.
unfoldable pub mark_dead : (ℕ → Bool) → List BrowserInstance → List BrowserInstance
mark_dead alive [] = []
mark_dead alive (inst ∷ instances) =
    (if alive inst.browser then inst else record inst { healthy = false })
    ∷ mark_dead alive instances

module _ (launches : ℕ → Bool) (now : ℕ) where
  -- `launchInstance`: the number of the launch is the browser's.
  unfoldable pub launch_instance : Pool → Pool × Option BrowserInstance
  launch_instance p =
      if launches p.launched
      then (
        record p { launched = p.launched + 1; alive = set_alive p.alive p.launched true },
        some (record { browser = p.launched; healthy = true; last_used = now }),
      )
      else (record p { launched = p.launched + 1 }, none)

  -- The loop of `Start`, with the launches left.
  unfoldable pub start_from : ℕ → Pool → Pool × Option PoolError
  unfolding launch_instance shutdown_all
  start_from zero p = (p, none)
  start_from (suc n) p =
      let (q, o) = launch_instance p in
      elim o [
        | none ↦ (record (shutdown_all q.instances q) { instances = [] }, some launch_failed)
        | some inst ↦ start_from n (record q { instances = q.instances ++ inst ∷ [] })
      ]

  unfoldable pub start : Pool → Pool × Option PoolError
  unfolding start_from
  start p = start_from p.size (record p { instances = [] })

  -- A loop of `tryRestartInstance`: the first instance that the test tells and that can be launched
  -- again is replaced. The list is the rest of the instances.
  unfoldable pub restart_from :
      (Pool → BrowserInstance → Bool)
      → List BrowserInstance
      → Pool
      → Pool × List BrowserInstance × Option BrowserInstance
  unfolding launch_instance shutdown
  restart_from test [] p = (p, [], none)
  restart_from test (inst ∷ instances) p =
      let (q, o) = launch_instance (shutdown inst p) in
      let (q', after, r) = restart_from test instances q in
      let (p', skipped, r') = restart_from test instances p in
      if test p inst
      then elim o [ none ↦ (q', inst ∷ after, r) | some new ↦ (q, new ∷ instances, some new) ]
      else (p', inst ∷ skipped, r')

  unfoldable pub try_restart_instance : Pool → Pool × Option BrowserInstance
  unfolding restart_from is_unhealthy is_dead
  try_restart_instance p =
      let (q, insts, o) = restart_from is_unhealthy p.instances p in
      let (q', insts', o') = restart_from is_dead insts (record q { instances = insts }) in
      elim o [
        | some inst ↦ (record q { instances = insts }, some inst)
        | none ↦ (record q' { instances = insts' }, o')
      ]

  -- The last lines of `Acquire`.
  unfoldable pub hand_out : BrowserInstance → Pool → Pool
  unfolding touch
  hand_out inst p = record p { instances = touch (record inst { last_used = now }) p.instances }

  unfoldable pub or_restart : Pool → Pool × (PoolError ⊎ ℕ)
  unfolding try_restart_instance hand_out
  or_restart p =
      let (q, o) = try_restart_instance p in
      elim o [ none ↦ (q, inl err_no_instance) | some inst ↦ (hand_out inst q, inr inst.browser) ]

  -- `Acquire`: the browser whose context is returned.
  unfoldable pub acquire : Pool → Pool × (PoolError ⊎ ℕ)
  unfolding select_instance or_restart hand_out touch
  acquire p =
      if p.closed
      then (p, inl err_pool_closed)
      else if length p.instances == 0
      then (p, inl err_no_instance)
      else elim (select_instance p) [
        | none ↦ or_restart p
        | some inst ↦
            if p.alive inst.browser
            then (hand_out inst p, inr inst.browser)
            else or_restart
                (record p { instances = touch (record inst { healthy = false }) p.instances })
      ]

  -- The loop of `HealthCheck` over the instances, `found` being the browsers that it found alive; one
  -- that is launched for a pool closed meanwhile is shut down.
  unfoldable pub replace_from :
      (ℕ → Bool) → List BrowserInstance → Pool → Pool × List BrowserInstance
  unfolding launch_instance shutdown
  replace_from found [] p = (p, [])
  replace_from found (inst ∷ instances) p =
      let (q, o) = launch_instance (shutdown inst p) in
      let (p', skipped) = replace_from found instances p in
      let (q', after) = replace_from found instances q in
      if found inst.browser then (p', inst ∷ skipped) else elim o [
        | none ↦ (q', inst ∷ after)
        | some new ↦
            let (r, closing) = replace_from found instances (shutdown new q) in
            if q.closed then (r, inst ∷ closing) else (q', new ∷ after)
      ]

  -- `HealthCheck`, with no other call in between.
  unfoldable pub health_check : Pool → Pool
  unfolding replace_from
  health_check p =
      let (q, insts) = replace_from p.alive (mark_dead p.alive p.instances) p in
      record q { instances = insts }

-- `Close`
unfoldable pub close : Pool → Pool
unfolding shutdown_all
close p =
    if p.closed then p else shutdown_all p.instances (record p { closed = true; instances = [] })
