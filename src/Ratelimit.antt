-- ===== src/Ratelimit.antt =====
-- internal/ratelimit/limiter.go: the limiters of the hosts, each operation as a whole but `get`, which
-- takes its lock twice. Durations are nanoseconds; golang.org/x/time/rate is the record `RateLib`, and `blend` and `delay_of` are the
-- computations with floating-point numbers.
use omegacrawl.Base.{
  ℕ, ◌+◌, ◌-◌, ◌*◌, ◌/◌, ◌<◌, ◌≤◌, ◌≡◌, Bool, true, false, not, ◌&&◌, List, [], ◌∷◌, Option, none,
  some, if◌then◌else◌, ltb, ◌==◌, length,
}
use omegacrawl.Base.Int.{ℤ, not_positive, pos_part}
use omegacrawl.Base.Bytes.{lookup, insert}
pub mod Adaptive
mod Examples

pub record RateLib : Type 1 where
  pub Rate : Type 0
  pub Limiter : Type 0
  pub every : ℕ → Rate
  pub same_rate : Rate → Rate → Bool
  pub new_limiter : Rate → ℕ → Limiter
  pub limit : Limiter → Rate
  pub set_limit : Limiter → Rate → Limiter
  -- `time.Duration(float64(time.Second) / float64(rate))`
  pub delay_of : Rate → ℕ
  -- `0.7 * last + 0.3 * latency`
  pub blend : ℕ → ℕ → ℕ

abbrev pub millisecond : ℕ
millisecond = 1000000

abbrev pub second : ℕ
second = 1000000000

abbrev pub min : ℕ → ℕ → ℕ
min a b = if ltb a b then a else b

abbrev pub max : ℕ → ℕ → ℕ
max a b = if ltb a b then b else a

module _ (lib : RateLib) where
  pub record HostLimiter : Type 0 where
    pub limiter : lib.Limiter
    pub last_seen : ℕ
    pub last_latency : ℕ

  pub record RateLimiter : Type 0 where
    pub limiters : List (List ℕ × HostLimiter)
    pub default_rate : ℕ
    pub min_delay : ℕ
    pub max_delay : ℕ
    pub burst_size : ℕ
    pub cleanup_at : ℕ

  -- `New` at the time `now`, without its goroutine.
  unfoldable pub new_rate_limiter : ℕ → ℕ → ℕ → RateLimiter
  new_rate_limiter now default_delay burst = record {
    limiters = [];
    default_rate = default_delay;
    min_delay = 100 * millisecond;
    max_delay = 30 * second;
    burst_size = if ltb burst 1 then 1 else burst;
    cleanup_at = now + 300 * second;
  }

  -- The delay asked for, or the default one.
  unfoldable pub delay_or_default : RateLimiter → ℤ → ℕ
  delay_or_default rl base = if not_positive base then rl.default_rate else pos_part base

  abbrev pub with_limiters : RateLimiter → List (List ℕ × HostLimiter) → RateLimiter
  with_limiters rl l = record rl { limiters = l }

  -- `get`: the limiters, and the limiter of the host. A host with no limiter is looked up again under
  -- the lock for writing; `others` is what other goroutines do to the limiters until then. A limiter
  -- that is found there only now is returned with the rate that it has.
  unfoldable pub get :
      (RateLimiter → RateLimiter) → RateLimiter → ℕ → List ℕ → ℤ → RateLimiter × lib.Limiter
  unfolding delay_or_default lookup insert
  get others rl now host base =
      let wanted = lib.every (delay_or_default rl base) in
      elim (lookup host rl.limiters) [
        | some hl ↦
            let limiter =
              if not (lib.same_rate (lib.limit hl.limiter) wanted)
              then lib.set_limit hl.limiter wanted
              else hl.limiter in
            let seen : HostLimiter = record {
              limiter = limiter;
              last_seen = now;
              last_latency = hl.last_latency;
            } in
            (with_limiters rl (insert host seen rl.limiters), limiter)
        | none ↦
            let later = others rl in
            let limiter = lib.new_limiter wanted rl.burst_size in
            let fresh : HostLimiter = record {
              limiter = limiter;
              last_seen = now;
              last_latency = 0;
            } in
            elim (lookup host later.limiters) [
              | some hl ↦ (later, hl.limiter)
              | none ↦ (with_limiters later (insert host fresh later.limiters), limiter)
            ]
      ]

  -- The delay after a latency: twice as long where the latency is more than three times the delay,
  -- half as long where it is less than a third of it.
  unfoldable pub adapted : RateLimiter → ℕ → ℕ → Option ℕ
  adapted rl delay latency =
      if ltb (delay * 3) latency
      then some (min (delay * 2) rl.max_delay)
      else if ltb latency (delay / 3) && ltb rl.min_delay delay
      then some (max (delay / 2) rl.min_delay)
      else none

  -- `ObserveLatency`
  unfoldable pub observe_latency : RateLimiter → ℕ → List ℕ → ℕ → RateLimiter
  unfolding adapted lookup insert
  observe_latency rl now host latency = elim (lookup host rl.limiters) [
    | none ↦ rl
    | some hl ↦
        let last = lib.blend hl.last_latency latency in
        let limiter : lib.Limiter = elim (adapted rl (lib.delay_of (lib.limit hl.limiter)) last) [
          | none ↦ hl.limiter
          | some delay ↦ lib.set_limit hl.limiter (lib.every delay)
        ] in
        let first : HostLimiter = record {
          limiter = hl.limiter;
          last_seen = now;
          last_latency = latency;
        } in
        let later : HostLimiter = record {
          limiter = limiter;
          last_seen = now;
          last_latency = last;
        } in
        with_limiters rl (insert host (if hl.last_latency == 0 then first else later) rl.limiters)
  ]

  -- The hosts seen in the last ten minutes.
  unfoldable pub seen_hosts : ℕ → List (List ℕ × HostLimiter) → List (List ℕ × HostLimiter)
  seen_hosts now [] = []
  seen_hosts now ((host, hl) ∷ l) =
      let rest = seen_hosts now l in
      if ltb (600 * second) (now - hl.last_seen) then rest else (host, hl) ∷ rest

  -- `Cleanup`
  unfoldable pub cleanup : RateLimiter → ℕ → RateLimiter
  unfolding seen_hosts
  cleanup rl now = record rl {
    limiters = seen_hosts now rl.limiters;
    cleanup_at = now + 300 * second;
  }

  -- `Len`
  unfoldable pub len : RateLimiter → ℕ
  len rl = length rl.limiters
