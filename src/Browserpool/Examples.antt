-- ===== src/Browserpool/Examples.antt =====
-- Test data for the pool of browsers, and the theorems applied to it.
use omegacrawl.Base.{◌≡◌, refl, true, false, [], ◌∷◌, some, ◌==◌}
use omegacrawl.Browserpool.Pool.{BrowserInstance, Pool, select_instance, select_from, acquire}
use omegacrawl.Browserpool.Acquires.{HandedOut, acquire-HandedOut}

abbrev used_first : BrowserInstance
used_first = record { browser = 0; healthy = true; last_used = 5 }

-- Two healthy instances; the browser of the one that was used first is dead.
abbrev one_dead : Pool
one_dead = record {
  instances = used_first ∷ record { browser = 1; healthy = true; last_used = 9 } ∷ [];
  size = 2;
  closed = false;
  alive = λ b. b == 1;
  launched = 2;
}

acquire-HandedOut_example : HandedOut (λ n. true) 12 (acquire (λ n. true) 12 one_dead)
acquire-HandedOut_example = acquire-HandedOut (λ n. true) 12 one_dead

first_is_picked : select_instance one_dead ≡ some used_first
unfolding select_instance select_from
first_is_picked = refl
