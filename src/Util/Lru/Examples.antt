-- ===== src/Util/Lru/Examples.antt =====
-- Test data for the LRU cache and set, and the theorems applied to it.
use text.Mathlib.TextEquality.{eq_iff}
use omegacrawl.Base.{ℕ, ◌≤◌, ◌≡◌, ◌≢◌, List, [], ◌∷◌, some, arith, String}
use omegacrawl.Base.Int.{pos, or_default}
use omegacrawl.Util.Lru.{Lru, new_lru, len}
use omegacrawl.Util.Lru.Spec.{Call, gets, puts, asks, counts, Answer, found, call, calls, specs}
use omegacrawl.Util.Lru.History.{calls-specs}
use omegacrawl.Util.Lru.Kept.{gets-puts}

abbrev three_puts : List (Call ℕ)
three_puts = puts "a" 1 ∷ puts "b" 2 ∷ gets "a" ∷ puts "c" 3 ∷ asks "b" ∷ gets "a" ∷ counts ∷ []

abbrev one_other : List (Call ℕ)
one_other = puts "b" 5 ∷ []

calls-specs_example :
    (c : Lru ℕ) × (calls three_puts (new_lru 0 (pos 2))
      ≡ some (c, (specs (or_default (pos 2) 1000) three_puts []).1))
    × (len c ≤ or_default (pos 2) 1000)
calls-specs_example = calls-specs 0 (pos 2) three_puts

b_is_not_a : ◌≢◌ {A = String} "b" "a"
b_is_not_a = λ e. ground (arith, eq_iff "b" "a")

gets-puts_example :
    (c : Lru ℕ) × (earlier : List (Answer ℕ)) × (calls three_puts (new_lru 0 (pos 2))
      ≡ some (c, earlier))
    × (d : Lru ℕ) × (later : List (Answer ℕ)) × (calls (puts "a" 7 ∷ one_other) c ≡ some (d, later))
    × (e : Lru ℕ) × (call (gets "a") d ≡ some (e, found (some 7)))
gets-puts_example = gets-puts 0 (pos 2) three_puts "a" 7 one_other (omega arith) (b_is_not_a, tt)
