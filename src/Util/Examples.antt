-- ===== src/Util/Examples.antt =====
-- Test data for the containers, and the theorems applied to it.
use omegacrawl.Base.{ℕ, ◌-◌, ◌≡◌, List, [], ◌∷◌, map, some, length, drop}
use omegacrawl.Base.Int.{pos, or_default}
use omegacrawl.Util.BoundedQueue.{new_bounded_queue, get_all}
use omegacrawl.Util.BoundedQueue.History.{push_all, get_all-push_all}

abbrev lines : List ℕ
lines = 4 ∷ 5 ∷ 6 ∷ []

get_all-push_all_example :
    get_all (push_all lines (new_bounded_queue (pos 2)))
    ≡ some (map some (drop (length lines - or_default (pos 2) 1000) lines))
get_all-push_all_example = get_all-push_all (pos 2) lines
