-- ===== src/Robots/Examples.antt =====
-- Test data for robots.txt, and the theorems applied to it.
use omegacrawl.Base.{
  ℕ, ◌+◌, ◌<◌, ◌≡◌, ◌≢◌, refl, ◌↔◌, Bool, true, false, List, [], ◌∷◌, Option, none, some, arith,
}
use omegacrawl.Base.Int.{ℤ, pos}
use omegacrawl.Base.Dict.{lookup}
use omegacrawl.Errors.Classify.{codes}
use omegacrawl.Robots.Match.{match_path, Covers, match_path-Covers}
use omegacrawl.Robots.Evaluate.{RobotsEntry, evaluate_rules}
use omegacrawl.Robots.Longest.{Blocked, evaluate_rules-Blocked}
use omegacrawl.Robots.Parse.{Parsing, empty_entry}
use omegacrawl.Robots.Cache.{failed, answered, Target, new_robots_parser, can_crawl}
use omegacrawl.Robots.Fresh.{server_error_blocks}

abbrev all_compile : List ℕ → Bool
all_compile rule = true

abbrev no_seconds : List ℕ → Option ℤ
no_seconds value = none

match_path-Covers_example :
    (match_path (λ r. true) (codes "/a*z") (codes "/abcz/d") ≡ true)
    ↔ ((codes "/a*z" ≢ []) × Covers (codes "/a*z") (codes "/abcz/d"))
match_path-Covers_example = match_path-Covers (codes "/a*z") (codes "/abcz/d")

abbrev private_entry : RobotsEntry
private_entry = record (empty_entry no_seconds 0) {
  allow = codes "/private/open" ∷ [];
  disallow = codes "/private" ∷ [];
}

evaluate_rules-Blocked_example :
    ((evaluate_rules all_compile private_entry (codes "/private/x") (pos 1)).0 ≡ false)
    ↔ Blocked all_compile private_entry (codes "/private/x")
evaluate_rules-Blocked_example =
    evaluate_rules-Blocked all_compile private_entry (codes "/private/x") (pos 1)

abbrev group_over : Parsing
group_over = record { entry = private_entry; in_our_agent = false; matched_specific = true }

abbrev front_page : Target
front_page = record { robots_url = "https://a.org/robots.txt"; path = [] }

abbrev shop_page : Target
shop_page = record { robots_url = "https://a.org/robots.txt"; path = codes "/shop" }

nothing_cached : lookup front_page.robots_url new_robots_parser.cache ≡ none
unfolding lookup new_robots_parser
nothing_cached = refl

minutes_left : 9 < 6 + new_robots_parser.transient_ttl
unfolding new_robots_parser
minutes_left = omega arith

server_error_blocks_example :
    (let rp =
        (can_crawl all_compile no_seconds
          (some front_page)
          (codes "bot")
          true
          (pos 0)
          5
          6
          (answered 503 none)
          new_robots_parser).0 in
      can_crawl all_compile no_seconds (some shop_page) (codes "bot") true (pos 1) 9 9 failed rp
      ≡ (rp, (false, pos 0)))
server_error_blocks_example =
    server_error_blocks all_compile no_seconds front_page shop_page (codes "bot") (codes "bot")
      (codes "shop") (pos 0) (pos 1) 5 6 9 9 503 none failed new_robots_parser nothing_cached
      (omega arith) refl refl minutes_left
