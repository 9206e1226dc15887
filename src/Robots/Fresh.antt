-- ===== src/Robots/Fresh.antt =====
-- internal/robots/rules.go: what the cache of entries does between fetches.
use text.Mathlib.TextPositions.{eq_refl}
use omegacrawl.Base.{
  ℕ, ◌+◌, ◌≤◌, ◌<◌, ◌≡◌, ap, ◌∙◌, Bool, true, false, List, [], ◌∷◌, Option, none, some, arith,
}
use omegacrawl.Base.Int.{ℤ, pos}
use omegacrawl.Base.Dict.{lookup, insert, lookup-insert}
use omegacrawl.Errors.Classify.{codes}
use omegacrawl.Robots.Evaluate.{RobotsEntry, best_score, or_root, evaluate_rules}
use omegacrawl.Robots.Match.{match_path, has_star, has_prefix}
use omegacrawl.Robots.Parse.{empty_entry}
use omegacrawl.Robots.Cache.{
  Response, answered, RobotsParser, Target, fetch_robots, is_fresh, fetch_and_evaluate, can_crawl,
}

module _ (compiles : List ℕ → Bool) (parse_seconds : List ℕ → Option ℤ) where
  -- A fresh entry answers, whatever the server would, and the parser stays as it is.
  fresh_answers :
      (t : Target) (entry : RobotsEntry) (ua : List ℕ) (crawl_delay : ℤ) (began now : ℕ)
      (answer : Response) (rp : RobotsParser)
      → lookup t.robots_url rp.cache ≡ some entry
      → is_fresh compiles parse_seconds began entry rp ≡ true
      → can_crawl compiles parse_seconds (some t) ua true crawl_delay began now answer rp
        ≡ (rp, evaluate_rules compiles entry t.path crawl_delay)
  unfolding can_crawl
  fresh_answers t entry ua crawl_delay began now answer rp h f = rw (h, can_crawl, f)

  -- What a server error leaves: the rule "/" for every agent, for a while.
  abbrev error_entry : ℕ → RobotsEntry
  error_entry now = record (empty_entry parse_seconds now) {
    disallow = codes "/" ∷ [];
    transient = true;
  }

  fetch-error :
      (began now status : ℕ) (ua : List ℕ) (body : Option (List ℕ))
      → 500 ≤ status
      → fetch_robots compiles parse_seconds began now ua (answered status body) ≡ error_entry now
  unfolding fetch_robots
  fetch-error began now status ua body h = ground arith

  evaluate-error :
      (now : ℕ) (path rest : List ℕ) (crawl_delay : ℤ)
      → or_root compiles path ≡ b'/' ∷ rest
      → evaluate_rules compiles (error_entry now) path crawl_delay ≡ (false, pos 0)
  unfolding evaluate_rules best_score match_path has_star has_prefix
  evaluate-error now path rest crawl_delay e = rw (e, evaluate_rules)

  first_error :
      (t : Target) (ua : List ℕ) (delay : ℤ) (began now status : ℕ) (body : Option (List ℕ))
      (rp : RobotsParser)
      → lookup t.robots_url rp.cache ≡ none
      → 500 ≤ status
      → (can_crawl compiles parse_seconds
          (some t)
          ua
          true
          delay
          began
          now
          (answered status body)
          rp).0
        ≡ record rp { cache = insert t.robots_url (error_entry now) rp.cache }
  unfolding can_crawl fetch_and_evaluate
  first_error t ua delay began now status body rp h k =
      rw (h, can_crawl, fetch-error began now status _ body k)

  -- After `robots.txt` of a host, not yet cached, was answered with a status of 500 or more, every
  -- path of the host that is empty or begins with a slash is refused until the transient time to
  -- live is over, whatever the server would answer by then, and the parser does not change.
  pub server_error_blocks :
      (t t' : Target) (ua ua' rest : List ℕ) (delay delay' : ℤ) (began now began' now' status : ℕ)
      (body : Option (List ℕ)) (answer : Response) (rp : RobotsParser)
      → lookup t.robots_url rp.cache ≡ none
      → 500 ≤ status
      → t'.robots_url ≡ t.robots_url
      → or_root compiles t'.path ≡ b'/' ∷ rest
      → began' < now + rp.transient_ttl
      → (let rp' =
            (can_crawl compiles parse_seconds
              (some t)
              ua
              true
              delay
              began
              now
              (answered status body)
              rp).0 in
          can_crawl compiles parse_seconds (some t') ua' true delay' began' now' answer rp'
          ≡ (rp', (false, pos 0)))
  unfolding is_fresh
  server_error_blocks t t' ua ua' rest delay delay' began now began' now' status body answer rp h k
        e p l =
      let stored : RobotsParser = record rp {
        cache = insert t.robots_url (error_entry now) rp.cache;
      } in
      let first : (can_crawl compiles parse_seconds (some t) ua true delay began now
            (answered status body) rp).0
          ≡ stored =
        first_error t ua delay began now status body rp h k in
      let found : lookup t'.robots_url stored.cache ≡ some (error_entry now) = rw (
        e,
        lookup-insert t.robots_url t.robots_url (error_entry now) rp.cache,
        eq_refl t.robots_url,
      ) in
      rw first (
        fresh_answers t' (error_entry now) ua' delay' began' now' answer stored found (ground arith)
        ∙ ap (λ r. (stored, r)) (evaluate-error now t'.path rest delay' p))
