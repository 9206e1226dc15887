-- ===== src/Queue/Glob/Examples.antt =====
-- Test data for the patterns, and the theorems applied to it.
use omegacrawl.Base.{◌≡◌, ◌∷◌, ◌++◌, some, arith}
use omegacrawl.Errors.Classify.{codes}
use omegacrawl.Errors.Contains.{bytes_equal}
use omegacrawl.Queue.Glob.{glob_match}
use omegacrawl.Queue.Glob.Literal.{glob_match-prefix}

glob_match-prefix_example :
    glob_match ((47 ∷ codes "api/") ++ codes "**") (codes "/api/users")
    ≡ some (bytes_equal (47 ∷ codes "api/") (codes "/api/users"))
glob_match-prefix_example = glob_match-prefix 47 (codes "api/") (codes "/api/users") (ground arith)
