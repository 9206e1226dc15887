-- ===== src/Storage/Path/Examples.antt =====
-- The paths of URLs, at concrete output directories, and tests.
use omegacrawl.Base.{ℕ, ◌≡◌, refl, List, [], ◌∷◌, Option, some, arith}
use omegacrawl.Errors.Classify.{codes}
use omegacrawl.Errors.Contains.{bytes_equal, contains}
use omegacrawl.Localize.Canonical.{split, join}
use omegacrawl.Robots.Match.{has_prefix}
use omegacrawl.Storage.Clean.{
  clean, join_paths, ext, trim_suffix, base_name, has_suffix, has_byte, replace_byte,
}
use omegacrawl.Storage.Clean.Idempotent.{clean_idempotent}
use omegacrawl.Storage.Path.{ParsedUrl, host_dir, path_for_url, path_for_api}
use omegacrawl.Storage.Path.Within.{IsNamed, LiesBelow, path_for_url-LiesBelow}
use omegacrawl.Storage.Path.Blocked.{path_for_url_blocked}

-- A parser of one URL, and an escape that is the identity.
abbrev parsed : List ℕ → List ℕ → List ℕ → List ℕ → Option ParsedUrl
parsed host path query raw_url = some (record { hostname = host; path = path; raw_query = query })

abbrev plain : List ℕ → Option (List ℕ)
plain s = some s

clean_test : clean (codes "a/./b//../../../c") ≡ codes "../c"
unfolding clean split bytes_equal join
clean_test = refl

clean_idempotent_example : clean (clean (codes "/a/../..//b/.")) ≡ clean (codes "/a/../..//b/.")
clean_idempotent_example = clean_idempotent (codes "/a/../..//b/.")

path_for_url_test :
    path_for_url (parsed (codes "h") (codes "/a/b/") (codes "q=1/2")) plain (codes "out") []
    ≡ codes "out/h/a/b/index_q=1_2.html"
unfolding path_for_url clean split join bytes_equal contains has_prefix join_paths trim_suffix
    has_byte base_name has_suffix ext replace_byte
path_for_url_test = refl

path_for_api_test :
    path_for_api (parsed (codes "h") (codes "/api/items") []) plain (codes "out") []
    ≡ codes "out/api/items.json"
unfolding path_for_api clean split join bytes_equal contains has_prefix join_paths ext has_suffix
path_for_api_test = refl

-- Two URLs with the same host, path and changed query have one path.
collision_test :
    path_for_url (parsed (codes "h") (codes "/a") (codes "x=/")) plain (codes "out") []
    ≡ path_for_url (parsed (codes "h") (codes "/a") (codes "x=:")) plain (codes "out") []
unfolding path_for_url clean split join bytes_equal contains has_prefix join_paths trim_suffix
    replace_byte
collision_test = refl

-- A host that is the parent directory: the path refused is written outside the output directory.
escape_test :
    path_for_url (parsed (codes "..") (codes "/x") []) plain (codes "data/out") []
    ≡ codes "data/_blocked"
unfolding path_for_url clean split join bytes_equal contains has_prefix join_paths has_byte
    base_name has_suffix
escape_test = refl

out-IsNamed : IsNamed (codes "./out/")
unfolding clean split bytes_equal join
out-IsNamed = record { not_current = λ e. ground arith; not_root = λ e. ground arith }

path_for_url-LiesBelow_example : LiesBelow (codes "./out/") (codes "h") (
    path_for_url
      (parsed (codes "h") (codes "/../../etc/passwd") [])
      plain
      (codes "./out/")
      (codes "http://h/"))
unfolding host_dir bytes_equal
path_for_url-LiesBelow_example =
    path_for_url-LiesBelow (parsed (codes "h") (codes "/../../etc/passwd") []) plain
      (codes "./out/") (codes "http://h/")
      (record { hostname = codes "h"; path = codes "/../../etc/passwd"; raw_query = [] }) refl
      out-IsNamed (record { no_slash = omega arith; no_dot = refl; no_parent = refl })

path_for_url_blocked_example :
    path_for_url
      (parsed (codes "h") (codes "/a.html") [])
      plain
      (codes "./")
      (codes "http://h/a.html")
    ≡ join_paths (codes "./" ∷ codes "h" ∷ codes "_blocked" ∷ [])
unfolding clean split bytes_equal host_dir join
path_for_url_blocked_example =
    path_for_url_blocked (parsed (codes "h") (codes "/a.html") []) plain (codes "./")
      (codes "http://h/a.html")
      (record { hostname = codes "h"; path = codes "/a.html"; raw_query = [] }) refl refl
