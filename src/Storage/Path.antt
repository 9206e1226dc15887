-- ===== src/Storage/Path.antt =====
-- internal/storage/path.go: the local path of a URL. `parse` is net/url's `Parse`, with the host name,
-- the path and the raw query of a URL, and `unescape` its `PathUnescape`.
use omegacrawl.Base.{
  ℕ, Bool, true, false, not, ◌&&◌, ◌||◌, List, [], ◌∷◌, ◌++◌, Option, none, some, ◌==◌,
  if◌then◌else◌,
}
use omegacrawl.Errors.Classify.{codes}
use omegacrawl.Errors.Contains.{bytes_equal, contains}
use omegacrawl.Robots.Match.{has_prefix}
use omegacrawl.Storage.Clean.{
  dot_dot, is_empty, clean, join_paths, has_suffix, trim_suffix, base_name, has_byte, ext,
  replace_byte,
}
pub mod Parts
pub mod Within
pub mod Blocked
mod Examples

pub record ParsedUrl : Type 0 where
  pub hostname : List ℕ
  pub path : List ℕ
  pub raw_query : List ℕ

abbrev or_else : List ℕ → List ℕ → List ℕ
or_else [] fallback = fallback
or_else (c ∷ s) fallback = c ∷ s

-- The host's directory.
unfoldable pub host_dir : ParsedUrl → List ℕ
host_dir u = or_else u.hostname (codes "_unknown")

-- `strings.TrimPrefix(s, "/")`
abbrev without_slash : List ℕ → List ℕ
without_slash [] = []
without_slash (c ∷ s) = if c == 47 then s else c ∷ s

-- The path with a name for the index of a directory.
unfoldable pub with_index : (List ℕ → Option (List ℕ)) → List ℕ → List ℕ
with_index unescape path =
    let clean_path =
      if is_empty path || bytes_equal path (codes "/") then codes "/index.html" else path in
    let plain : List ℕ = elim (unescape clean_path) [ none ↦ clean_path | some d ↦ d ] in
    let full = if has_suffix plain (codes "/") then plain ++ codes "index.html" else plain in
    let decoded = without_slash full in
    if has_byte 46 (base_name decoded) then decoded else decoded ++ codes "/index.html"

unfoldable pub safe_query : List ℕ → List ℕ
safe_query q =
    replace_byte 38 95
      (replace_byte 63 95 (replace_byte 58 95 (replace_byte 92 95 (replace_byte 47 95 q))))

-- The file below the host's directory.
unfoldable pub file_name : (List ℕ → Option (List ℕ)) → ParsedUrl → List ℕ
unfolding with_index safe_query
file_name unescape u =
    let named = with_index unescape u.path in
    let decoded = if contains named dot_dot then codes "_safe_path" else named in
    if is_empty u.raw_query
    then decoded
    else trim_suffix decoded (ext decoded) ++ codes "_" ++ safe_query u.raw_query ++ ext decoded

-- `cleanOutput`
unfoldable pub clean_output : List ℕ → List ℕ
clean_output output_dir = clean output_dir ++ codes "/"

-- The cleaned path lies below the output directory.
unfoldable pub is_below : List ℕ → List ℕ → Bool
unfolding clean_output
is_below output_dir path = has_prefix (clean path) (clean_output output_dir)

unfoldable pub guarded : List ℕ → List ℕ → List ℕ → List ℕ
unfolding is_below
guarded output_dir host resolved =
    if is_below output_dir resolved
    then resolved
    else join_paths (output_dir ∷ host ∷ codes "_blocked" ∷ [])

module _ (parse : List ℕ → Option ParsedUrl) (unescape : List ℕ → Option (List ℕ)) where
  -- `PathForURL`
  unfoldable pub path_for_url : List ℕ → List ℕ → List ℕ
  unfolding host_dir file_name guarded
  path_for_url output_dir raw_url = elim (parse raw_url) [
    | none ↦ join_paths (output_dir ∷ codes "unknown" ∷ [])
    | some u ↦
        guarded output_dir (host_dir u)
          (join_paths (output_dir ∷ host_dir u ∷ file_name unescape u ∷ []))
  ]

  -- `PathForAPI`; an empty path is a URL that is not mapped.
  unfoldable pub path_for_api : List ℕ → List ℕ → List ℕ
  unfolding is_below
  path_for_api output_dir raw_url = elim (parse raw_url) [
    | none ↦ []
    | some u ↦
        let clean_path = without_slash u.path in
        let joined = join_paths (output_dir ∷ clean_path ∷ []) in
        let resolved =
          if has_suffix clean_path (codes "/") || is_empty (ext clean_path)
          then joined ++ codes ".json"
          else joined in
        if is_empty u.path || bytes_equal u.path (codes "/")
        then []
        else if contains clean_path dot_dot
        then []
        else if is_below output_dir resolved
        then resolved
        else []
  ]
