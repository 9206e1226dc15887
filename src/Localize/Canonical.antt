-- ===== src/Localize/Canonical.antt =====
-- internal/localize/canonical.go: which page URLs show the same document. Texts are their bytes, with
-- the case and the white space of ASCII. A parsed URL is its path and its raw query; `parse`,
-- `print` and `unescape` are net/url's `Parse`, `URL.String` and `QueryUnescape`.
use Prim.Native.String.{String}
use omegacrawl.Base.{
  ℕ, ◌+◌, ◌*◌, ◌-◌, Bool, true, false, not, ◌&&◌, ◌||◌, List, [], ◌∷◌, ◌++◌, Option, none, some,
  leb, ◌==◌, if◌then◌else◌,
}
use omegacrawl.Errors.Classify.{codes}
use omegacrawl.Errors.Contains.{bytes_equal, contains}
use omegacrawl.Robots.Match.{has_prefix}
use omegacrawl.Robots.Parse.{trim_space, to_lower}
use omegacrawl.Queue.Strip.{is_listed}
pub mod Split
pub mod Noise
mod Examples

unfoldable pub query_drop_params : List String
query_drop_params =
    "paged" ∷ "page" ∷ "replytocom" ∷ "add-to-cart" ∷ "added-to-cart" ∷ "remove_item"
    ∷ "download_item" ∷ "wc-ajax" ∷ "preview" ∷ "no_reply" ∷ "amp" ∷ "consumer_key" ∷ "nonce"
    ∷ "utm_source" ∷ "utm_medium" ∷ "utm_campaign" ∷ "utm_term" ∷ "utm_content" ∷ "gclid" ∷ "fbclid"
    ∷ "msclkid" ∷ "ref" ∷ "source" ∷ "session_id" ∷ "s_id" ∷ []

unfoldable pub path_drop_segment_suffix : List String
path_drop_segment_suffix = "page" ∷ "paged" ∷ "comment-page" ∷ []

unfoldable pub noise_path_prefixes : List String
noise_path_prefixes =
    "/wp-json" ∷ "/rest/" ∷ "/wp-admin" ∷ "/wp-login" ∷ "/wp-cron" ∷ "/wp-includes/" ∷ "/xmlrpc"
    ∷ "/feed" ∷ "/cart" ∷ "/checkout" ∷ "/my-account" ∷ "/wc-api" ∷ "/wc-ajax" ∷ "/addons"
    ∷ "/robots.txt" ∷ "/sitemap" ∷ "/wp-sitemap" ∷ "/oembed/" ∷ "/.well-known" ∷ "/feed/" ∷ []

-- `canonicalizer`: the sets of preserved query parameters and path segments.
pub record Canonicalizer : Type 0 where
  pub preserve_query_params : List (List ℕ)
  pub preserve_path_segments : List (List ℕ)

abbrev pub has : List ℕ → List (List ℕ) → Bool
has k [] = false
has k (x ∷ xs) = bytes_equal k x || has k xs

abbrev is_empty : List ℕ → Bool
is_empty [] = true
is_empty (c ∷ s) = false

unfoldable pub preserved : List (List ℕ) → List (List ℕ)
preserved [] = []
preserved (k ∷ ks) =
    let rest = preserved ks in
    let l = to_lower (trim_space k) in if is_empty l then rest else l ∷ rest

unfoldable pub new_canonicalizer : List (List ℕ) → List (List ℕ) → Canonicalizer
unfolding preserved
new_canonicalizer query_params path_segments = record {
  preserve_query_params = preserved query_params;
  preserve_path_segments = preserved path_segments;
}

-- `strings.Split` at one byte, and `strings.Join` with it.
unfoldable pub split : ℕ → List ℕ → List (List ℕ)
split sep [] = [] ∷ []
split sep (c ∷ s) = elim (split sep s) [
  | [] ↦ []
  | p ∷ ps ↦ if c == sep then [] ∷ p ∷ ps else (c ∷ p) ∷ ps
]

unfoldable pub join : ℕ → List (List ℕ) → List ℕ
join sep [] = []
join sep (p ∷ []) = p
join sep (p ∷ q ∷ ps) = p ++ sep ∷ join sep (q ∷ ps)

-- `strings.Trim(s, "/")`
unfoldable pub trim_left_slashes : List ℕ → List ℕ
trim_left_slashes [] = []
trim_left_slashes (c ∷ s) = let rest = trim_left_slashes s in if c == 47 then rest else c ∷ s

unfoldable pub trim_right_slashes : List ℕ → List ℕ
trim_right_slashes [] = []
trim_right_slashes (c ∷ s) =
    let rest = trim_right_slashes s in if c == 47 && is_empty rest then [] else c ∷ rest

-- `strconv.ParseInt(s, 10, 64)` succeeds.
unfoldable pub digits_from : ℕ → List ℕ → Option ℕ
digits_from n [] = some n
digits_from n (c ∷ s) =
    let rest = digits_from (n * 10 + (c - 48)) s in if leb 48 c && leb c 57 then rest else none

unfoldable pub fits : ℕ → List ℕ → Bool
unfolding digits_from
fits bound [] = false
fits bound (c ∷ s) = elim (digits_from 0 (c ∷ s)) [ none ↦ false | some n ↦ leb n bound ]

unfoldable pub is_int : List ℕ → Bool
unfolding fits
is_int [] = false
is_int (c ∷ s) =
    if c == 45
    then fits 9223372036854775808 s
    else if c == 43
    then fits 9223372036854775807 s
    else fits 9223372036854775807 (c ∷ s)

-- Whether the lowered segment is one of the pagination markers, or such a marker with a suffix.
unfoldable pub is_marker : List ℕ → List String → Bool
is_marker l [] = false
is_marker l (pref ∷ prefs) =
    bytes_equal l (codes pref)
    || has_prefix l (codes pref ++ codes "-")
    || has_prefix l (codes pref ++ codes "_")
    || is_marker l prefs

unfoldable pub is_drop_segment : Canonicalizer → List ℕ → List ℕ → Bool
is_drop_segment c s prev =
    let l = to_lower (trim_space s) in
    let pl = to_lower (trim_space prev) in
    if is_empty l
    then false
    else if has l c.preserve_path_segments || has pl c.preserve_path_segments
    then false
    else if bytes_equal l (codes "page") || bytes_equal l (codes "paged")
    then true
    else if is_marker l path_drop_segment_suffix
    then true
    else is_int l && is_marker pl path_drop_segment_suffix

-- The loop of `canonicalKey` over the path's segments.
unfoldable pub kept_segments : Canonicalizer → List ℕ → List (List ℕ) → List (List ℕ)
unfolding is_drop_segment
kept_segments c prev [] = []
kept_segments c prev (s ∷ segs) =
    let rest = kept_segments c s segs in if is_drop_segment c s prev then rest else s ∷ rest

-- The part before `=`.
unfoldable pub key_of_part : List ℕ → List ℕ
key_of_part [] = []
key_of_part (c ∷ s) = let rest = key_of_part s in if c == 61 then [] else c ∷ rest

module _ (unescape : List ℕ → List ℕ) where
  -- Whether the loop of `stripDropQuery` keeps a part of the query.
  unfoldable pub keeps_part : Canonicalizer → List ℕ → Bool
  unfolding key_of_part
  keeps_part c p =
      let lk = to_lower (unescape (key_of_part p)) in
      if has lk c.preserve_query_params
      then true
      else if is_listed lk query_drop_params
      then false
      else not (has_prefix lk (codes "utm_"))

  unfoldable pub kept_parts : Canonicalizer → List (List ℕ) → List (List ℕ)
  unfolding keeps_part
  kept_parts c [] = []
  kept_parts c (p ∷ ps) = let rest = kept_parts c ps in if keeps_part c p then p ∷ rest else rest

  unfoldable pub strip_drop_query : Canonicalizer → List ℕ → List ℕ
  unfolding kept_parts split join
  strip_drop_query c [] = []
  strip_drop_query c (b ∷ raw) = join 38 (kept_parts c (split 38 (b ∷ raw)))

  -- `canonicalKey`: `print` writes the URL with another path and query.
  unfoldable pub canonical_key :
      (List ℕ → Option (List ℕ × List ℕ))
      → (List ℕ → List ℕ → List ℕ → List ℕ)
      → Canonicalizer
      → List ℕ
      → List ℕ
  unfolding strip_drop_query kept_segments trim_left_slashes trim_right_slashes
  canonical_key parse print c raw_url = elim (parse raw_url) [
    | none ↦ raw_url
    | some (path, query) ↦
        let segs = split 47 (trim_right_slashes (trim_left_slashes path)) in
        print raw_url (47 ∷ join 47 (kept_segments c [] segs)) (strip_drop_query c query)
  ]

unfoldable pub starts_with_one : List ℕ → List String → Bool
starts_with_one s [] = false
starts_with_one s (p ∷ ps) = has_prefix s (codes p) || starts_with_one s ps

module _ (parse : List ℕ → Option (List ℕ × List ℕ)) where
  unfoldable pub is_noise_path : List ℕ → Bool
  unfolding starts_with_one
  is_noise_path raw_url = elim (parse raw_url) [
    | none ↦ false
    | some (path, query) ↦ starts_with_one (to_lower path) noise_path_prefixes
  ]

  -- `cleanWeight`; `none` is the panic on a URL that does not parse.
  unfoldable pub clean_weight : List ℕ → Option ℕ
  clean_weight raw_url = elim (parse raw_url) [
    | none ↦ none
    | some (path, query) ↦ some (
        (if is_empty query then 0 else 10)
        + (if contains path (codes "/page/") || contains path (codes "/comment-page")
            then 5
            else 0))
  ]
