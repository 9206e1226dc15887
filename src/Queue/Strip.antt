-- ===== src/Queue/Strip.antt =====
-- internal/queue/params.go and strip.go: which query parameters are dropped. Keys are bytes, their
-- case that of ASCII. A decoded query, which net/url gives, is a list of keys with their values.
use Prim.Native.String.{String}
use omegacrawl.Base.{
  ℕ, ◌≡◌, refl, ap, Bool, true, false, ◌||◌, List, [], ◌∷◌, Option, none, some, if◌then◌else◌,
  arith, Bool-cases, inl, inr,
}
use omegacrawl.Errors.Classify.{codes}
use omegacrawl.Errors.Contains.{bytes_equal, bytes_equal_iff}
use omegacrawl.Robots.Match.{has_prefix}
use omegacrawl.Robots.Parse.{to_lower}

unfoldable pub tracking_params : List String
tracking_params =
    "utm_source" ∷ "utm_medium" ∷ "utm_campaign" ∷ "utm_term" ∷ "utm_content" ∷ "utm_id" ∷ "utm_cid"
    ∷ "utm_reader" ∷ "utm_name" ∷ "utm_social" ∷ "utm_social-type" ∷ "fbclid" ∷ "gclid" ∷ "gclsrc"
    ∷ "dclid" ∷ "gbraid" ∷ "wbraid" ∷ "msclkid" ∷ "twclid" ∷ "li_fat_id" ∷ "mc_cid" ∷ "mc_eid"
    ∷ "_ga" ∷ "_gl" ∷ "oly_anon_id" ∷ "oly_enc_id" ∷ "ref" ∷ "source" ∷ "campaign_id" ∷ "campaign"
    ∷ "medium" ∷ "content" ∷ "keyword" ∷ "affiliate_id" ∷ "click_id" ∷ "fb_action_ids"
    ∷ "fb_action_types" ∷ "fb_ref" ∷ "fb_source" ∷ "hsa_cam" ∷ "hsa_grp" ∷ "hsa_mt" ∷ "hsa_src"
    ∷ "hsa_ad" ∷ "hsa_acc" ∷ "hsa_net" ∷ "hsa_ver" ∷ "hsa_la" ∷ "hsa_ol" ∷ "hsa_kw" ∷ "hsa_tgt"
    ∷ "hsa_bal" ∷ "hsa_bgt" ∷ "hsa_wn" ∷ "hsa_cr" ∷ "hsa_og" ∷ "hsa_mi" ∷ "_kx" ∷ "vero_id"
    ∷ "wickedid" ∷ "yclid" ∷ "__s" ∷ "_hsmi" ∷ "_hsenc" ∷ "si" ∷ "ss" ∷ "spm" ∷ "scm"
    ∷ "pk_campaign" ∷ "pk_kwd" ∷ "pk_source" ∷ "pk_medium" ∷ "pk_content" ∷ "_openstat" ∷ "vov"
    ∷ "vzmid" ∷ "from" ∷ "spm_" ∷ []

unfoldable pub is_listed : List ℕ → List String → Bool
is_listed key [] = false
is_listed key (p ∷ params) = bytes_equal key (codes p) || is_listed key params

unfoldable pub should_strip_param : List ℕ → Bool
should_strip_param key =
    let lower = to_lower key in
    if is_listed lower tracking_params
    then true
    else if has_prefix lower (codes "utm_")
    then true
    else has_prefix lower (codes "_hs")

-- The loop of `sortQueryParams` over the decoded query.
unfoldable pub strip_params : {V : Type 0} → List (List ℕ × V) → List (List ℕ × V)
strip_params [] = []
strip_params ((key, values) ∷ params) =
    let rest = strip_params params in if should_strip_param key then rest else (key, values) ∷ rest

-- `sortQueryParams`: `none` is a query that does not parse; `encode` is `Values.Encode`.
unfoldable pub sort_query_params :
    {V : Type 0}
    → (List ℕ → Option (List (List ℕ × V)))
    → (List (List ℕ × V) → List ℕ)
    → List ℕ
    → List ℕ
sort_query_params parse encode [] = []
sort_query_params parse encode (c ∷ query) = elim (parse (c ∷ query)) [
  | none ↦ c ∷ query
  | some params ↦ elim (strip_params params) [ [] ↦ [] | p ∷ ps ↦ encode (p ∷ ps) ]
]

to_lower_idempotent : (key : List ℕ) → to_lower (to_lower key) ≡ to_lower key
unfolding to_lower
to_lower_idempotent [] = refl
to_lower_idempotent (c ∷ key) = ground (arith, to_lower_idempotent key)

-- Whether a key is dropped does not depend on its case.
pub should_strip_param-to_lower :
    (key : List ℕ) → should_strip_param (to_lower key) ≡ should_strip_param key
unfolding should_strip_param
should_strip_param-to_lower key = rw (to_lower_idempotent key, should_strip_param)

-- The values that a decoded query gives a key.
unfoldable pub values_of : {V : Type 0} → List ℕ → List (List ℕ × V) → Option V
values_of key [] = none
values_of key ((k, v) ∷ params) = if bytes_equal k key then some v else values_of key params

-- Stripping drops the values of the keys to strip and keeps those of every other key.
pub values_of-strip_params :
    {V : Type 0} (key : List ℕ) (params : List (List ℕ × V))
    → values_of key (strip_params params)
      ≡ (if should_strip_param key then none else values_of key params)
unfolding values_of strip_params
values_of-strip_params key [] = ground arith
values_of-strip_params key ((k, v) ∷ params) = elim (Bool-cases (bytes_equal k key)) [
  | inl e ↦
      let same : should_strip_param k ≡ should_strip_param key =
        ap should_strip_param ((bytes_equal_iff k key).0 e) in
      ground (arith, values_of-strip_params key params)
  | inr e ↦ ground (arith, values_of-strip_params key params)
]
