-- ===== src/Config/Accepts.antt =====
-- internal/config/validate.go: which configurations pass, which panic, and that the defaults pass.
use Prim.Native.String.{String}
use text.Mathlib.TextEquality.{eq_iff}
use omegacrawl.Base.{
  ◌≡◌, refl, ◌↔◌, ◌⊎◌, inl, inr, true, List, [], ◌∷◌, Option, none, some, if◌then◌else◌, arith,
  Option-cases,
}
use omegacrawl.Config.Types.{Config, AuthConfig}
use omegacrawl.Config.Default.{default_config}
use omegacrawl.Config.Validate.{
  no_seeds, check_limits, check_auth, check_oauth, check_form, check_basic, check_header,
  check_captcha, check_queue, check_change_detection, validate_secrets, validate, is_nil,
}

-- `Validate` reads a field of a nil pointer: of a missing section, or of the OAuth settings that
-- an enabled "oauth" authentication lacks.
abbrev pub Panics : Config → Type 0
Panics c =
    (c.auth_config ≡ none)
    ⊎ (c.captcha_config ≡ none)
    ⊎ (c.queue_config ≡ none)
    ⊎ ((a : AuthConfig) × (c.auth_config ≡ some a)
        × (a.enabled ≡ true)
        × (a.type ≡ "oauth")
        × (a.oauth_config ≡ none))

check_auth-none :
    (o : Option AuthConfig)
    → check_auth o ≡ none
    → (a : AuthConfig) × (o ≡ some a)
      × (a.enabled ≡ true)
      × (a.type ≡ "oauth")
      × (a.oauth_config ≡ none)
unfolding check_auth check_form check_basic check_header check_oauth
check_auth-none none h = cc
check_auth-none (some a) h =
    (a, refl, ground arith, ground (arith, eq_iff a.type "oauth"), ground arith)

check_auth_panics :
    (a : AuthConfig)
    → a.enabled ≡ true
    → a.type ≡ "oauth"
    → a.oauth_config ≡ none
    → check_auth (some a) ≡ none
unfolding check_auth check_form check_basic check_header check_oauth
check_auth_panics a p q r = ground (arith, eq_iff a.type "oauth")

-- `Validate` panics exactly where the authentication, captcha or queue section is missing, or an
-- enabled "oauth" authentication has no OAuth settings.
pub validate-Panics : (c : Config) → (validate c ≡ none) ↔ Panics c
unfolding validate validate_secrets
validate-Panics c = (
  λ h. elim (Option-cases (check_auth c.auth_config)) [
    | inl e ↦ inr (inr (inr (check_auth-none c.auth_config e)))
    | inr (l, e) ↦ ground arith
  ],
  λ p. elim p [
    | inl e ↦ elim (Option-cases (check_auth c.auth_config)) [
      | inl n ↦ ground arith
      | inr (l, n) ↦ ground arith
    ]
    | inr (inl e) ↦ elim (Option-cases (check_auth c.auth_config)) [
      | inl n ↦ ground arith
      | inr (l, n) ↦ ground arith
    ]
    | inr (inr (inl e)) ↦ elim (Option-cases (check_auth c.auth_config)) [
      | inl n ↦ ground arith
      | inr (l, n) ↦ ground arith
    ]
    | inr (inr (inr (a, e, p, q, r))) ↦ ground (arith, check_auth_panics a p q r)
  ],
)

-- The defaults pass once a seed is given; without one the only message is the missing seed.
pub validate-default_config :
    (seeds : List String)
    → validate (record default_config { seeds = seeds })
      ≡ some (if is_nil seeds then no_seeds ∷ [] else [])
unfolding default_config validate validate_secrets check_limits check_auth check_captcha check_queue
    check_change_detection
validate-default_config [] = refl
validate-default_config (s ∷ seeds) = refl
