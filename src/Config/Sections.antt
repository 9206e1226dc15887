-- ===== src/Config/Sections.antt =====
-- internal/config/validate.go: each section reports nothing exactly when its conditions hold.
use text.Mathlib.Text.{◌==◌}
use text.Mathlib.TextEquality.{eq_iff}
use omegacrawl.Base.{
  ◌≡◌, ◌≢◌, refl, ◌↔◌, Bool, true, false, List, [], ◌∷◌, ◌++◌, Option, none, some, if◌then◌else◌,
  arith,
}
use omegacrawl.Base.Int.{ℤ, not_positive, is_negative}
use omegacrawl.Config.Types.{
  AuthConfig, CaptchaConfig, QueueConfig, ChangeDetectionConfig, BasicAuthConfig, HeaderAuthConfig,
  OAuthConfig,
}
use omegacrawl.Config.Validate.{
  Problem, Outcome, report_if, check_auth, check_form, check_basic, check_header, check_oauth,
  check_captcha, check_queue, check_change_detection, ◌andalso◌,
}
use omegacrawl.Config.Conditions.{
  IsPositive, IsNonNegative, BasicOk, HeaderOk, OAuthOk, AuthOk, AuthSectionOk, CaptchaOk, QueueOk,
  ChangesOk,
}

report_if-nil :
    (b : Bool) (p : Problem) (r : List Problem)
    → (report_if b p ++ r ≡ []) ↔ ((b ≡ false) × (r ≡ []))
report_if-nil b p r = ground arith

IsPositive-iff : (n : ℤ) → (not_positive n ≡ false) ↔ IsPositive n
IsPositive-iff n = ground arith

nonnegative_iff : (n : ℤ) → (is_negative n ≡ false) ↔ IsNonNegative n
nonnegative_iff n = ground arith

pub check_captcha_iff : (o : Option CaptchaConfig) → (check_captcha o ≡ []) ↔ CaptchaOk o
unfolding check_captcha
check_captcha_iff none = (λ h. tt, λ h. refl)
check_captcha_iff (some c) = ground (arith, eq_iff c.api_key "", eq_iff c.provider "")

pub check_changes_iff :
    (o : Option ChangeDetectionConfig) → (check_change_detection o ≡ []) ↔ ChangesOk o
unfolding check_change_detection
check_changes_iff none = (λ h. tt, λ h. refl)
check_changes_iff (some c) = ground arith

pub check_queue_iff : (o : Option QueueConfig) → (check_queue o ≡ []) ↔ QueueOk o
unfolding check_queue
check_queue_iff none = (λ h. tt, λ h. refl)
check_queue_iff (some q) = ground (
  arith,
  eq_iff q.backend "redis",
  eq_iff q.backend "postgres",
  eq_iff q.backend "kafka",
  eq_iff q.backend "local",
  eq_iff q.backend "",
  eq_iff q.redis_url "",
  eq_iff q.pg_dsn "",
  eq_iff q.kafka_url "",
  eq_iff "redis" "postgres",
  eq_iff "redis" "kafka",
  eq_iff "redis" "local",
  eq_iff "redis" "",
  eq_iff "postgres" "kafka",
  eq_iff "postgres" "local",
  eq_iff "postgres" "",
  eq_iff "kafka" "local",
  eq_iff "kafka" "",
  eq_iff "local" "",
)

check_form_iff :
    (a : AuthConfig)
    → (check_form a ≡ []) ↔ ((a.login_url ≢ "") × (a.username ≢ "") × (a.password ≢ ""))
unfolding check_form
check_form_iff a = ground (arith, eq_iff a.login_url "", eq_iff a.username "", eq_iff a.password "")

check_basic_iff : (o : Option BasicAuthConfig) → (check_basic o ≡ []) ↔ BasicOk o
unfolding check_basic
check_basic_iff none = ground arith
check_basic_iff (some b) = ground (arith, eq_iff b.username "", eq_iff b.password "")

check_header_iff : (o : Option HeaderAuthConfig) → (check_header o ≡ []) ↔ HeaderOk o
unfolding check_header
check_header_iff none = ground arith
check_header_iff (some h) = ground arith

check_oauth_iff : (o : Option OAuthConfig) → (check_oauth o ≡ some []) ↔ OAuthOk o
unfolding check_oauth
check_oauth_iff none = ground arith
check_oauth_iff (some o) =
    ground (arith, eq_iff o.client_id "", eq_iff o.client_secret "", eq_iff o.token_url "")

pub append-nil_iff : (xs ys : List Problem) → (xs ++ ys ≡ []) ↔ ((xs ≡ []) × (ys ≡ []))
append-nil_iff [] ys = ground arith
append-nil_iff (x ∷ xs) ys = ground arith

-- An empty joined result, part by part.
joined-nil :
    (a b c : List Problem) (o : Outcome)
    → (((some a andalso some b andalso some c) andalso o) ≡ some [])
      ↔ ((a ≡ []) × (b ≡ []) × (c ≡ []) × (o ≡ some []))
joined-nil a b c none = ground arith
joined-nil a b c (some d) =
    ground (arith, append-nil_iff a b, append-nil_iff (a ++ b) c, append-nil_iff ((a ++ b) ++ c) d)

if-nil : (b : Bool) (l : List Problem) → ((if b then l else []) ≡ []) ↔ (b ≡ true → l ≡ [])
if-nil b l = ground arith

if-some-nil :
    (b : Bool) (o : Outcome) → ((if b then o else some []) ≡ some []) ↔ (b ≡ true → o ≡ some [])
if-some-nil b o = ground arith

enabled_iff :
    (a : AuthConfig)
    → ((some (if a.type == "form" then check_form a else [])
          andalso some (if a.type == "basic" then check_basic a.basic_auth else [])
          andalso some (if a.type == "header" then check_header a.header_auth else [])
          andalso (if a.type == "oauth" then check_oauth a.oauth_config else some []))
        ≡ some [])
      ↔ AuthOk a
enabled_iff a = (
  λ h.
      let (f, b, hd, o) = (joined-nil _ _ _ _).0 h in
      record {
        form = λ t. (check_form_iff a).0 ((if-nil _ _).0 f ((eq_iff a.type "form").1 t));
        basic =
            λ t. (check_basic_iff a.basic_auth).0 ((if-nil _ _).0 b ((eq_iff a.type "basic").1 t));
        header = λ t.
            (check_header_iff a.header_auth).0 ((if-nil _ _).0 hd ((eq_iff a.type "header").1 t));
        oauth = λ t.
            (check_oauth_iff a.oauth_config).0
              ((if-some-nil _ _).0 o ((eq_iff a.type "oauth").1 t));
      },
  λ v. (joined-nil _ _ _ _).1 (
    (if-nil _ _).1 (λ t. (check_form_iff a).1 (v.form ((eq_iff a.type "form").0 t))),
    (if-nil _ _).1 (λ t. (check_basic_iff a.basic_auth).1 (v.basic ((eq_iff a.type "basic").0 t))),
    (if-nil _ _).1
        (λ t. (check_header_iff a.header_auth).1 (v.header ((eq_iff a.type "header").0 t))),
    (if-some-nil _ _).1
        (λ t. (check_oauth_iff a.oauth_config).1 (v.oauth ((eq_iff a.type "oauth").0 t))),
  ),
)

pub check_auth_iff : (o : Option AuthConfig) → (check_auth o ≡ some []) ↔ AuthSectionOk o
unfolding check_auth
check_auth_iff none = (λ h. tt, λ h. refl)
check_auth_iff (some a) = (
  λ h e. (enabled_iff a).0 ((if-some-nil a.enabled _).0 h e),
  λ v. (if-some-nil a.enabled _).1 (λ e. (enabled_iff a).1 (v e)),
)
