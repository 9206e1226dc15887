-- ===== src/Config/Validate.antt =====
-- internal/config/validate.go: `Validate`. The result is the list of the messages that are joined
-- into the error (nil if there is none), or the panic of a nil pointer that is read.
use Prim.Native.String.{String}
use text.Mathlib.Text.{◌==◌}
use omegacrawl.Base.{
  Bool, true, false, not, ◌&&◌, ◌||◌, List, [], ◌∷◌, ◌++◌, Option, none, some, if◌then◌else◌,
}
use omegacrawl.Base.Int.{not_positive, is_negative, int_ltb}
use omegacrawl.Config.Types.{
  Config, AuthConfig, CaptchaConfig, QueueConfig, ChangeDetectionConfig, BasicAuthConfig,
  HeaderAuthConfig, OAuthConfig,
}

pub data Problem : Type 0 where
  no_seeds bad_max_depth bad_max_concurrent_pages bad_page_timeout no_infinite_scroll : Problem
  bad_crawl_delay bad_max_urls_per_host bad_max_total_urls bad_checkpoint_interval : Problem
  bad_min_disk_space bad_wait_strategy_timeout : Problem
  form_login_url form_credentials basic_credentials header_missing : Problem
  oauth_missing oauth_client oauth_token_url : Problem
  captcha_api_key captcha_provider captcha_timeout : Problem
  redis_url_missing pg_dsn_missing kafka_url_missing : Problem
  unknown_backend : String → Problem
  bad_max_snapshots : Problem

-- `none` is a panic.
abbrev pub Outcome : Type 0
Outcome = Option (List Problem)

infixl 5 ◌andalso◌
-- The checks of the left, then those of the right.
abbrev pub ◌andalso◌ : Outcome → Outcome → Outcome
none andalso o = none
some e andalso none = none
some e andalso some e' = some (e ++ e')

-- `if b { addErr(...) }`
abbrev pub report_if : Bool → Problem → List Problem
report_if b p = if b then p ∷ [] else []

abbrev pub is_empty : String → Bool
is_empty s = s == ""

abbrev pub is_nil {ℓ} : {A : Type ℓ} → List A → Bool
is_nil [] = true
is_nil (x ∷ xs) = false

abbrev pub is_none {ℓ} : {A : Type ℓ} → Option A → Bool
is_none none = true
is_none (some x) = false

-- The checks up to the one of `WaitStrategyTimeout`.
unfoldable pub check_limits : Config → List Problem
check_limits c =
    report_if (not c.manual_capture && is_nil c.seeds) no_seeds
    ++ (report_if (not c.manual_capture && not_positive c.max_depth) bad_max_depth
        ++ (report_if (not_positive c.max_concurrent_pages) bad_max_concurrent_pages
            ++ (report_if (not_positive c.page_timeout) bad_page_timeout
                ++ (report_if (is_none c.infinite_scroll) no_infinite_scroll
                    ++ (report_if (is_negative c.crawl_delay) bad_crawl_delay
                        ++ (report_if (not c.manual_capture && not_positive c.max_urls_per_host)
                              bad_max_urls_per_host
                            ++ (report_if (not c.manual_capture && not_positive c.max_total_urls)
                                  bad_max_total_urls
                                ++ (report_if (is_negative c.checkpoint_interval)
                                      bad_checkpoint_interval
                                    ++ (report_if (is_negative c.min_disk_space) bad_min_disk_space
                                        ++ report_if
                                            (int_ltb c.wait_strategy_timeout c.wait_timeout)
                                            bad_wait_strategy_timeout)))))))))

unfoldable pub check_form : AuthConfig → List Problem
check_form a =
    report_if (is_empty a.login_url) form_login_url
    ++ report_if (is_empty a.username || is_empty a.password) form_credentials

unfoldable pub check_basic : Option BasicAuthConfig → List Problem
check_basic none = basic_credentials ∷ []
check_basic (some b) = report_if (is_empty b.username || is_empty b.password) basic_credentials

unfoldable pub check_header : Option HeaderAuthConfig → List Problem
check_header none = header_missing ∷ []
check_header (some h) = report_if (is_nil h.headers) header_missing

-- With no OAuth configuration a message is added, and then a field of nil is read.
unfoldable pub check_oauth : Option OAuthConfig → Outcome
check_oauth none = none
check_oauth (some o) = some (
    report_if (is_empty o.client_id || is_empty o.client_secret) oauth_client
    ++ report_if (is_empty o.token_url) oauth_token_url)

unfoldable pub check_auth : Option AuthConfig → Outcome
check_auth none = some []
check_auth (some a) =
    if a.enabled
    then some (if a.type == "form" then check_form a else [])
      andalso some (if a.type == "basic" then check_basic a.basic_auth else [])
      andalso some (if a.type == "header" then check_header a.header_auth else [])
      andalso (if a.type == "oauth" then check_oauth a.oauth_config else some [])
    else some []

unfoldable pub check_captcha : Option CaptchaConfig → List Problem
check_captcha none = []
check_captcha (some cc) =
    if cc.enabled
    then report_if (is_empty cc.api_key) captcha_api_key
      ++ (report_if (is_empty cc.provider) captcha_provider
          ++ report_if (not_positive cc.timeout) captcha_timeout)
    else []

unfoldable pub check_queue : Option QueueConfig → List Problem
check_queue none = []
check_queue (some q) =
    if q.backend == "redis"
    then report_if (is_empty q.redis_url) redis_url_missing
    else if q.backend == "postgres"
    then report_if (is_empty q.pg_dsn) pg_dsn_missing
    else if q.backend == "kafka"
    then report_if (is_empty q.kafka_url) kafka_url_missing
    else if q.backend == "local" || q.backend == ""
    then []
    else unknown_backend q.backend ∷ []

unfoldable pub check_change_detection : Option ChangeDetectionConfig → List Problem
check_change_detection none = []
check_change_detection (some cd) =
    if cd.enabled then report_if (not_positive cd.max_snapshots) bad_max_snapshots else []

-- `validateSecrets` reads fields of the three pointers first and never returns an error: what it
-- computes besides is dropped.
unfoldable pub validate_secrets : Config → Outcome
validate_secrets c =
    if is_none c.auth_config || (is_none c.captcha_config || is_none c.queue_config)
    then none
    else some []

unfoldable pub validate : Config → Outcome
validate c =
    some (check_limits c)
    andalso check_auth c.auth_config
    andalso some (check_captcha c.captcha_config)
    andalso some (check_queue c.queue_config)
    andalso some (check_change_detection c.change_detection_config)
    andalso validate_secrets c
