-- ===== src/Config/Conditions.antt =====
-- internal/config/validate.go: the conditions that a configuration must meet, stated on their own.
use omegacrawl.Base.{◌≤◌, ◌<◌, ◌≡◌, ◌≢◌, ◌⊎◌, true, false, [], Option, none, some, ◌+◌}
use omegacrawl.Base.Int.{ℤ, pos_part, neg_part}
use omegacrawl.Config.Types.{
  Config, AuthConfig, CaptchaConfig, QueueConfig, ChangeDetectionConfig, BasicAuthConfig,
  HeaderAuthConfig, OAuthConfig,
}

abbrev pub IsPositive : ℤ → Type 0
IsPositive n = 0 < pos_part n

abbrev pub IsNonNegative : ℤ → Type 0
IsNonNegative n = neg_part n ≡ 0

abbrev pub Present {ℓ} : {A : Type ℓ} → Option A → Type ℓ
Present o = o ≢ none

pub record LimitsOk (c : Config) : Type 0 where
  pub seeds : c.manual_capture ≡ false → c.seeds ≢ []
  pub max_depth : c.manual_capture ≡ false → IsPositive c.max_depth
  pub max_concurrent_pages : IsPositive c.max_concurrent_pages
  pub page_timeout : IsPositive c.page_timeout
  pub infinite_scroll : Present c.infinite_scroll
  pub crawl_delay : IsNonNegative c.crawl_delay
  pub max_urls_per_host : c.manual_capture ≡ false → IsPositive c.max_urls_per_host
  pub max_total_urls : c.manual_capture ≡ false → IsPositive c.max_total_urls
  pub checkpoint_interval : IsNonNegative c.checkpoint_interval
  pub min_disk_space : IsNonNegative c.min_disk_space
  pub wait :
      pos_part c.wait_timeout + neg_part c.wait_strategy_timeout
      ≤ pos_part c.wait_strategy_timeout + neg_part c.wait_timeout

abbrev pub BasicOk : Option BasicAuthConfig → Type 0
BasicOk none = ⊥
BasicOk (some b) = (b.username ≢ "") × (b.password ≢ "")

abbrev pub HeaderOk : Option HeaderAuthConfig → Type 0
HeaderOk none = ⊥
HeaderOk (some h) = h.headers ≢ []

abbrev pub OAuthOk : Option OAuthConfig → Type 0
OAuthOk none = ⊥
OAuthOk (some o) = (o.client_id ≢ "") × (o.client_secret ≢ "") × (o.token_url ≢ "")

pub record AuthOk (a : AuthConfig) : Type 0 where
  pub form : a.type ≡ "form" → (a.login_url ≢ "") × (a.username ≢ "") × (a.password ≢ "")
  pub basic : a.type ≡ "basic" → BasicOk a.basic_auth
  pub header : a.type ≡ "header" → HeaderOk a.header_auth
  pub oauth : a.type ≡ "oauth" → OAuthOk a.oauth_config

abbrev pub AuthSectionOk : Option AuthConfig → Type 0
AuthSectionOk none = Unit
AuthSectionOk (some a) = a.enabled ≡ true → AuthOk a

abbrev pub CaptchaOk : Option CaptchaConfig → Type 0
CaptchaOk none = Unit
CaptchaOk (some c) = c.enabled ≡ true → (c.api_key ≢ "") × (c.provider ≢ "") × IsPositive c.timeout

abbrev pub QueueOk : Option QueueConfig → Type 0
QueueOk none = Unit
QueueOk (some q) =
    ((q.backend ≡ "redis") × (q.redis_url ≢ ""))
    ⊎ ((q.backend ≡ "postgres") × (q.pg_dsn ≢ ""))
    ⊎ ((q.backend ≡ "kafka") × (q.kafka_url ≢ ""))
    ⊎ (q.backend ≡ "local")
    ⊎ (q.backend ≡ "")

abbrev pub ChangesOk : Option ChangeDetectionConfig → Type 0
ChangesOk none = Unit
ChangesOk (some d) = d.enabled ≡ true → IsPositive d.max_snapshots

-- The conditions under which `Validate` returns nil.
pub record IsAcceptable (c : Config) : Type 0 where
  pub limits : LimitsOk c
  pub auth : AuthSectionOk c.auth_config
  pub captcha : CaptchaOk c.captcha_config
  pub queue : QueueOk c.queue_config
  pub changes : ChangesOk c.change_detection_config
  pub sections : Present c.auth_config × Present c.captcha_config × Present c.queue_config
