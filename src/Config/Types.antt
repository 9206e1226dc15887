-- ===== src/Config/Types.antt =====
-- internal/config/types.go (and `SMTPConfig` of internal/notify/notify.go): the configuration, field
-- by field. A pointer that may be nil is an option; durations are nanoseconds.
use Prim.Native.String.{String}
use omegacrawl.Base.{Bool, List, Option}
use omegacrawl.Base.Int.{ℤ}

pub record Cookie : Type 0 where
  pub name : String
  pub value : String
  pub domain : String
  pub path : String
  pub http_only : Bool
  pub secure : Bool
  pub same_site : String

pub record BasicAuthConfig : Type 0 where
  pub username : String
  pub password : String

pub record HeaderAuthConfig : Type 0 where
  pub headers : List (String × String)

pub record OAuthConfig : Type 0 where
  pub client_id : String
  pub client_secret : String
  pub auth_url : String
  pub token_url : String
  pub refresh_url : String
  pub scopes : List String
  pub redirect_url : String
  pub state : String

pub record AuthConfig : Type 0 where
  pub enabled : Bool
  pub type : String
  pub login_url : String
  pub form_fields : List (String × String)
  pub username : String
  pub password : String
  pub submit_selector : String
  pub wait_after_login : ℤ
  pub basic_auth : Option BasicAuthConfig
  pub header_auth : Option HeaderAuthConfig
  pub oauth_config : Option OAuthConfig

pub record CaptchaConfig : Type 0 where
  pub enabled : Bool
  pub provider : String
  pub api_key : String
  pub timeout : ℤ
  pub retry_count : ℤ

pub record QueueConfig : Type 0 where
  pub backend : String
  pub redis_url : String
  pub pg_dsn : String
  pub kafka_url : String

pub record ChangeDetectionConfig : Type 0 where
  pub enabled : Bool
  pub snapshot_dir : String
  pub max_snapshots : ℤ
  pub report_dir : String

pub record DedupeConfig : Type 0 where
  pub preserve_query_params : List String
  pub preserve_path_segments : List String

pub record InfiniteScrollConfig : Type 0 where
  pub enabled : Bool
  pub max_scrolls : ℤ
  pub max_duration : ℤ
  pub stable_passes : ℤ
  pub item_selector : String
  pub scroll_container : String
  pub load_more_selector : String
  pub scroll_delay : ℤ
  pub scroll_distance : ℤ

pub record SmtpConfig : Type 0 where
  pub host : String
  pub port : ℤ
  pub user : String
  pub pass : String
  pub from : String
  pub to : List String

pub record Config : Type 0 where
  pub seeds : List String
  pub max_depth : ℤ
  pub max_concurrent_pages : ℤ
  pub asset_concurrency : ℤ
  pub page_timeout : ℤ
  pub user_agent : String
  pub output_dir : String
  pub crawl_delay : ℤ
  pub respect_robots : Bool
  pub enable_screenshot : Bool
  pub enable_pdf : Bool
  pub enable_warc : Bool
  pub enable_wacz : Bool
  pub enable_single_file : Bool
  pub enable_article_extract : Bool
  pub proxy : String
  pub proxies : List String
  pub cookies : List Cookie
  pub allowed_domains : List String
  pub exclude_patterns : List String
  pub scroll_height : ℤ
  pub max_retries : ℤ
  pub max_urls_per_host : ℤ
  pub max_total_urls : ℤ
  pub checkpoint_interval : ℤ
  pub checkpoint_file : String
  pub bloom_filter_path : String
  pub rotate_user_agents : Bool
  pub user_agents : List String
  pub wait_strategy : String
  pub wait_selector : String
  pub wait_timeout : ℤ
  pub network_idle_quiet : ℤ
  pub wait_for_response : String
  pub wait_for_page_timeout : ℤ
  pub wait_strategy_timeout : ℤ
  pub infinite_scroll : Option InfiniteScrollConfig
  pub intercept_apis : List String
  pub click_selectors : List String
  pub js_before_load : List String
  pub js_after_load : List String
  pub expand_sections : Bool
  pub dismiss_overlays : Bool
  pub enable_stealth : Bool
  pub enable_lazy_load : Bool
  pub enable_shadow_dom : Bool
  pub enable_iframes : Bool
  pub enable_route_discovery : Bool
  pub enable_media_capture : Bool
  pub enable_structured_data : Bool
  pub max_spa_routes : ℤ
  pub enable_interaction_engine : Bool
  pub max_interactions_per_page : ℤ
  pub viewport_width : ℤ
  pub viewport_height : ℤ
  pub mobile_emulation : Bool
  pub mobile_device : String
  pub mobile_user_agent : String
  pub normalize_urls : Bool
  pub max_iframe_depth : ℤ
  pub iframe_skip_patterns : List String
  pub blocked_url_patterns : List String
  pub api_port : ℤ
  pub webhook_url : String
  pub slack_url : String
  pub smtp_config : Option SmtpConfig
  pub schedule_cron : String
  pub schedule_timezone : String
  pub enable_api_capture : Bool
  pub disable_tls_verify : Bool
  pub incremental : Bool
  pub inc_cache_file : String
  pub interactive : Bool
  pub manual_capture : Bool
  pub min_disk_space : ℤ
  pub browser_pool_size : ℤ
  pub user_data_dir : String
  pub chrome_flags : List String
  pub remote_chrome_url : String
  pub auth_config : Option AuthConfig
  pub captcha_config : Option CaptchaConfig
  pub queue_config : Option QueueConfig
  pub change_detection_config : Option ChangeDetectionConfig
  pub dedupe : Option DedupeConfig
