-- ===== src/Config/Default.antt =====
-- internal/config/config.go: `DefaultConfig`. A field that it leaves out has Go's zero value.
use omegacrawl.Base.{◌*◌, ℕ, true, false, [], ◌∷◌, none, some}
use omegacrawl.Base.Int.{pos}
use omegacrawl.Config.Types.{Config}

abbrev pub second : ℕ
second = 1_000_000_000

abbrev pub minute : ℕ
minute = 60 * second

unfoldable pub default_config : Config
default_config = record {
  seeds = [];
  max_depth = pos 10;
  max_concurrent_pages = pos 5;
  asset_concurrency = pos 16;
  page_timeout = pos (120 * second);
  user_agent =
      "Mozilla/5.0 (X11; Linux x86_64) AppleWebKit/537.36 (KHTML, like Gecko) Chrome/120.0.0.0 Safari/537.36";
  output_dir = "output";
  crawl_delay = pos (1 * second);
  respect_robots = true;
  enable_screenshot = true;
  enable_pdf = false;
  enable_warc = false;
  enable_wacz = false;
  enable_single_file = true;
  enable_article_extract = true;
  proxy = "";
  proxies = [];
  cookies = [];
  allowed_domains = [];
  exclude_patterns = [];
  scroll_height = pos 5000;
  max_retries = pos 3;
  max_urls_per_host = pos 10000;
  max_total_urls = pos 100000;
  checkpoint_interval = pos (5 * minute);
  checkpoint_file = "";
  bloom_filter_path = "";
  rotate_user_agents = false;
  user_agents =
      "Mozilla/5.0 (X11; Linux x86_64) AppleWebKit/537.36 (KHTML, like Gecko) Chrome/120.0.0.0 Safari/537.36"
      ∷ "Mozilla/5.0 (Windows NT 10.0; Win64; x64) AppleWebKit/537.36 (KHTML, like Gecko) Chrome/120.0.0.0 Safari/537.36"
      ∷ "Mozilla/5.0 (Macintosh; Intel Mac OS X 10_15_7) AppleWebKit/537.36 (KHTML, like Gecko) Chrome/120.0.0.0 Safari/537.36"
      ∷ [];
  wait_strategy = "adaptive";
  wait_selector = "";
  wait_timeout = pos (60 * second);
  network_idle_quiet = pos (1 * second);
  wait_for_response = "";
  wait_for_page_timeout = pos (30 * second);
  wait_strategy_timeout = pos (60 * second);
  infinite_scroll = some (record {
    enabled = true;
    max_scrolls = pos 20;
    max_duration = pos (10 * second);
    stable_passes = pos 3;
    item_selector = "article, .card, .list-item, [data-infinite-scroll-item], .feed-item";
    scroll_container = "";
    load_more_selector = "";
    scroll_delay = pos (2 * second);
    scroll_distance = pos 500;
  });
  intercept_apis = [];
  click_selectors = [];
  js_before_load = [];
  js_after_load = [];
  expand_sections = true;
  dismiss_overlays = true;
  enable_stealth = true;
  enable_lazy_load = true;
  enable_shadow_dom = true;
  enable_iframes = true;
  enable_route_discovery = true;
  enable_media_capture = true;
  enable_structured_data = true;
  max_spa_routes = pos 50;
  enable_interaction_engine = false;
  max_interactions_per_page = pos 50;
  viewport_width = pos 1920;
  viewport_height = pos 1080;
  mobile_emulation = false;
  mobile_device = "";
  mobile_user_agent = "";
  normalize_urls = true;
  max_iframe_depth = pos 2;
  iframe_skip_patterns = "googleads" ∷ "doubleclick" ∷ "facebook.com/tr" ∷ [];
  blocked_url_patterns = [];
  api_port = pos 0;
  webhook_url = "";
  slack_url = "";
  smtp_config = none;
  schedule_cron = "";
  schedule_timezone = "";
  enable_api_capture = true;
  disable_tls_verify = false;
  incremental = false;
  inc_cache_file = "";
  interactive = false;
  manual_capture = false;
  min_disk_space = pos (1024 * 1024 * 1024);
  browser_pool_size = pos 1;
  user_data_dir = "";
  chrome_flags = [];
  remote_chrome_url = "";
  auth_config = some (record {
    enabled = false;
    type = "";
    login_url = "";
    form_fields = [];
    username = "";
    password = "";
    submit_selector = "";
    wait_after_login = pos 0;
    basic_auth = none;
    header_auth = none;
    oauth_config = none;
  });
  captcha_config = some (record {
    enabled = false;
    provider = "";
    api_key = "";
    timeout = pos 0;
    retry_count = pos 0;
  });
  queue_config = some (record { backend = "local"; redis_url = ""; pg_dsn = ""; kafka_url = "" });
  change_detection_config =
      some (record { enabled = false; snapshot_dir = ""; max_snapshots = pos 10; report_dir = "" });
  dedupe = some (record { preserve_query_params = []; preserve_path_segments = [] });
}
