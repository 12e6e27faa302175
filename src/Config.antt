-- ===== src/Config.antt =====
-- config/config.go. `env` is os.Getenv, and `atoi` is strconv.Atoi, `none` for an error.
use tiny_url.Prelude.{
  List, Text, Bool, Option, none, some, [], ◌++◌, ◌&&◌, ◌||◌, false, same, is_empty, not, codes,
  select, map, if◌then◌else◌,
}
use tiny_url.Prelude.Int.{ℤ, pos}
use tiny_url.Prelude.Words.{mul64}
use tiny_url.Prelude.Strings.{trim_space}
use tiny_url.Models.{Duration}
use tiny_url.Middleware.ClientIp.{split_commas}

pub record Config : Type 0 where
  pub base_url : Text
  pub addr : Text
  pub tls_cert_file : Text
  pub tls_key_file : Text
  pub max_expiration_minutes : ℤ
  pub max_body_bytes : ℤ
  pub write_rate_per_min : ℤ
  pub read_rate_per_min : ℤ
  pub trust_proxy : Bool
  pub cleanup_interval : Duration
  pub shutdown_timeout : Duration
  pub shutdown_drain : Duration
  pub storage_backend : Text
  pub sqlite_path : Text
  pub postgres_dsn : Text
  pub deny_hosts : List Text
  pub deny_hosts_file : Text
  pub log_click_ip : Bool
  pub click_ip_salt : Text
  pub click_retention_days : ℤ
  pub metrics_token : Text
  pub webhook_workers : ℤ
  pub webhook_queue_size : ℤ
  pub webhook_timeout : Duration
  pub unfurl_enabled : Bool
  pub unfurl_workers : ℤ
  pub unfurl_queue_size : ℤ
  pub unfurl_timeout : Duration
  pub geo_ip_db_path : Text

-- splitCSV
unfoldable pub split_csv : Text → List Text
split_csv s =
    if is_empty s then [] else select (λ p. not (is_empty p)) (map trim_space (split_commas s))

unfoldable pub tls_enabled : Config → Bool
tls_enabled c = not (is_empty c.tls_cert_file) && not (is_empty c.tls_key_file)

-- What validate_base_url reads of a parsed URL: the scheme and the host
abbrev pub BaseUrl : Type 0
BaseUrl = Text × Text

-- ValidateBaseURL: `true` for nil
unfoldable pub validate_base_url : (Text → Option BaseUrl) → Text → Bool
validate_base_url parse_url raw = not (is_empty raw) && (elim (parse_url raw) [
  | none ↦ false
  | some u ↦ (same u.0 (codes "http") || same u.0 (codes "https")) && not (is_empty u.1)
])

-- Nanoseconds
abbrev millisecond : ℤ
millisecond = pos 1000000

abbrev second : ℤ
second = pos 1000000000

abbrev minute : ℤ
minute = pos 60000000000

module _ (env : Text → Text) (atoi : Text → Option ℤ) where
  unfoldable pub get_env : Text → Text → Text
  get_env key default = let v = env key in if is_empty v then default else v

  unfoldable pub get_env_int : Text → ℤ → ℤ
  get_env_int key default =
      let v = env key in
      if is_empty v then default else (elim (atoi v) [ none ↦ default | some n ↦ n ])

  unfoldable pub load : Config
  unfolding get_env get_env_int split_csv
  load = record {
    base_url = get_env (codes "BASE_URL") (codes "http://localhost:8080");
    addr = codes ":" ++ get_env (codes "PORT") (codes "8080");
    tls_cert_file = env (codes "TLS_CERT_FILE");
    tls_key_file = env (codes "TLS_KEY_FILE");
    max_expiration_minutes = get_env_int (codes "MAX_EXPIRATION_MINUTES") (pos 525600);
    max_body_bytes = get_env_int (codes "MAX_BODY_BYTES") (pos 4096);
    write_rate_per_min = get_env_int (codes "WRITE_RATE_PER_MIN") (pos 10);
    read_rate_per_min = get_env_int (codes "READ_RATE_PER_MIN") (pos 120);
    trust_proxy = same (env (codes "TRUST_PROXY")) (codes "true");
    cleanup_interval = mul64 (get_env_int (codes "CLEANUP_INTERVAL_MINS") (pos 5)) minute;
    shutdown_timeout = mul64 (get_env_int (codes "SHUTDOWN_TIMEOUT_SECS") (pos 10)) second;
    shutdown_drain = mul64 (get_env_int (codes "SHUTDOWN_DRAIN_SECS") (pos 5)) second;
    storage_backend = get_env (codes "STORAGE_BACKEND") (codes "memory");
    sqlite_path = get_env (codes "SQLITE_PATH") (codes "tiny-url.db");
    postgres_dsn = env (codes "POSTGRES_DSN");
    deny_hosts = split_csv (env (codes "DENY_HOSTS"));
    deny_hosts_file = env (codes "DENY_HOSTS_FILE");
    log_click_ip = same (env (codes "CLICK_LOG_IP")) (codes "true");
    click_ip_salt = env (codes "CLICK_IP_SALT");
    click_retention_days = get_env_int (codes "CLICK_RETENTION_DAYS") (pos 90);
    metrics_token = env (codes "METRICS_TOKEN");
    webhook_workers = get_env_int (codes "WEBHOOK_WORKERS") (pos 4);
    webhook_queue_size = get_env_int (codes "WEBHOOK_QUEUE") (pos 256);
    webhook_timeout = mul64 (get_env_int (codes "WEBHOOK_TIMEOUT_MS") (pos 5000)) millisecond;
    unfurl_enabled = same (env (codes "UNFURL_ENABLED")) (codes "true");
    unfurl_workers = get_env_int (codes "UNFURL_WORKERS") (pos 4);
    unfurl_queue_size = get_env_int (codes "UNFURL_QUEUE") (pos 256);
    unfurl_timeout = mul64 (get_env_int (codes "UNFURL_TIMEOUT_MS") (pos 3000)) millisecond;
    geo_ip_db_path = env (codes "GEOIP_DB_PATH");
  }
