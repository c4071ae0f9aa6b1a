-- ===== src/Settings.antt =====
-- The configuration: include/rtc/config/config.hpp and src/config/config.cpp. The environment is a
-- function; a variable that is not set is none. The sample ratio of tracing is a floating
-- point number and is left out: only whether its variable is refused comes in, as `ratio`.
pub mod Checks
pub mod Bounds
use realtime_chat.Common.{
  length, nat_to_string, ℕ, String, Bool, true, false, not, ◌&&◌, ◌||◌, List, [], ◌∷◌, ◌++◌, ltb,
  if◌then◌else◌, Bytes, codes, ◌==◌, bytes_eq, nat_eq, ℤ, leb_ℤ, pos,
}
use realtime_chat.Errors.{Result, ok, err, throw, configuration}
use realtime_chat.Validation.{◌>>=◌}
use realtime_chat.Environment.{Env, quoted, parse_uint, parse_int64, parse_flag, or_else}

pub record Config : Type 0 where
  pub chat_port : ℕ
  pub db_host : Bytes
  pub db_port : ℕ
  pub db_name : Bytes
  pub db_user : Bytes
  pub db_password : Bytes
  pub db_pool_size : ℕ
  pub jwt_secret : Bytes
  pub jwt_access_ttl_seconds : ℤ
  pub jwt_refresh_ttl_seconds : ℤ
  pub jwt_issuer : Bytes
  pub ws_heartbeat_interval_seconds : ℤ
  pub ws_heartbeat_timeout_seconds : ℤ
  pub redis_enabled : Bool
  pub redis_url : Bytes
  pub cache_user_ttl_seconds : ℤ
  pub cache_conversation_ttl_seconds : ℤ
  pub upload_dir : Bytes
  pub upload_public_base_url : Bytes
  pub max_upload_bytes : ℤ
  pub max_request_bytes : ℤ
  pub rate_limit_enabled : Bool
  pub rate_limit_window_seconds : ℤ
  pub rate_limit_login_max : ℤ
  pub rate_limit_register_max : ℤ
  pub rate_limit_message_max : ℤ
  pub rate_limit_upload_max : ℤ
  pub rate_limit_default_max : ℤ
  pub cors_allowed_origins : Bytes
  pub worker_threads : ℤ
  pub maintenance_interval_seconds : ℤ
  pub tracing_enabled : Bool
  pub tracing_exporter : Bytes
  pub tracing_endpoint : Bytes
  pub cluster_enabled : Bool
  pub authz_cache_ttl_seconds : ℤ
  pub log_level : Bytes
  pub log_format : Bytes
  pub app_env : Bytes

-- The initial values of the members.
unfoldable pub default_config : Config
default_config = record {
  chat_port = 8080;
  db_host = codes "localhost";
  db_port = 5432;
  db_name = codes "realtime_chat";
  db_user = codes "chat";
  db_password = codes "chat_password";
  db_pool_size = 8;
  jwt_secret = codes "dev-insecure-secret-change-me-in-production";
  jwt_access_ttl_seconds = pos 900;
  jwt_refresh_ttl_seconds = pos 1209600;
  jwt_issuer = codes "realtime-chat";
  ws_heartbeat_interval_seconds = pos 30;
  ws_heartbeat_timeout_seconds = pos 90;
  redis_enabled = false;
  redis_url = codes "tcp://127.0.0.1:6379";
  cache_user_ttl_seconds = pos 300;
  cache_conversation_ttl_seconds = pos 60;
  upload_dir = codes "uploads";
  upload_public_base_url = codes "/api/attachments";
  max_upload_bytes = pos 26214400;
  max_request_bytes = pos 1048576;
  rate_limit_enabled = true;
  rate_limit_window_seconds = pos 60;
  rate_limit_login_max = pos 10;
  rate_limit_register_max = pos 5;
  rate_limit_message_max = pos 120;
  rate_limit_upload_max = pos 30;
  rate_limit_default_max = pos 300;
  cors_allowed_origins = codes "*";
  worker_threads = pos 2;
  maintenance_interval_seconds = pos 60;
  tracing_enabled = false;
  tracing_exporter = codes "logging";
  tracing_endpoint = codes "http://127.0.0.1:4318/v1/traces";
  cluster_enabled = false;
  authz_cache_ttl_seconds = pos 30;
  log_level = codes "info";
  log_format = codes "text";
  app_env = codes "development";
}

abbrev pub is_empty_text : Bytes → Bool
is_empty_text [] = true
is_empty_text (c ∷ s) = false

unfoldable pub is_production : Config → Bool
is_production cfg = cfg.app_env == codes "production"

abbrev pub is_exporter : Bytes → Bool
is_exporter s = s == codes "logging" || (s == codes "otlp" || s == codes "zipkin")

unfoldable pub validate : Config → Result (Unit {0})
unfolding is_production
validate cfg =
    if is_empty_text cfg.jwt_secret
    then throw configuration "JWT_SECRET must not be empty" []
    else if is_production cfg
        && cfg.jwt_secret == codes "dev-insecure-secret-change-me-in-production"
    then throw configuration "JWT_SECRET must be overridden in production" []
    else if is_production cfg && ltb (length cfg.jwt_secret) 32
    then throw configuration "JWT_SECRET must be at least 32 bytes in production" []
    else if not (leb_ℤ cfg.jwt_access_ttl_seconds cfg.jwt_refresh_ttl_seconds)
    then throw configuration "JWT refresh TTL must be >= access TTL" []
    else if is_empty_text cfg.db_name || (is_empty_text cfg.db_user || is_empty_text cfg.db_host)
    then throw configuration "Database host, name and user must not be empty" []
    else if not (leb_ℤ cfg.ws_heartbeat_interval_seconds cfg.ws_heartbeat_timeout_seconds)
    then throw configuration "WS heartbeat timeout must be >= heartbeat interval" []
    else if not (is_exporter cfg.tracing_exporter)
    then throw configuration "TRACING_EXPORTER must be one of: logging, otlp, zipkin"
        (quoted "TRACING_EXPORTER" cfg.tracing_exporter)
    else if cfg.cluster_enabled && not cfg.redis_enabled
    then throw configuration
        "CLUSTER_ENABLED requires REDIS_ENABLED: Redis Pub/Sub is the transport for cross-instance WebSocket delivery"
        []
    else ok tt

-- One assignment of `load_from_env`.
pub data Setting : Type 0 where
  a_text : String → (Config → Bytes) → (Bytes → Config → Config) → Setting
  a_flag : String → (Config → Bool) → (Bool → Config → Config) → Setting
  a_uint : String → ℕ → ℕ → (Config → ℕ) → (ℕ → Config → Config) → Setting
  an_int64 : String → ℤ → (Config → ℤ) → (ℤ → Config → Config) → Setting
  a_ratio : Setting

abbrev put : {A : Type 0} → Result A → (A → Config → Config) → Config → Result Config
put r assign cfg = r >>= λ v. ok (assign v cfg)

unfoldable pub assign_setting : Env → Result (Unit {0}) → Setting → Config → Result Config
unfolding parse_uint parse_int64 parse_flag
assign_setting env ratio (a_text name old assign) cfg =
    ok (assign (or_else (old cfg) (env name)) cfg)
assign_setting env ratio (a_flag name old assign) cfg =
    ok (assign (parse_flag (old cfg) (env name)) cfg)
assign_setting env ratio (a_uint name min max old assign) cfg =
    put (parse_uint name (old cfg) min max (env name)) assign cfg
assign_setting env ratio (an_int64 name min old assign) cfg =
    put (parse_int64 name (old cfg) min (env name)) assign cfg
assign_setting env ratio a_ratio cfg = ratio >>= λ u. ok cfg

unfoldable pub settings : List Setting
settings =
    a_uint "CHAT_PORT" 1 65535 (λ cfg. cfg.chat_port) (λ v cfg. record cfg { chat_port = v })
    ∷ a_text "DB_HOST" (λ cfg. cfg.db_host) (λ v cfg. record cfg { db_host = v })
    ∷ a_uint "DB_PORT" 1 65535 (λ cfg. cfg.db_port) (λ v cfg. record cfg { db_port = v })
    ∷ a_text "DB_NAME" (λ cfg. cfg.db_name) (λ v cfg. record cfg { db_name = v })
    ∷ a_text "DB_USER" (λ cfg. cfg.db_user) (λ v cfg. record cfg { db_user = v })
    ∷ a_text "DB_PASSWORD" (λ cfg. cfg.db_password) (λ v cfg. record cfg { db_password = v })
    ∷ a_uint "DB_POOL_SIZE" 1 512 (λ cfg. cfg.db_pool_size)
        (λ v cfg. record cfg { db_pool_size = v })
    ∷ a_text "JWT_SECRET" (λ cfg. cfg.jwt_secret) (λ v cfg. record cfg { jwt_secret = v })
    ∷ an_int64 "JWT_ACCESS_TTL_SECONDS" (pos 1) (λ cfg. cfg.jwt_access_ttl_seconds)
        (λ v cfg. record cfg { jwt_access_ttl_seconds = v })
    ∷ an_int64 "JWT_REFRESH_TTL_SECONDS" (pos 1) (λ cfg. cfg.jwt_refresh_ttl_seconds)
        (λ v cfg. record cfg { jwt_refresh_ttl_seconds = v })
    ∷ a_text "JWT_ISSUER" (λ cfg. cfg.jwt_issuer) (λ v cfg. record cfg { jwt_issuer = v })
    ∷ an_int64 "WS_HEARTBEAT_INTERVAL_SECONDS" (pos 1) (λ cfg. cfg.ws_heartbeat_interval_seconds)
        (λ v cfg. record cfg { ws_heartbeat_interval_seconds = v })
    ∷ an_int64 "WS_HEARTBEAT_TIMEOUT_SECONDS" (pos 1) (λ cfg. cfg.ws_heartbeat_timeout_seconds)
        (λ v cfg. record cfg { ws_heartbeat_timeout_seconds = v })
    ∷ a_flag "REDIS_ENABLED" (λ cfg. cfg.redis_enabled) (λ v cfg. record cfg { redis_enabled = v })
    ∷ a_text "REDIS_URL" (λ cfg. cfg.redis_url) (λ v cfg. record cfg { redis_url = v })
    ∷ an_int64 "CACHE_USER_TTL_SECONDS" (pos 1) (λ cfg. cfg.cache_user_ttl_seconds)
        (λ v cfg. record cfg { cache_user_ttl_seconds = v })
    ∷ an_int64 "CACHE_CONVERSATION_TTL_SECONDS" (pos 1) (λ cfg. cfg.cache_conversation_ttl_seconds)
        (λ v cfg. record cfg { cache_conversation_ttl_seconds = v })
    ∷ a_text "UPLOAD_DIR" (λ cfg. cfg.upload_dir) (λ v cfg. record cfg { upload_dir = v })
    ∷ a_text "UPLOAD_PUBLIC_BASE_URL" (λ cfg. cfg.upload_public_base_url)
        (λ v cfg. record cfg { upload_public_base_url = v })
    ∷ an_int64 "MAX_UPLOAD_BYTES" (pos 1) (λ cfg. cfg.max_upload_bytes)
        (λ v cfg. record cfg { max_upload_bytes = v })
    ∷ an_int64 "MAX_REQUEST_BYTES" (pos 1) (λ cfg. cfg.max_request_bytes)
        (λ v cfg. record cfg { max_request_bytes = v })
    ∷ a_flag "RATE_LIMIT_ENABLED" (λ cfg. cfg.rate_limit_enabled)
        (λ v cfg. record cfg { rate_limit_enabled = v })
    ∷ an_int64 "RATE_LIMIT_WINDOW_SECONDS" (pos 1) (λ cfg. cfg.rate_limit_window_seconds)
        (λ v cfg. record cfg { rate_limit_window_seconds = v })
    ∷ an_int64 "RATE_LIMIT_LOGIN_MAX" (pos 1) (λ cfg. cfg.rate_limit_login_max)
        (λ v cfg. record cfg { rate_limit_login_max = v })
    ∷ an_int64 "RATE_LIMIT_REGISTER_MAX" (pos 1) (λ cfg. cfg.rate_limit_register_max)
        (λ v cfg. record cfg { rate_limit_register_max = v })
    ∷ an_int64 "RATE_LIMIT_MESSAGE_MAX" (pos 1) (λ cfg. cfg.rate_limit_message_max)
        (λ v cfg. record cfg { rate_limit_message_max = v })
    ∷ an_int64 "RATE_LIMIT_UPLOAD_MAX" (pos 1) (λ cfg. cfg.rate_limit_upload_max)
        (λ v cfg. record cfg { rate_limit_upload_max = v })
    ∷ an_int64 "RATE_LIMIT_DEFAULT_MAX" (pos 1) (λ cfg. cfg.rate_limit_default_max)
        (λ v cfg. record cfg { rate_limit_default_max = v })
    ∷ a_text "CORS_ALLOWED_ORIGINS" (λ cfg. cfg.cors_allowed_origins)
        (λ v cfg. record cfg { cors_allowed_origins = v })
    ∷ an_int64 "WORKER_THREADS" (pos 1) (λ cfg. cfg.worker_threads)
        (λ v cfg. record cfg { worker_threads = v })
    ∷ an_int64 "MAINTENANCE_INTERVAL_SECONDS" (pos 1) (λ cfg. cfg.maintenance_interval_seconds)
        (λ v cfg. record cfg { maintenance_interval_seconds = v })
    ∷ a_flag "TRACING_ENABLED" (λ cfg. cfg.tracing_enabled)
        (λ v cfg. record cfg { tracing_enabled = v })
    ∷ a_text "TRACING_EXPORTER" (λ cfg. cfg.tracing_exporter)
        (λ v cfg. record cfg { tracing_exporter = v })
    ∷ a_text "TRACING_ENDPOINT" (λ cfg. cfg.tracing_endpoint)
        (λ v cfg. record cfg { tracing_endpoint = v })
    ∷ a_ratio
    ∷ a_flag "CLUSTER_ENABLED" (λ cfg. cfg.redis_enabled)
        (λ v cfg. record cfg { cluster_enabled = v })
    ∷ an_int64 "AUTHZ_CACHE_TTL_SECONDS" (pos 1) (λ cfg. cfg.authz_cache_ttl_seconds)
        (λ v cfg. record cfg { authz_cache_ttl_seconds = v })
    ∷ a_text "LOG_LEVEL" (λ cfg. cfg.log_level) (λ v cfg. record cfg { log_level = v })
    ∷ a_text "LOG_FORMAT" (λ cfg. cfg.log_format) (λ v cfg. record cfg { log_format = v })
    ∷ a_text "APP_ENV" (λ cfg. cfg.app_env) (λ v cfg. record cfg { app_env = v })
    ∷ []

unfoldable pub assign_all : Env → Result (Unit {0}) → List Setting → Config → Result Config
unfolding assign_setting
assign_all env ratio [] cfg = ok cfg
assign_all env ratio (s ∷ ss) cfg = assign_setting env ratio s cfg >>= assign_all env ratio ss

-- The configuration with which the server starts, or the exception that stops it.
unfoldable pub load_from_env : Env → Result (Unit {0}) → Result Config
unfolding assign_all settings default_config validate
load_from_env env ratio =
    assign_all env ratio settings default_config >>= λ cfg. validate cfg >>= λ u. ok cfg

unfoldable pub database_connection_string : Config → Bytes
database_connection_string cfg =
    codes "host="
    ++ cfg.db_host
    ++ codes " port="
    ++ nat_to_string cfg.db_port
    ++ codes " dbname="
    ++ cfg.db_name
    ++ codes " user="
    ++ cfg.db_user
    ++ codes " password="
    ++ cfg.db_password
    ++ codes " connect_timeout=5 application_name=realtime-chat"

unfoldable pub database_connection_string_redacted : Config → Bytes
database_connection_string_redacted cfg =
    codes "host="
    ++ cfg.db_host
    ++ codes " port="
    ++ nat_to_string cfg.db_port
    ++ codes " dbname="
    ++ cfg.db_name
    ++ codes " user="
    ++ cfg.db_user
    ++ codes " password=*** application_name=realtime-chat"
