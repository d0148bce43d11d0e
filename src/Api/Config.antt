-- ===== src/Api/Config.antt =====
-- api/config/config.go.
use bangmod_monitor.Prelude.{String, List, [], if◌then◌else◌}
use bangmod_monitor.Prelude.Text.{is_empty}
use bangmod_monitor.Prelude.Environ.{Environ, get_env, list_of}

pub record Config : Type 0 where
  pub http_port : String
  pub click_house_dsn : String
  pub maria_dsn : String
  pub node_secret : String
  pub jwt_secret : String
  pub redis_addr : String
  pub grpc_port : String
  pub redpanda_brokers : List String
  pub stripe_secret_key : String
  pub stripe_webhook_secret : String
  pub stripe_starter_price_id : String
  pub stripe_pro_price_id : String
  pub stripe_region_price_id : String
  pub app_base_url : String

unfoldable pub split_csv : String → List String
split_csv s = if is_empty s then [] else list_of s

unfoldable pub load : Environ → Config
load env = record {
  http_port = get_env env "HTTP_PORT" "8080";
  click_house_dsn = get_env env "CLICKHOUSE_DSN" "clickhouse://localhost:9000/bangmod";
  maria_dsn =
      get_env env "MARIADB_DSN"
        "bangmod:bangmod@tcp(localhost:3306)/bangmod?parseTime=true&charset=utf8mb4";
  node_secret = get_env env "NODE_SECRET" "";
  jwt_secret = get_env env "JWT_SECRET" "change-me-in-production";
  redis_addr = get_env env "REDIS_ADDR" "";
  grpc_port = get_env env "GRPC_PORT" "9090";
  redpanda_brokers = split_csv (get_env env "REDPANDA_BROKERS" "");
  stripe_secret_key = get_env env "STRIPE_SECRET_KEY" "";
  stripe_webhook_secret = get_env env "STRIPE_WEBHOOK_SECRET" "";
  stripe_starter_price_id = get_env env "STRIPE_STARTER_PRICE_ID" "";
  stripe_pro_price_id = get_env env "STRIPE_PRO_PRICE_ID" "";
  stripe_region_price_id = get_env env "STRIPE_REGION_PRICE_ID" "";
  app_base_url = get_env env "APP_BASE_URL" "http://localhost:3000";
}
