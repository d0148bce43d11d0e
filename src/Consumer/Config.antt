-- ===== src/Consumer/Config.antt =====
-- consumer/config/config.go.
use bangmod_monitor.Prelude.{ℕ, String, List}
use bangmod_monitor.Prelude.Environ.{Environ, get_env, list_of}

pub record Config : Type 0 where
  pub redpanda_brokers : List String
  pub click_house_dsn : String
  pub group_id : String
  pub batch_size : ℕ

unfoldable pub split_csv : String → List String
split_csv s = list_of s

unfoldable pub load : Environ → Config
load env = record {
  redpanda_brokers = split_csv (get_env env "REDPANDA_BROKERS" "localhost:19092");
  click_house_dsn = get_env env "CLICKHOUSE_DSN" "clickhouse://localhost:9000/bangmod";
  group_id = get_env env "CONSUMER_GROUP" "bangmod-clickhouse-writer";
  batch_size = 500;
}
