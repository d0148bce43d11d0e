-- ===== src/Alerter/Config.antt =====
-- alerter/config/config.go.
use bangmod_monitor.Prelude.{ℕ, String}
use bangmod_monitor.Prelude.Environ.{Environ, get_env, interval}

pub record Config : Type 0 where
  pub maria_dsn : String
  pub click_house_dsn : String
  -- seconds between evaluations
  pub eval_interval : ℕ

unfoldable pub load : Environ → Config
load env = record {
  maria_dsn =
      get_env env "MARIADB_DSN"
        "bangmod:bangmod@tcp(localhost:3306)/bangmod?parseTime=true&charset=utf8mb4";
  click_house_dsn = get_env env "CLICKHOUSE_DSN" "clickhouse://localhost:9000/bangmod";
  eval_interval = interval env "EVAL_INTERVAL" 60;
}
