-- ===== src/Agent/Config.antt =====
-- agent/config/config.go. The operating system's directories and `filepath.Join` are arguments.
use bangmod_monitor.Prelude.{ℕ, String, Bool, not, str_eq, if◌then◌else◌}
use bangmod_monitor.Prelude.Text.{is_empty}
use bangmod_monitor.Prelude.Environ.{Environ, get_env, interval as seconds}

pub record System : Type 0 where
  pub goos : String
  pub temp_dir : String
  -- os.UserHomeDir, "" with its error
  pub home_dir : String
  pub join_path : String → String → String

pub record Config : Type 0 where
  pub token : String
  pub api_url : String
  pub grpc_target : String
  pub interval : ℕ
  pub region : String
  pub wal_dir : String
  pub use_grpc : Bool

abbrev default_wal_dir : System → Environ → String
default_wal_dir sys env =
    if str_eq sys.goos "windows"
    then sys.join_path (if is_empty (env "APPDATA") then sys.temp_dir else env "APPDATA")
        "BangmodMonitor"
    else sys.join_path sys.home_dir ".bangmodmonitor"

unfoldable pub load : System → Environ → Config
load sys env = record {
  token = get_env env "AGENT_TOKEN" "";
  api_url = get_env env "API_URL" "http://localhost:8080";
  grpc_target = env "GRPC_TARGET";
  interval = seconds env "AGENT_INTERVAL" 30;
  region = get_env env "AGENT_REGION" "default";
  wal_dir = get_env env "WAL_DIR" (default_wal_dir sys env);
  use_grpc = not (is_empty (env "GRPC_TARGET"));
}
