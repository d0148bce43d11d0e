-- ===== src/Agent/Metrics.antt =====
-- agent/collector/system.go: the metrics of one collection. The readings of the system library
-- are an argument; what is modelled is how they become a `Metrics`.
use bangmod_monitor.Prelude.{
  ℕ, suc, String, Bool, true, false, ◌||◌, Option, none, some, List, [], ◌∷◌, leb, str_eq,
  filter_map, if◌then◌else◌,
}
use bangmod_monitor.Prelude.Int.{ℤ, pos}
use bangmod_monitor.Prelude.Float.{Float64, Float32}

pub record CpuMetric : Type 0 where
  pub usage_percent : Float64
  pub cores : ℤ

pub record MemMetric : Type 0 where
  pub total_bytes : ℕ
  pub used_bytes : ℕ
  pub usage_percent : Float64

pub record DiskMetric : Type 0 where
  pub path : String
  pub total_bytes : ℕ
  pub used_bytes : ℕ
  pub usage_percent : Float64

pub record NetMetric : Type 0 where
  pub interface : String
  pub bytes_sent : ℕ
  pub bytes_recv : ℕ
  pub packets_sent : ℕ
  pub packets_recv : ℕ

pub record AppStatus : Type 0 where
  pub nginx : Bool
  pub apache : Bool
  pub mysql : Bool
  pub mariadb : Bool
  pub postgresql : Bool

pub record ProcMetric : Type 0 where
  pub name : String
  pub pid : ℤ
  pub cpu_percent : Float64
  pub memory_percent : Float32
  pub status : String

pub record Metrics : Type 0 where
  pub timestamp : ℤ
  pub hostname : String
  pub cpu : CpuMetric
  pub memory : MemMetric
  pub disks : List DiskMetric
  pub networks : List NetMetric
  pub apps : AppStatus
  pub processes : List ProcMetric

-- What the system library answers about one process; `name` is `none` on an error. The other
-- readings are the zero value there on an error, which the program ignores.
pub record Process : Type 0 where
  pub name : Option String
  pub pid : ℤ
  pub cpu_percent : Float64
  pub memory_percent : Float32
  pub statuses : List String

-- The readings of one collection; `none` is an error of that call.
pub record Readings : Type 0 where
  pub now : ℤ
  pub cpu_percents : Option (List Float64)
  pub cpu_counts : ℤ
  pub virtual_memory : Option MemMetric
  pub partitions : Option (List String)
  -- the usage of a mount point, whose path is the first argument
  pub usage : String → Option DiskMetric
  pub io_counters : Option (List NetMetric)
  pub processes_apps : List Process
  pub processes : Option (List Process)

abbrev no_apps : AppStatus
no_apps = record {
  nginx = false;
  apache = false;
  mysql = false;
  mariadb = false;
  postgresql = false;
}

-- the `switch` of collectApps
mark_app : String → AppStatus → AppStatus
mark_app name status =
    if str_eq name "nginx"
    then record status { nginx = true }
    else if str_eq name "apache2" || str_eq name "httpd"
    then record status { apache = true }
    else if str_eq name "mysqld"
    then record status { mysql = true }
    else if str_eq name "mariadbd" || str_eq name "mysqld_safe"
    then record status { mariadb = true }
    else if str_eq name "postgres"
    then record status { postgresql = true }
    else status

abbrev mark_process : Process → AppStatus → AppStatus
mark_process p status = elim p.name [ none ↦ status | some name ↦ mark_app name status ]

collect_apps_from : List Process → AppStatus → AppStatus
unfolding mark_app
collect_apps_from [] status = status
collect_apps_from (p ∷ ps) status = collect_apps_from ps (mark_process p status)

collect_apps : List Process → AppStatus
unfolding collect_apps_from
collect_apps ps = collect_apps_from ps no_apps

abbrev first_status : List String → String
first_status [] = "unknown"
first_status (s ∷ _) = s

abbrev proc_metric : Process → String → ProcMetric
proc_metric p name = record {
  name = name;
  pid = p.pid;
  cpu_percent = p.cpu_percent;
  memory_percent = p.memory_percent;
  status = first_status p.statuses;
}

abbrev max_processes : ℕ
max_processes = 50

-- The loop of collectProcesses; `n` entries are in the result already.
collect_processes_from : ℕ → List Process → List ProcMetric
collect_processes_from n [] = []
collect_processes_from n (p ∷ ps) = elim p.name [
  | none ↦ collect_processes_from n ps
  | some name ↦
      let rest = collect_processes_from (suc n) ps in
      proc_metric p name ∷ (if leb max_processes (suc n) then [] else rest)
]

collect_processes : Option (List Process) → List ProcMetric
unfolding collect_processes_from
collect_processes none = []
collect_processes (some ps) = collect_processes_from 0 ps

abbrev cpu_metric : ℤ → Option (List Float64) → CpuMetric
cpu_metric cores none = record { usage_percent = 0; cores = pos 0 }
cpu_metric cores (some []) = record { usage_percent = 0; cores = pos 0 }
cpu_metric cores (some (p ∷ _)) = record { usage_percent = p; cores = cores }

abbrev memory_metric : Option MemMetric → MemMetric
memory_metric none = record { total_bytes = 0; used_bytes = 0; usage_percent = 0 }
memory_metric (some v) = v

abbrev disk_metric : (String → Option DiskMetric) → String → Option DiskMetric
disk_metric usage mountpoint = elim (usage mountpoint) [
  | none ↦ none
  | some d ↦ some (record d { path = mountpoint })
]

abbrev disk_metrics : (String → Option DiskMetric) → Option (List String) → List DiskMetric
disk_metrics usage none = []
disk_metrics usage (some parts) = filter_map (disk_metric usage) parts

abbrev net_metrics : Option (List NetMetric) → List NetMetric
net_metrics none = []
net_metrics (some ifaces) = ifaces

unfoldable collect : Readings → String → Metrics
unfolding collect_apps collect_processes
collect r hostname = record {
  timestamp = r.now;
  hostname = hostname;
  cpu = cpu_metric r.cpu_counts r.cpu_percents;
  memory = memory_metric r.virtual_memory;
  disks = disk_metrics r.usage r.partitions;
  networks = net_metrics r.io_counters;
  apps = collect_apps r.processes_apps;
  processes = collect_processes r.processes;
}
