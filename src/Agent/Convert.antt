-- ===== src/Agent/Convert.antt =====
-- agent/main.go: the message of a collection.
use bangmod_monitor.Prelude.{some, map}
use bangmod_monitor.Prelude.Int.{to_int}
use bangmod_monitor.Agent.Metrics
use bangmod_monitor.Agent.Metrics.{Metrics}
use bangmod_monitor.Proto

abbrev disk_message : Metrics.DiskMetric → Proto.DiskMetric
disk_message d = record {
  path = d.path;
  total_bytes = d.total_bytes;
  used_bytes = d.used_bytes;
  usage_percent = d.usage_percent;
}

abbrev network_message : Metrics.NetMetric → Proto.NetworkMetric
network_message n = record {
  interface = n.interface;
  bytes_sent = n.bytes_sent;
  bytes_recv = n.bytes_recv;
  packets_sent = n.packets_sent;
  packets_recv = n.packets_recv;
}

unfoldable pub to_proto : Metrics → Proto.AgentMetrics
to_proto m = record {
  timestamp = m.timestamp;
  hostname = m.hostname;
  cpu = some (record { usage_percent = m.cpu.usage_percent; cores = to_int 32 m.cpu.cores });
  memory = some (record {
    total_bytes = m.memory.total_bytes;
    used_bytes = m.memory.used_bytes;
    usage_percent = m.memory.usage_percent;
  });
  disks = map disk_message m.disks;
  networks = map network_message m.networks;
  apps = some (record {
    nginx = m.apps.nginx;
    apache = m.apps.apache;
    mysql = m.apps.mysql;
    mariadb = m.apps.mariadb;
    postgresql = m.apps.postgresql;
  });
}
