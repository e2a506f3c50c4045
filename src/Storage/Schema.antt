-- ===== src/Storage/Schema.antt =====
-- The metric tables and their columns, storage/migrations.py.
use pc_diagnostic_agent.Prelude.{String, List, [], ◌∷◌, Option}
use pc_diagnostic_agent.Prelude.Dict.{Dict, get, string_eq}

abbrev pub metric_tables : Dict String (List String)
metric_tables =
    ("metrics_cpu", "cpu_percent" ∷ "cpu_frequency" ∷ "processor_count" ∷ [])
    ∷ (
      "metrics_memory",
      "memory_total" ∷ "memory_used" ∷ "memory_available" ∷ "memory_percent" ∷ "swap_percent" ∷ [],
    )
    ∷ (
      "metrics_disk",
      "device" ∷ "mountpoint" ∷ "total" ∷ "used" ∷ "free" ∷ "percent" ∷ "read_bytes" ∷ "write_bytes"
          ∷ "read_latency_ms" ∷ "write_latency_ms" ∷ "disk_model" ∷ "disk_type" ∷ [],
    )
    ∷ (
      "metrics_gpu",
      "gpu_name" ∷ "utilization" ∷ "memory_used" ∷ "memory_total" ∷ "temperature_c"
          ∷ "driver_version" ∷ [],
    )
    ∷ ("metrics_temperature", "sensor" ∷ "temperature_c" ∷ [])
    ∷ ("metrics_process", "pid" ∷ "name" ∷ "cpu_percent" ∷ "memory_bytes" ∷ "exe_path" ∷ [])
    ∷ ("metrics_uptime", "boot_time" ∷ "uptime_seconds" ∷ [])
    ∷ []

-- `none` is the KeyError of an unknown table.
unfoldable pub metric_columns : String → Option (List String)
unfolding get
metric_columns table = get metric_tables table
