-- ===== src/Collectors/Psutil.antt =====
-- The collectors of the processor, the memory, the disks and the uptime, collectors/cpu.py, memory.py,
-- disk.py and uptime.py. What psutil answers is the argument, none where it raises. A number is stored
-- in thousandths.
pub mod Stored
use pc_diagnostic_agent.Prelude.{
  ℕ, ◌*◌, ◌/◌, ◌%◌, ◌+◌, ◌&&◌, ◌||◌, ltb, zero, String, Option, none, some, List, [], ◌∷◌, ◌==◌,
  if◌then◌else◌,
}
use pc_diagnostic_agent.Prelude.Int.{ℤ, pos, sub_ℕ}
use pc_diagnostic_agent.Prelude.Dict.{Dict, get, string_eq}
use pc_diagnostic_agent.Prelude.Text.{Parts, split_text}
use pc_diagnostic_agent.Storage.Rows.{Time, Value, null, num, text}
use pc_diagnostic_agent.Storage.Metrics.{Snapshot}

-- A count as a stored number.
abbrev pub count : ℕ → Value
count n = num (pos (n * 1000))

-- `round(x, 2)` of thousandths: a half goes to the even hundredth.
abbrev pub round_2 : ℕ → ℕ
round_2 n =
    let cents = n / 10 in
    let rest = n % 10 in
    if ltb rest 5 || (rest == 5 && cents % 2 == 0) then cents * 10 else (cents + 1) * 10

abbrev pub frequency_of : Option ℕ → Value
frequency_of none = null
frequency_of (some zero) = null
frequency_of (some freq) = num (pos (round_2 freq))

-- `CpuCollector.collect`.
unfoldable pub collect_cpu : ℕ → Option ℕ → Option ℕ → Snapshot
collect_cpu percent frequency processors =
    (
      "metrics_cpu",
      (("cpu_percent", num (pos percent))
            ∷ ("cpu_frequency", frequency_of frequency)
            ∷ ("processor_count", elim processors [ none ↦ null | some n ↦ count n ])
            ∷ [])
          ∷ [],
    )
    ∷ []

pub record VirtualMemory : Type 0 where
  pub total : ℕ
  pub used : ℕ
  pub available : ℕ
  pub percent : ℕ

-- `MemoryCollector.collect`: `swap` is none where psutil raises.
unfoldable pub collect_memory : VirtualMemory → Option ℕ → Snapshot
collect_memory vm swap =
    (
      "metrics_memory",
      (("memory_total", count vm.total)
            ∷ ("memory_used", count vm.used)
            ∷ ("memory_available", count vm.available)
            ∷ ("memory_percent", num (pos vm.percent))
            ∷ ("swap_percent", elim swap [ none ↦ null | some p ↦ num (pos p) ])
            ∷ [])
          ∷ [],
    )
    ∷ []

-- `UptimeCollector.collect`. Times in milliseconds are seconds in thousandths.
unfoldable pub collect_uptime : Time → Time → Snapshot
collect_uptime now boot_time =
    (
      "metrics_uptime",
      (("boot_time", num (pos boot_time)) ∷ ("uptime_seconds", num (sub_ℕ now boot_time)) ∷ [])
          ∷ [],
    )
    ∷ []

pub record DiskUsage : Type 0 where
  pub total : ℕ
  pub used : ℕ
  pub free : ℕ
  pub percent : ℕ

-- A partition, with what `disk_usage` answers, none where it raises.
pub record Partition : Type 0 where
  pub device : String
  pub mountpoint : String
  pub usage : Option DiskUsage

-- `getattr(io, …, None)`.
abbrev pub io_value : Option (ℕ × ℕ) → (ℕ × ℕ → ℕ) → Value
io_value none field = null
io_value (some io) field = count (field io)

-- `device.split("\\")[-1]`.
abbrev last_part : Parts → String
last_part (part, []) = part
last_part (part, next ∷ parts) = last_part (next, parts)

-- The counters of a device, by the bytes that were read and written.
unfoldable pub io_of : Dict String (ℕ × ℕ) → String → Option (ℕ × ℕ)
unfolding split_text
io_of counters device = get counters (last_part (split_text 92 device))

abbrev pub disk_row : Dict String (ℕ × ℕ) → Partition → DiskUsage → Dict String Value
disk_row counters part usage =
    ("device", text part.device)
    ∷ ("mountpoint", text part.mountpoint)
    ∷ ("total", count usage.total)
    ∷ ("used", count usage.used)
    ∷ ("free", count usage.free)
    ∷ ("percent", num (pos usage.percent))
    ∷ ("read_bytes", io_value (io_of counters part.device) (λ io. io.0))
    ∷ ("write_bytes", io_value (io_of counters part.device) (λ io. io.1))
    ∷ ("read_latency_ms", null)
    ∷ ("write_latency_ms", null)
    ∷ ("disk_model", null)
    ∷ ("disk_type", null)
    ∷ []

-- The loop over the partitions, which skips those without usage or of size 0.
unfoldable pub disk_rows : Dict String (ℕ × ℕ) → List Partition → List (Dict String Value)
disk_rows counters [] = []
disk_rows counters (part ∷ parts) =
    let rest = disk_rows counters parts in
    elim part.usage [
      | none ↦ rest
      | some usage ↦ if usage.total == 0 then rest else disk_row counters part usage ∷ rest
    ]

-- `DiskCollector.collect`: the counters are none where the call raises or answers nothing.
unfoldable pub collect_disk : Option (Dict String (ℕ × ℕ)) → List Partition → Snapshot
collect_disk none parts = ("metrics_disk", disk_rows [] parts) ∷ []
collect_disk (some counters) parts = ("metrics_disk", disk_rows counters parts) ∷ []
