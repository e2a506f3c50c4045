-- ===== src/Examples/Samples.antt =====
-- The theorems on the collectors of psutil at concrete answers: collectors/processes.py and disk.py.
use pc_diagnostic_agent.Prelude.{
  where_rows, ℕ, ◌≡◌, ◌≤◌, refl, String, Option, none, some, List, [], ◌∷◌, ◌++◌, map, drop, any,
  ◌==◌, length,
}
use pc_diagnostic_agent.Prelude.Dict.{Dict, get, string_eq, nat_eq}
use pc_diagnostic_agent.Prelude.Text.{split_text}
use pc_diagnostic_agent.Prelude.Sort.{sort_by}
use pc_diagnostic_agent.Storage.Metrics.{metric_rows, insert_snapshot}
use pc_diagnostic_agent.Storage.Metrics.Whole.{stored}
use pc_diagnostic_agent.Collectors.Psutil.{Partition, io_of, collect_disk, disk_rows}
use pc_diagnostic_agent.Collectors.Psutil.Stored.{has_size, row_of, insert_snapshot-collect}
use pc_diagnostic_agent.Collectors.Processes.{
  ProcInfo, Process, accessible, top, selected, merged_processes, process_row, collect_processes,
}
use pc_diagnostic_agent.Collectors.Processes.Top.{AreStored, merged_processes-AreStored}
use pc_diagnostic_agent.Examples.{crashed, second_boot_time}

abbrev info : ℕ → ℕ → ℕ → ProcInfo
info pid cpu memory = record {
  pid = pid;
  name = some "chrome.exe";
  cpu_percent = some cpu;
  rss = some memory;
  exe = none;
}

-- Three processes, and one that has gone.
abbrev infos : List (Option ProcInfo)
infos = some (info 4 100 7) ∷ none ∷ some (info 8 90000 3) ∷ some (info 12 500 9) ∷ []

abbrev procs : List Process
procs = accessible infos

merged_processes-AreStored_example : AreStored procs (merged_processes procs)
merged_processes-AreStored_example = merged_processes-AreStored procs

order_test : map (λ (p : Process). p.pid) (merged_processes procs) ≡ 8 ∷ 12 ∷ 4 ∷ []
unfolding merged_processes pc_diagnostic_agent.Collectors.Processes.by_pid top sort_by accessible
    pc_diagnostic_agent.Prelude.Dict.put
order_test = refl

abbrev parts : List Partition
parts =
    record {
      device = "C:";
      mountpoint = "C:";
      usage = some (record { total = 100; used = 60; free = 40; percent = 60000 });
    }
    ∷ record { device = "D:"; mountpoint = "D:"; usage = none }
    ∷ []

disks_test : length (disk_rows [] parts) ≡ 1
unfolding disk_rows
disks_test = refl

abbrev counters : Dict String (ℕ × ℕ)
counters = ("C:", (5, 6)) ∷ []

insert_snapshot-collect_example :
    (metric_rows
        (insert_snapshot (collect_disk (some counters) parts) second_boot_time 1 crashed).1
        "metrics_disk"
      ≡ metric_rows crashed "metrics_disk"
        ++ map (stored second_boot_time 1) (map (row_of counters) (where_rows has_size parts)))
    × (metric_rows
          (insert_snapshot (collect_processes (some infos)) second_boot_time 1 crashed).1
          "metrics_process"
        ≡ metric_rows crashed "metrics_process"
          ++ map
              (stored second_boot_time 1)
              (map process_row (merged_processes (accessible infos))))
insert_snapshot-collect_example =
    insert_snapshot-collect counters parts infos second_boot_time 1 crashed

-- The device of a partition on Windows ends in a backslash, so that the key is empty.
device_test : io_of counters "C:\\" ≡ none
unfolding io_of get split_text
device_test = refl
