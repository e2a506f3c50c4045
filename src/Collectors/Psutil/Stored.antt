-- ===== src/Collectors/Psutil/Stored.antt =====
-- What the collectors give is what the tables get: collectors/*.py and `insert_snapshot` of
-- storage/database.py.
use pc_diagnostic_agent.Prelude.{
  ap, ◌∙◌, ltb, where_rows, false, Bool, arith, ℕ, ◌≡◌, refl, String, true, Option, none, some,
  List, [], ◌∷◌, ◌++◌, map, All, ◌==◌, Bool-cases, Option-cases, inl, inr,
}
use pc_diagnostic_agent.Prelude.Dict.{Dict, get, get_or, string_eq}
use pc_diagnostic_agent.Storage.Rows.{Value}
use pc_diagnostic_agent.Storage.Schema.{metric_columns}
use pc_diagnostic_agent.Storage.Tables.{Database}
use pc_diagnostic_agent.Storage.Metrics.{metric_rows, bindable, select_columns, insert_snapshot}
use pc_diagnostic_agent.Collectors.Psutil.{
  collect_disk, disk_rows, disk_row, io_of, Partition, DiskUsage, io_value,
}
use pc_diagnostic_agent.Collectors.Processes.{
  collect_processes, process_row, Process, ProcInfo, merged_processes, accessible, text_value,
}
use pc_diagnostic_agent.Storage.Metrics.Whole.{Fits, stored, insert_whole}

abbrev disk_columns : List String
disk_columns =
    "device" ∷ "mountpoint" ∷ "total" ∷ "used" ∷ "free" ∷ "percent" ∷ "read_bytes" ∷ "write_bytes"
    ∷ "read_latency_ms" ∷ "write_latency_ms" ∷ "disk_model" ∷ "disk_type" ∷ []

disk_table : metric_columns "metrics_disk" ≡ some disk_columns
unfolding metric_columns get
disk_table = refl

process_table :
    metric_columns "metrics_process"
    ≡ some ("pid" ∷ "name" ∷ "cpu_percent" ∷ "memory_bytes" ∷ "exe_path" ∷ [])
unfolding metric_columns get
process_table = refl

io_value_binds : (io : Option (ℕ × ℕ)) (field : ℕ × ℕ → ℕ) → bindable (io_value io field) ≡ true
unfolding bindable
io_value_binds none field = refl
io_value_binds (some io) field = refl

text_value_binds : (o : Option String) → bindable (text_value o) ≡ true
unfolding bindable
text_value_binds none = refl
text_value_binds (some s) = refl

-- Whether a partition has a size, and its row, if it has.
abbrev pub has_size : Partition → Bool
has_size part = elim part.usage [ none ↦ false | some usage ↦ ltb 0 usage.total ]

abbrev pub row_of : Dict String (ℕ × ℕ) → Partition → Dict String Value
row_of counters part = elim part.usage [ none ↦ [] | some usage ↦ disk_row counters part usage ]

disk_rows-sized :
    (counters : Dict String (ℕ × ℕ)) (parts : List Partition)
    → disk_rows counters parts ≡ map (row_of counters) (where_rows has_size parts)
unfolding disk_rows
disk_rows-sized counters [] = refl
disk_rows-sized counters (part ∷ parts) =
    let rest = disk_rows-sized counters parts in
    elim (Option-cases part.usage) [
      | inl e ↦ rw (disk_rows, e) rest
      | inr (usage, e) ↦ elim (Bool-cases (ltb 0 usage.total)) [
        | inl sized ↦
            let big : (usage.total == 0) ≡ false = ground arith in
            rw (disk_rows, e, sized, big) (ap (λ l. disk_row counters part usage ∷ l) rest)
        | inr empty ↦
            let none_left : (usage.total == 0) ≡ true = ground arith in
            rw (disk_rows, e, empty, none_left) rest
      ]
    ]

disk_row-Fits :
    (counters : Dict String (ℕ × ℕ)) (part : Partition) (usage : DiskUsage)
    → Fits disk_columns (disk_row counters part usage)
unfolding select_columns bindable get_or
disk_row-Fits counters part usage =
    let io = io_of counters part.device in
    (refl, rw (io_value_binds io (λ io. io.0), io_value_binds io (λ io. io.1)) refl)

disk_rows-Fits :
    (counters : Dict String (ℕ × ℕ)) (parts : List Partition)
    → All (Fits disk_columns) (disk_rows counters parts)
unfolding disk_rows
disk_rows-Fits counters [] = tt
disk_rows-Fits counters (part ∷ parts) =
    let rest = disk_rows-Fits counters parts in
    elim (Option-cases part.usage) [
      | inl e ↦ rw (disk_rows, e) rest
      | inr (usage, e) ↦ elim (Bool-cases (usage.total == 0)) [
        | inl z ↦ rw (disk_rows, e, z) rest
        | inr z ↦ rw (disk_rows, e, z) (disk_row-Fits counters part usage, rest)
      ]
    ]

abbrev process_columns : List String
process_columns = "pid" ∷ "name" ∷ "cpu_percent" ∷ "memory_bytes" ∷ "exe_path" ∷ []

process_rows-Fits : (procs : List Process) → All (Fits process_columns) (map process_row procs)
unfolding select_columns bindable get_or
process_rows-Fits [] = tt
process_rows-Fits (p ∷ procs) = (
  (refl, rw (text_value_binds p.name, text_value_binds p.exe_path) refl),
  process_rows-Fits procs,
)

-- What the collectors of the disks and of the processes give is stored whole: after the snapshot the
-- table has, behind its rows, one row for each partition whose usage is known and has a size, in their
-- order, and one for each process that was selected, with every column as the collector gave it.
pub insert_snapshot-collect :
    (counters : Dict String (ℕ × ℕ)) (parts : List Partition) (infos : List (Option ProcInfo))
    (now session_id : ℕ) (db : Database)
    → (metric_rows
          (insert_snapshot (collect_disk (some counters) parts) now session_id db).1
          "metrics_disk"
        ≡ metric_rows db "metrics_disk"
          ++ map (stored now session_id) (map (row_of counters) (where_rows has_size parts)))
      × (metric_rows
            (insert_snapshot (collect_processes (some infos)) now session_id db).1
            "metrics_process"
          ≡ metric_rows db "metrics_process"
            ++ map (stored now session_id) (map process_row (merged_processes (accessible infos))))
unfolding collect_disk collect_processes
insert_snapshot-collect counters parts infos now session_id db = (
  insert_whole "metrics_disk" disk_columns (disk_rows counters parts) now session_id db disk_table
        (disk_rows-Fits counters parts)
      ∙ ap (λ l. metric_rows db "metrics_disk" ++ map (stored now session_id) l)
          (disk_rows-sized counters parts),
  insert_whole "metrics_process" process_columns
      (map process_row (merged_processes (accessible infos))) now session_id db process_table
      (process_rows-Fits (merged_processes (accessible infos))),
)
