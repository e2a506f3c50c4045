-- ===== src/Collectors/Processes.antt =====
-- The collector of the top processes, collectors/processes.py. What psutil answers is the argument: none
-- where the iteration raises, and for each process none where it has gone or is not accessible.
pub mod Top
use pc_diagnostic_agent.Prelude.{ℕ, ◌*◌, String, Option, none, some, List, [], ◌∷◌, ◌++◌, map, take}
use pc_diagnostic_agent.Prelude.Int.{pos}
use pc_diagnostic_agent.Prelude.Dict.{Dict, put, nat_eq}
use pc_diagnostic_agent.Prelude.Sort.{sort_by, down}
use pc_diagnostic_agent.Storage.Rows.{Value, null, num, text}
use pc_diagnostic_agent.Storage.Metrics.{Snapshot}

-- `proc.info`. Percentages are in thousandths; `rss` is none where there is no memory_info.
pub record ProcInfo : Type 0 where
  pub pid : ℕ
  pub name : Option String
  pub cpu_percent : Option ℕ
  pub rss : Option ℕ
  pub exe : Option String

pub record Process : Type 0 where
  pub pid : ℕ
  pub name : Option String
  pub cpu_percent : ℕ
  pub memory_bytes : ℕ
  pub exe_path : Option String

-- `x or 0`.
abbrev pub or_zero : Option ℕ → ℕ
or_zero none = 0
or_zero (some n) = n

abbrev pub process_of : ProcInfo → Process
process_of info = record {
  pid = info.pid;
  name = info.name;
  cpu_percent = or_zero info.cpu_percent;
  memory_bytes = or_zero info.rss;
  exe_path = info.exe;
}

-- The loop over the processes.
unfoldable pub accessible : List (Option ProcInfo) → List Process
accessible [] = []
accessible (none ∷ infos) = accessible infos
accessible (some info ∷ infos) = process_of info ∷ accessible infos

-- `sorted(procs, key=…, reverse=True)[:TOP_N]`. TOP_N is 10.
unfoldable pub top : (Process → ℕ) → List Process → List Process
top key procs = take 10 (sort_by (down key) procs)

abbrev pub selected : List Process → List Process
selected procs = top (λ p. p.cpu_percent) procs ++ top (λ p. p.memory_bytes) procs

-- `{p["pid"]: p for p in …}`.
unfoldable pub by_pid : Dict ℕ Process → List Process → Dict ℕ Process
by_pid merged [] = merged
by_pid merged (p ∷ procs) = by_pid (put merged p.pid p) procs

unfoldable pub merged_processes : List Process → List Process
merged_processes procs = map (λ (e : ℕ × Process). e.1) (by_pid [] (selected procs))

abbrev pub text_value : Option String → Value
text_value none = null
text_value (some s) = text s

abbrev pub process_row : Process → Dict String Value
process_row p =
    ("pid", num (pos (p.pid * 1000)))
    ∷ ("name", text_value p.name)
    ∷ ("cpu_percent", num (pos p.cpu_percent))
    ∷ ("memory_bytes", num (pos (p.memory_bytes * 1000)))
    ∷ ("exe_path", text_value p.exe_path)
    ∷ []

unfoldable pub collect_processes : Option (List (Option ProcInfo)) → Snapshot
collect_processes none = ("metrics_process", []) ∷ []
collect_processes (some infos) =
    ("metrics_process", map process_row (merged_processes (accessible infos))) ∷ []
