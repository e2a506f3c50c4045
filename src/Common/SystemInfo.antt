-- ===== src/Common/SystemInfo.antt =====
-- The inventory of the machine, common/system_info.py, the command that prints it and the section of a
-- report that shows it. What the system answers is an argument: none is an exception.
use pc_diagnostic_agent.Prelude.{
  ℕ, ◌+◌, ◌*◌, ◌/◌, ◌%◌, String, Option, none, some, List, [], ◌∷◌, ◌++◌, map, ltb, if◌then◌else◌,
  ◌≡◌, refl,
}
use text.Mathlib.Text.{◌==◌ as str_eq}
use pc_diagnostic_agent.Prelude.Dict.{Dict, get_or, string_eq}
use pc_diagnostic_agent.Storage.Rows.{Time}
use pc_diagnostic_agent.Printed.{Cell, Line, say}
use pc_diagnostic_agent.Reports.Sections.{Row}
use pc_diagnostic_agent.Cli.{Output}

-- Answers of the modules socket and platform.
pub record Platform : Type 0 where
  pub hostname : Option String
  pub platform : Option String
  pub system : String
  pub release : String
  pub version : String
  pub machine : String
  pub processor : String
  pub python_version : String

-- Answers of psutil: the memory in bytes, the counts of processors, which it may not know, and the boot
-- time. A maximal frequency, in thousandths of megahertz, is none where it is missing or zero, or the call raises.
pub record Psutil : Type 0 where
  pub total : Option ℕ
  pub logical : Option (Option ℕ)
  pub physical : Option (Option ℕ)
  pub max_frequency : Option ℕ
  pub boot_time : Option Time

-- `or`, for a text and a default.
abbrev or_text : Option String → String → String
or_text none default = default
or_text (some s) default = s

-- `platform.processor() or platform.machine()`.
abbrev brand : Platform → String
brand p = if str_eq p.processor "" then p.machine else p.processor

-- `_cpu_model`.
unfoldable pub cpu_model : Platform → Option ℕ → Line
cpu_model p none = say (brand p)
cpu_model p (some freq) =
    Cell.str (brand p) ∷ Cell.str " @ " ∷ Cell.gigahertz freq ∷ Cell.str " GHz" ∷ []

-- `round(total / 1024 ** 3, 2)` in hundredths: a half goes to the even one.
unfoldable pub total_ram_gb : ℕ → ℕ
total_ram_gb total =
    let q = total * 100 / 1073741824 in
    let r = total * 100 % 1073741824 * 2 in
    if ltb r 1073741824 then q else if ltb 1073741824 r then q + 1 else q + q % 2

abbrev count_line : Option ℕ → Line
count_line none = say "None"
count_line (some n) = Cell.count n ∷ []

-- The assignments of the block that an exception ends: those before the first that raises.
unfoldable pub until_error : List (String × Option Line) → Dict String Line
until_error [] = []
until_error ((key, none) ∷ entries) = []
until_error ((key, some value) ∷ entries) = (key, value) ∷ until_error entries

abbrev answered {ℓ} : {A : Type ℓ} → (A → Line) → Option A → Option Line
answered print none = none
answered print (some x) = some (print x)

-- The block on psutil; the module may be missing.
abbrev psutil_info : Platform → Option Psutil → Dict String Line
psutil_info p none = []
psutil_info p (some s) = until_error (
    ("total_ram_gb", answered (λ total. Cell.hundredths (total_ram_gb total) ∷ []) s.total)
    ∷ ("cpu_count_logical", answered count_line s.logical)
    ∷ ("cpu_count_physical", answered count_line s.physical)
    ∷ ("cpu_model", some (cpu_model p s.max_frequency))
    ∷ ("boot_time", answered (λ t. Cell.epoch t ∷ []) s.boot_time)
    ∷ [])

-- `collect_system_info`.
unfoldable pub collect_system_info : Platform → Option Psutil → Dict String Line
collect_system_info p s =
    ("hostname", say (or_text p.hostname "unknown"))
    ∷ ("platform", say (or_text p.platform p.system))
    ∷ ("machine", say p.machine)
    ∷ ("python_version", say p.python_version)
    ∷ ("os", say p.system)
    ∷ ("os_release", say p.release)
    ∷ ("os_version", say p.version)
    ∷ psutil_info p s

-- `cmd_info`.
unfoldable pub cmd_info : Dict String Line → Output
cmd_info info = record {
  lines = map (λ (entry : String × Line). Cell.str entry.0 ∷ Cell.str ": " ∷ entry.1) info;
  exit = 0;
}

-- `_system_info_section`.
unfoldable pub system_rows : Dict String Line → List Row
system_rows info =
    ("Hostname", get_or info "hostname" [])
    ∷ ("OS", get_or info "platform" [])
    ∷ ("CPU", get_or info "cpu_model" (say "unknown"))
    ∷ ("Logical CPUs", get_or info "cpu_count_logical" (say "unknown"))
    ∷ ("Physical CPUs", get_or info "cpu_count_physical" (say "unknown"))
    ∷ ("Total RAM", get_or info "total_ram_gb" (say "unknown") ++ say " GB")
    ∷ []

-- 16 GiB less a little: 15.87.
total_ram_gb_test : total_ram_gb 17_042_931_712 ≡ 1587
unfolding total_ram_gb
total_ram_gb_test = refl
