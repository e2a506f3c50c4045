-- ===== src/Collectors/Gpu.antt =====
-- The collectors of graphics cards and temperatures, collectors/gpu.py and collectors/temperature.py.
-- What PowerShell and nvidia-smi answer is an argument, and so is Python's `float` of a text, which
-- gives a number in thousandths, or none where it raises.
pub mod Stored
use pc_diagnostic_agent.Prelude.{
  ℕ, zero, suc, ◌+◌, ◌-◌, ◌*◌, ◌/◌, String, Option, none, some, List, [], ◌∷◌, map, ◌>>=◌,
}
use Prim.Native.String.{◌++◌ as append}
use pc_diagnostic_agent.Prelude.Int.{ℤ, pos, negsuc}
use pc_diagnostic_agent.Prelude.Dict.{Dict, get, put, string_eq}
use pc_diagnostic_agent.Prelude.Text.{strip_text, split_text, Parts}
use pc_diagnostic_agent.Storage.Rows.{Value, null, num, text}
use pc_diagnostic_agent.Storage.Metrics.{Snapshot}
use pc_diagnostic_agent.Collectors.Processes.{text_value}

-- An item of the answer of PowerShell, if it is a dictionary: AdapterRAM is what `int` makes of it.
pub record VideoController : Type 0 where
  pub name : Option String
  pub driver_version : Option String
  pub adapter_ram : Option ℤ

-- The answer: nothing, a text that is no JSON, or a dictionary or a list. A JSON value of another kind
-- is not modelled.
pub data Answer : Type 0 where
  empty not_json : Answer
  one : VideoController → Answer
  many : List (Option VideoController) → Answer

-- The loop over the items, which skips what is no dictionary.
unfoldable pub dictionaries : List (Option VideoController) → List VideoController
dictionaries [] = []
dictionaries (none ∷ items) = dictionaries items
dictionaries (some item ∷ items) = item ∷ dictionaries items

unfoldable pub video_controllers : Answer → List VideoController
video_controllers Answer.empty = []
video_controllers Answer.not_json = []
video_controllers (Answer.one item) = item ∷ []
video_controllers (Answer.many items) = dictionaries items

pub record Stats : Type 0 where
  pub utilization : Option ℤ
  pub memory_used : Option ℤ
  pub memory_total : Option ℤ
  pub temperature_c : Option ℤ

-- `nvidia_stats.get(name, {})` of a card that is not there.
abbrev pub no_stats : Stats
no_stats = record {
  utilization = none;
  memory_used = none;
  memory_total = none;
  temperature_c = none;
}

-- `int(f * 1024 * 1024)` of thousandths, towards zero.
abbrev pub mb_of : ℤ → ℤ
mb_of (pos n) = pos (n * 1048576 / 1000)
mb_of (negsuc n) = elim (suc n * 1048576 / 1000) [ zero ↦ pos 0 | suc m ↦ negsuc m ]

module _ (to_float : String → Option ℤ) where
  unfoldable pub mb_to_bytes : String → Option ℤ
  mb_to_bytes value = do f ← to_float value; some (mb_of f)

  -- `[p.strip() for p in line.split(",")]`.
  unfoldable pub parts_of : String → Parts
  unfolding split_text strip_text
  parts_of line =
      let (part, parts) = split_text b',' line in (strip_text part, map strip_text parts)

  -- The stats of a line of five parts or more; a shorter one is skipped.
  abbrev pub add_line : Dict String Stats → Parts → Dict String Stats
  add_line stats (name, used ∷ memory ∷ total ∷ temperature ∷ rest) = put stats name (record {
    utilization = to_float used;
    memory_used = mb_to_bytes memory;
    memory_total = mb_to_bytes total;
    temperature_c = to_float temperature;
  })
  add_line stats _ = stats

  -- The loop over the lines of nvidia-smi.
  unfoldable pub nvidia_smi_stats : Dict String Stats → List String → Dict String Stats
  nvidia_smi_stats stats [] = stats
  nvidia_smi_stats stats (line ∷ lines) = nvidia_smi_stats (add_line stats (parts_of line)) lines

  -- The lines, or none where nvidia-smi is missing or fails.
  abbrev pub stats_of : Option (List String) → Dict String Stats
  stats_of none = []
  stats_of (some lines) = nvidia_smi_stats [] lines

  -- A reading, and a count of bytes.
  abbrev pub reading_value : Option ℤ → Value
  reading_value none = null
  reading_value (some x) = num x

  abbrev thousandths : ℤ → ℤ
  thousandths (pos n) = pos (n * 1000)
  thousandths (negsuc n) = negsuc (suc n * 1000 - 1)

  abbrev pub bytes_value : Option ℤ → Value
  bytes_value none = null
  bytes_value (some x) = num (thousandths x)

  -- `card.get("adapter_ram") or stats.get("memory_total")`.
  abbrev pub memory_total : Option ℤ → Option ℤ → Option ℤ
  memory_total none stats = stats
  memory_total (some (pos zero)) stats = stats
  memory_total (some x) stats = some x

  -- A card without a name has no stats, as each line has a name.
  abbrev pub stats_for : Dict String Stats → Option String → Stats
  stats_for stats none = no_stats
  stats_for stats (some name) = elim (get stats name) [ none ↦ no_stats | some s ↦ s ]

  unfoldable pub gpu_row : Dict String Stats → VideoController → Dict String Value
  gpu_row stats card =
      let s = stats_for stats card.name in
      ("gpu_name", text_value card.name)
      ∷ ("utilization", reading_value s.utilization)
      ∷ ("memory_used", bytes_value s.memory_used)
      ∷ ("memory_total", bytes_value (memory_total card.adapter_ram s.memory_total))
      ∷ ("temperature_c", reading_value s.temperature_c)
      ∷ ("driver_version", text_value card.driver_version)
      ∷ []

  unfoldable pub collect_gpu : Answer → Option (List String) → Snapshot
  collect_gpu answer lines =
      ("metrics_gpu", map (gpu_row (stats_of lines)) (video_controllers answer)) ∷ []

  -- A line of the temperatures: name and number; another line is skipped.
  abbrev pub add_temperature : Dict String ℤ → Parts → Dict String ℤ
  add_temperature temps (name, []) = temps
  add_temperature temps (name, value ∷ rest) = elim (to_float value) [
    | none ↦ temps
    | some t ↦ put temps name t
  ]

  unfoldable pub nvidia_temperatures : Dict String ℤ → List String → Dict String ℤ
  nvidia_temperatures temps [] = temps
  nvidia_temperatures temps (line ∷ lines) =
      nvidia_temperatures (add_temperature temps (parts_of line)) lines

  abbrev pub temperature_row : String × ℤ → Dict String Value
  temperature_row (name, t) = ("sensor", text (append "gpu:" name)) ∷ ("temperature_c", num t) ∷ []

  unfoldable pub collect_temperature : Option (List String) → Snapshot
  collect_temperature none = ("metrics_temperature", []) ∷ []
  collect_temperature (some lines) =
      ("metrics_temperature", map temperature_row (nvidia_temperatures [] lines)) ∷ []
