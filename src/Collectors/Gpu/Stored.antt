-- ===== src/Collectors/Gpu/Stored.antt =====
-- What the collectors of graphics cards and temperatures give is what the tables get: collectors/gpu.py,
-- collectors/temperature.py and `insert_snapshot` of storage/database.py.
use pc_diagnostic_agent.Prelude.{
  ℕ, ◌≡◌, refl, String, true, Option, none, some, List, [], ◌∷◌, ◌++◌, map, All,
}
use pc_diagnostic_agent.Prelude.Int.{ℤ}
use pc_diagnostic_agent.Prelude.Dict.{Dict, get, get_or, string_eq}
use pc_diagnostic_agent.Storage.Tables.{Database}
use pc_diagnostic_agent.Storage.Schema.{metric_columns}
use pc_diagnostic_agent.Storage.Metrics.{metric_rows, bindable, select_columns, insert_snapshot}
use pc_diagnostic_agent.Storage.Metrics.Whole.{Fits, stored, insert_whole}
use pc_diagnostic_agent.Collectors.Processes.{text_value}
use pc_diagnostic_agent.Collectors.Gpu.{
  VideoController, Answer, Stats, stats_of, stats_for, memory_total, reading_value, bytes_value,
  gpu_row, video_controllers, collect_gpu, nvidia_temperatures, temperature_row,
  collect_temperature,
}

abbrev gpu_columns : List String
gpu_columns =
    "gpu_name" ∷ "utilization" ∷ "memory_used" ∷ "memory_total" ∷ "temperature_c" ∷ "driver_version"
    ∷ []

abbrev temperature_columns : List String
temperature_columns = "sensor" ∷ "temperature_c" ∷ []

gpu_table : metric_columns "metrics_gpu" ≡ some gpu_columns
unfolding metric_columns get
gpu_table = refl

temperature_table : metric_columns "metrics_temperature" ≡ some temperature_columns
unfolding metric_columns get
temperature_table = refl

text_value_binds : (o : Option String) → bindable (text_value o) ≡ true
unfolding bindable
text_value_binds none = refl
text_value_binds (some s) = refl

module _ (to_float : String → Option ℤ) where
  reading_value_binds : (o : Option ℤ) → bindable (reading_value to_float o) ≡ true
  unfolding bindable
  reading_value_binds none = refl
  reading_value_binds (some x) = refl

  bytes_value_binds : (o : Option ℤ) → bindable (bytes_value to_float o) ≡ true
  unfolding bindable
  bytes_value_binds none = refl
  bytes_value_binds (some x) = refl

  gpu_row-Fits :
      (stats : Dict String Stats) (card : VideoController)
      → Fits gpu_columns (gpu_row to_float stats card)
  unfolding gpu_row select_columns get_or
  gpu_row-Fits stats card =
      let s = stats_for to_float stats card.name in
      (
        refl,
        rw
            (
              text_value_binds card.name,
              reading_value_binds s.utilization,
              bytes_value_binds s.memory_used,
              bytes_value_binds (memory_total to_float card.adapter_ram s.memory_total),
              reading_value_binds s.temperature_c,
              text_value_binds card.driver_version,
            )
            refl,
      )

  gpu_rows-Fits :
      (stats : Dict String Stats) (cards : List VideoController)
      → All (Fits gpu_columns) (map (gpu_row to_float stats) cards)
  gpu_rows-Fits stats [] = tt
  gpu_rows-Fits stats (card ∷ cards) = (gpu_row-Fits stats card, gpu_rows-Fits stats cards)

  temperature_rows-Fits :
      (temps : Dict String ℤ)
      → All (Fits temperature_columns) (map (temperature_row to_float) temps)
  unfolding select_columns get_or bindable
  temperature_rows-Fits [] = tt
  temperature_rows-Fits ((name, t) ∷ temps) = ((refl, refl), temperature_rows-Fits temps)

-- What the collectors of the graphics cards and of the temperatures give is stored whole: a row for each
-- card that PowerShell lists, whether or not nvidia-smi answers, and one for each name that nvidia-smi gives
-- a number for, with every column as the collector gave it.
insert_snapshot-collect_gpu :
    (to_float : String → Option ℤ) (answer : Answer) (stats_lines : Option (List String))
    (lines : List String) (now session_id : ℕ) (db : Database)
    → (metric_rows
          (insert_snapshot (collect_gpu to_float answer stats_lines) now session_id db).1
          "metrics_gpu"
        ≡ metric_rows db "metrics_gpu"
          ++ map
              (stored now session_id)
              (map (gpu_row to_float (stats_of to_float stats_lines)) (video_controllers answer)))
      × (metric_rows
            (insert_snapshot (collect_temperature to_float (some lines)) now session_id db).1
            "metrics_temperature"
          ≡ metric_rows db "metrics_temperature"
            ++ map
                (stored now session_id)
                (map (temperature_row to_float) (nvidia_temperatures to_float [] lines)))
unfolding collect_gpu collect_temperature
insert_snapshot-collect_gpu to_float answer stats_lines lines now session_id db = (
  insert_whole "metrics_gpu" gpu_columns
      (map (gpu_row to_float (stats_of to_float stats_lines)) (video_controllers answer)) now
      session_id db gpu_table
      (gpu_rows-Fits to_float (stats_of to_float stats_lines) (video_controllers answer)),
  insert_whole "metrics_temperature" temperature_columns
      (map (temperature_row to_float) (nvidia_temperatures to_float [] lines)) now session_id db
      temperature_table (temperature_rows-Fits to_float (nvidia_temperatures to_float [] lines)),
)
