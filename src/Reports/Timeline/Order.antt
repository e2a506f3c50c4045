-- ===== src/Reports/Timeline/Order.antt =====
-- What the timeline of a report holds, reports/report_generator.py.
use mathlib.Core.List.{Perm}
use pc_diagnostic_agent.Prelude.{min, ◌+◌, ◌≤◌, ◌≡◌, List, [], ◌∷◌, ◌++◌, map, length, All}
use pc_diagnostic_agent.Prelude.Dict.{Dict, get_or, nat_eq, string_eq}
use pc_diagnostic_agent.Prelude.Sort.{sort_by, up, Sorted}
use pc_diagnostic_agent.Storage.Rows.{Time, Value, MetricRow, Event}
use pc_diagnostic_agent.Agent.Config.{Config}
use pc_diagnostic_agent.Printed.{Cell, Line, say}
use pc_diagnostic_agent.Reports.Timeline.{Entry, event_entry}

module _ (start end : Time) where
  -- A time in the window, both ends included.
  abbrev pub InWindow : Time → Type 0
  InWindow t = (start ≤ t) × (t ≤ end)

-- A detail begins with the load of the processor.
abbrev pub ShowsCpu : Value → Line → Type 0
ShowsCpu (Value.num cpu) (Cell.str text ∷ Cell.rounded x ∷ rest) = (text ≡ "CPU ") × (x ≡ cpu)
ShowsCpu cpu detail = ⊥

-- Each sample has its own entry, at its time, with its load.
abbrev pub Shows : List MetricRow → List Entry → Type 0
Shows [] [] = Unit
Shows [] (e ∷ es) = ⊥
Shows (r ∷ rows) [] = ⊥
Shows (r ∷ rows) (e ∷ es) =
    (e.at ≡ r.timestamp)
    × (e.label ≡ say "Metrics")
    × ShowsCpu (get_or r.values "cpu_percent" Value.null) e.detail
    × Shows rows es

-- What a timeline shows of events and samples: with some later entries, those that are left out, it is the
-- entries of the events and one of its own for each sample, in the order of time, all in the window; and
-- entries are left out only behind the first 300.
pub record IsShown (start end : Time) (events : List Event) (samples : List MetricRow)
    (shown : List Entry) : Type 0 where
  pub rest : List Entry
  pub metrics : List Entry
  pub entries : Perm (shown ++ rest) (map event_entry events ++ metrics)
  pub each : Shows samples metrics
  pub order : Sorted (up (λ e. e.at)) (shown ++ rest)
  pub window : All (λ (e : Entry). InWindow start end e.at) (shown ++ rest)
  pub cut : length shown ≡ min 300 (length events + length samples)

abbrev sorted : List Event → List Entry → List Entry
sorted events metrics = sort_by (up (λ (x : Entry). x.at)) (map event_entry events ++ metrics)
