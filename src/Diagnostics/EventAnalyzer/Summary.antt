-- ===== src/Diagnostics/EventAnalyzer/Summary.antt =====
-- `summarize`, diagnostics/event_analyzer.py.
use pc_diagnostic_agent.Prelude.{ℕ, ◌+◌, Bool, List, [], ◌∷◌, ◌++◌, ltb}
use pc_diagnostic_agent.Prelude.Dict.{Dict, get_or, put}
use pc_diagnostic_agent.Storage.Rows.{Event}
use pc_diagnostic_agent.Diagnostics.EventAnalyzer.Category.{
  Category, category_eq, kernel_power, bugcheck, whea, disk, display, shutdown_clean,
  shutdown_unexpected,
}
use pc_diagnostic_agent.Diagnostics.EventAnalyzer.Classify.{classify_event}

-- The two dictionaries that the loop of `summarize` fills.
pub record Tally : Type 0 where
  pub counts : Dict Category ℕ
  pub by_category : Dict Category (List Event)

-- The body of the loop.
unfoldable pub tally_event : Tally → Event → Tally
tally_event t ev =
    let cat = classify_event ev.fields in
    record {
      counts = put t.counts cat (get_or t.counts cat 0 + 1);
      by_category = put t.by_category cat (get_or t.by_category cat [] ++ ev ∷ []);
    }

unfoldable pub tally_events : Tally → List Event → Tally
tally_events t [] = t
tally_events t (ev ∷ events) = tally_events (tally_event t ev) events

pub record Summary : Type 0 where
  pub counts : Dict Category ℕ
  pub kernel_power_count : ℕ
  pub bugcheck_count : ℕ
  pub whea_count : ℕ
  pub disk_error_count : ℕ
  pub display_error_count : ℕ
  pub clean_shutdown : Bool
  pub unexpected_shutdown_event : Bool
  pub kernel_power_detected : Bool
  pub bugcheck_detected : Bool
  pub whea_events : List Event
  pub disk_events : List Event
  pub display_events : List Event
  pub kernel_power_events : List Event
  pub bugcheck_events : List Event

unfoldable pub summary_of : Tally → Summary
summary_of t = record {
  counts = t.counts;
  kernel_power_count = get_or t.counts kernel_power 0;
  bugcheck_count = get_or t.counts bugcheck 0;
  whea_count = get_or t.counts whea 0;
  disk_error_count = get_or t.counts disk 0;
  display_error_count = get_or t.counts display 0;
  clean_shutdown = ltb 0 (get_or t.counts shutdown_clean 0);
  unexpected_shutdown_event = ltb 0 (get_or t.counts shutdown_unexpected 0);
  kernel_power_detected = ltb 0 (get_or t.counts kernel_power 0);
  bugcheck_detected = ltb 0 (get_or t.counts bugcheck 0);
  whea_events = get_or t.by_category whea [];
  disk_events = get_or t.by_category disk [];
  display_events = get_or t.by_category display [];
  kernel_power_events = get_or t.by_category kernel_power [];
  bugcheck_events = get_or t.by_category bugcheck [];
}

unfoldable pub summarize : List Event → Summary
summarize events = summary_of (tally_events (record { counts = []; by_category = [] }) events)
