-- ===== src/Diagnostics/CrashDetector.antt =====
-- diagnostics/crash_detector.py: the signals of how the previous session ended.
use pc_diagnostic_agent.Prelude.{Bool, not, ◌&&◌, ◌||◌, Option, truthy}
use pc_diagnostic_agent.Diagnostics.EventAnalyzer.Summary.{Summary}

pub record Crash : Type 0 where
  pub bugcheck_detected : Bool
  pub kernel_power_detected : Bool
  pub unexpected_shutdown_event : Bool
  pub clean_shutdown : Bool
  pub unexpected_shutdown : Bool

unfoldable pub detect_crash : Summary → Option Bool → Crash
detect_crash summary previous_session_clean =
    let clean = truthy previous_session_clean in
    record {
      bugcheck_detected = summary.bugcheck_detected;
      kernel_power_detected = summary.kernel_power_detected;
      unexpected_shutdown_event = summary.unexpected_shutdown_event;
      clean_shutdown = clean;
      unexpected_shutdown =
          not clean && (summary.kernel_power_detected || summary.unexpected_shutdown_event);
    }
