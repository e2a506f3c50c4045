-- ===== src/Diagnostics/HangDetector.antt =====
-- diagnostics/hang_detector.py: how the previous session most likely ended.
pub mod Modes
pub mod Gap
use pc_diagnostic_agent.Prelude.{
  ℕ, ◌-◌, ◌*◌, Bool, true, false, Option, none, some, leb, if◌then◌else◌,
}
use pc_diagnostic_agent.Storage.Rows.{Time, seconds, Level, low, medium, high}
use pc_diagnostic_agent.Diagnostics.CrashDetector.{Crash}

pub record TerminationInference : Type 0 where
  pub probable_normal_shutdown : Bool
  pub probable_crash : Bool
  pub probable_hard_hang : Bool
  pub probable_power_loss : Bool
  pub confidence : Level
  pub hang_gap_seconds : Option Time

-- `TerminationInference()`.
abbrev pub no_inference : TerminationInference
no_inference = record {
  probable_normal_shutdown = false;
  probable_crash = false;
  probable_hard_hang = false;
  probable_power_loss = false;
  confidence = low;
  hang_gap_seconds = none;
}

-- `max(0.0, reboot_timestamp - last)`, if there was any activity.
abbrev pub activity_gap : Option Time → Time → Option Time
activity_gap none reboot_timestamp = none
activity_gap (some last) reboot_timestamp = some (reboot_timestamp - last)

-- The branch on the gap, where Kernel-Power 41 is present. The interval is in seconds.
unfoldable pub infer_from_gap : TerminationInference → Option Time → ℕ → TerminationInference
infer_from_gap result none collection_interval = record result {
  probable_hard_hang = true;
  confidence = low;
}
infer_from_gap result (some gap) collection_interval =
    if leb (seconds (collection_interval * 5)) gap
    then record result { probable_hard_hang = true; confidence = high }
    else if leb (seconds (collection_interval * 2)) gap
    then record result { probable_hard_hang = true; confidence = medium }
    else record result { probable_power_loss = true; confidence = low }

unfoldable pub infer_termination : Crash → Option Time → Time → ℕ → TerminationInference
unfolding infer_from_gap
infer_termination crash last_activity_timestamp reboot_timestamp collection_interval =
    if crash.clean_shutdown
    then record no_inference { probable_normal_shutdown = true; confidence = high }
    else if crash.bugcheck_detected
    then record no_inference { probable_crash = true; confidence = high }
    else if crash.unexpected_shutdown
    then (let gap = activity_gap last_activity_timestamp reboot_timestamp in
        let result = record no_inference { hang_gap_seconds = gap } in
        if crash.kernel_power_detected
        then infer_from_gap result gap collection_interval
        else record result { probable_hard_hang = true; confidence = low })
    else no_inference
