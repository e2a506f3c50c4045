-- ===== src/Diagnostics/HangDetector/Gap.antt =====
-- How the inference depends on the time without activity, diagnostics/hang_detector.py.
use pc_diagnostic_agent.Prelude.{ℕ, ◌≤◌, Option, some, none, arith}
use pc_diagnostic_agent.Storage.Rows.{Time}
use pc_diagnostic_agent.Diagnostics.CrashDetector.{Crash}
use pc_diagnostic_agent.Diagnostics.HangDetector.{infer_termination}
use pc_diagnostic_agent.Diagnostics.HangDetector.Modes.{one_if}
use pc_diagnostic_agent.Diagnostics.Diagnosis.Findings.{severity_rank}

-- A later reboot after the same last activity never turns a hang into a power loss, and never lowers
-- the confidence.
pub infer_termination_mono :
    (crash : Crash) (last : Option Time) (reboot later : Time) (interval : ℕ)
    → reboot ≤ later
    → (one_if (infer_termination crash last reboot interval).probable_hard_hang
        ≤ one_if (infer_termination crash last later interval).probable_hard_hang)
      × (one_if (infer_termination crash last later interval).probable_power_loss
          ≤ one_if (infer_termination crash last reboot interval).probable_power_loss)
      × (severity_rank (infer_termination crash last reboot interval).confidence
          ≤ severity_rank (infer_termination crash last later interval).confidence)
unfolding infer_termination severity_rank
infer_termination_mono crash none reboot later interval h =
    (ground arith, ground arith, ground arith)
infer_termination_mono crash (some t) reboot later interval h =
    (ground arith, ground arith, ground arith)
