-- ===== src/Diagnostics/HangDetector/Modes.antt =====
-- Which modes of termination `infer_termination` gives, diagnostics/hang_detector.py.
use pc_diagnostic_agent.Prelude.{ℕ, ◌+◌, ◌≡◌, Bool, ◌||◌, Option, some, none, arith, if◌then◌else◌}
use pc_diagnostic_agent.Storage.Rows.{Time}
use pc_diagnostic_agent.Diagnostics.CrashDetector.{Crash}
use pc_diagnostic_agent.Diagnostics.HangDetector.{TerminationInference, infer_termination}

abbrev pub one_if : Bool → ℕ
one_if b = if b then 1 else 0

-- How many modes an inference names.
abbrev pub mode_count : TerminationInference → ℕ
mode_count r =
    one_if r.probable_normal_shutdown
    + one_if r.probable_crash
    + one_if r.probable_hard_hang
    + one_if r.probable_power_loss

-- Whether the signals say how the session ended.
abbrev pub is_conclusive : Crash → Bool
is_conclusive crash = crash.clean_shutdown || crash.bugcheck_detected || crash.unexpected_shutdown

-- Exactly one mode is named where there is a clean shutdown, a BugCheck or an unexpected shutdown,
-- and none where there is none of them.
pub infer_termination-one_mode :
    (crash : Crash) (last : Option Time) (reboot : Time) (interval : ℕ)
    → mode_count (infer_termination crash last reboot interval) ≡ one_if (is_conclusive crash)
unfolding infer_termination
infer_termination-one_mode crash none reboot interval = ground arith
infer_termination-one_mode crash (some t) reboot interval = ground arith
