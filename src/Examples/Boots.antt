-- ===== src/Examples/Boots.antt =====
-- The theorems on starts of the agent at concrete tables: diagnostics/boot_detector.py.
use pc_diagnostic_agent.Prelude.{◌≡◌, ◌≢◌, refl, true, false, none, some, [], ◌∷◌, arith}
use pc_diagnostic_agent.Storage.Rows.{hours}
use pc_diagnostic_agent.Storage.Sessions.{latest_session}
use pc_diagnostic_agent.Diagnostics.EventAnalyzer.Category.{kernel_power, bugcheck, shutdown_clean}
use pc_diagnostic_agent.Diagnostics.EventAnalyzer.Classify.{classify_event}
use pc_diagnostic_agent.Diagnostics.BootDetector.{detect_boot, same_boot}
use pc_diagnostic_agent.Diagnostics.BootDetector.Reboot.{is_restart}
use pc_diagnostic_agent.Diagnostics.BootDetector.Starts.{
  Again, detect_boot-Again, OpensSession, detect_boot-OpensSession,
}
use pc_diagnostic_agent.Diagnostics.BootDetector.Outcome.{logged, Outcome, detect_boot-Outcome}
use pc_diagnostic_agent.Examples.{
  crashed, clean_but_41, first_session, second_boot_time, session_with-IsValid, power_event,
}

pub latest_test : latest_session crashed ≡ some first_session
unfolding latest_session pc_diagnostic_agent.Prelude.Sort.sort_by
latest_test = refl

pub reboot_test : is_restart crashed second_boot_time ≡ false
unfolding latest_session same_boot pc_diagnostic_agent.Prelude.Sort.sort_by
reboot_test = refl

pub latest_clean_test : latest_session clean_but_41 ≡ some first_session
unfolding latest_session pc_diagnostic_agent.Prelude.Sort.sort_by
latest_clean_test = refl

pub reboot_clean_test : is_restart clean_but_41 second_boot_time ≡ false
unfolding latest_session pc_diagnostic_agent.Prelude.Sort.sort_by same_boot
reboot_clean_test = refl

pub not_zero : first_session.boot_time ≢ 0
not_zero = λ e. omega arith

detect_boot-Again_example :
    Again
      (hours 103)
      second_boot_time
      none
      (detect_boot second_boot_time (some second_boot_time) none crashed)
detect_boot-Again_example =
    detect_boot-Again second_boot_time (hours 103) second_boot_time none crashed
      (session_with-IsValid (power_event ∷ []))

detect_boot-OpensSession_example :
    OpensSession crashed second_boot_time second_boot_time
      (detect_boot second_boot_time (some second_boot_time) none crashed).0
      (detect_boot second_boot_time (some second_boot_time) none crashed).1
detect_boot-OpensSession_example =
    detect_boot-OpensSession second_boot_time second_boot_time none crashed
      (session_with-IsValid (power_event ∷ [])) reboot_test

detect_boot-Outcome_example :
    Outcome crashed first_session second_boot_time
      (detect_boot second_boot_time (some second_boot_time) none crashed).0
detect_boot-Outcome_example =
    detect_boot-Outcome second_boot_time second_boot_time none crashed first_session latest_test
      reboot_test not_zero

-- The events say that the session did not end cleanly.
outcome_test : logged crashed first_session second_boot_time kernel_power ≡ true
unfolding pc_diagnostic_agent.Diagnostics.EventAnalyzer.Category.same_category classify_event
outcome_test = refl
