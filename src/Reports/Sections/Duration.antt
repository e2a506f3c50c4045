-- ===== src/Reports/Sections/Duration.antt =====
-- What the three numbers of a printed length of time say, reports/report_generator.py.
use pc_diagnostic_agent.Prelude.{◌+◌, ◌*◌, ◌<◌, ◌≡◌, arith}
use pc_diagnostic_agent.Prelude.Int.{ℤ, pos, negsuc, ◌+ℤ◌}
use pc_diagnostic_agent.Reports.Sections.{duration_parts, HoursMinutesSeconds}

-- The number of seconds that hours, minutes and seconds make.
abbrev pub in_seconds : HoursMinutesSeconds → ℤ
in_seconds (pos h, m, s) = pos (h * 3600 + m * 60 + s)
in_seconds (negsuc h, m, s) = negsuc (h * 3600 + 3599) +ℤ pos (m * 60 + s)

-- The hours, minutes and seconds of a length of time make it up again, with fewer than 60 minutes and
-- fewer than 60 seconds; of a negative one the hours are rounded down.
pub duration_parts-in_seconds :
    (seconds : ℤ)
    → (in_seconds (duration_parts seconds) ≡ seconds)
      × ((duration_parts seconds).1 < 60)
      × ((duration_parts seconds).2 < 60)
unfolding duration_parts ◌+ℤ◌
duration_parts-in_seconds (pos n) = ground arith
duration_parts-in_seconds (negsuc n) = ground arith
