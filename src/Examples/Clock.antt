-- ===== src/Examples/Clock.antt =====
-- Dates and timestamps: apps/host_agent/src/core/bridge_message_parser.cpp.
use mathlib.Core.Path.{refl}
use capacity_agent.Base.{◌+◌, ◌-◌, ◌^◌, ◌≡◌, codes, some, true, arith}
use capacity_agent.Base.Int.{ℤ, pos, ◌+ℤ◌, ◌-ℤ◌, ◌*ℤ◌}
use capacity_agent.Base.Range.{Within}
use capacity_agent.Bridge.Calendar.{
  days_from_civil, march_days, day_of_year, era_of, to_u32, day_of_era, to_i32,
}
use capacity_agent.Bridge.Calendar.Count.{
  days_before_year, days_before_month, days_from_civil-eq_count,
}
use capacity_agent.Bridge.Timestamp.{
  parse_iso8601_utc_ms, parse_int, has_separators, fraction, pad_ms, time_zone, epoch_ms,
}
use capacity_agent.Bridge.Timestamp.Format.{Fields, Fits, print, offset, signed_seconds}
use capacity_agent.Bridge.Timestamp.Instant.{InCalendar, local_ms, parse_iso8601-local_ms}
use capacity_agent.Bridge.Timestamp.Bounds.{parse_iso8601-Within}

epoch_test : parse_iso8601_utc_ms (codes "1970-01-01T00:00:00Z") ≡ some (pos 0)
unfolding parse_iso8601_utc_ms parse_int has_separators fraction pad_ms time_zone epoch_ms
    days_from_civil march_days day_of_year era_of to_u32 day_of_era to_i32 ◌+ℤ◌ ◌-ℤ◌ ◌*ℤ◌
epoch_test = refl

offset_test :
    parse_iso8601_utc_ms (codes "2026-03-28T11:02:00.1000000+01:00") ≡ some (pos 1774692120100)
unfolding parse_iso8601_utc_ms parse_int has_separators fraction pad_ms time_zone epoch_ms
    days_from_civil march_days day_of_year era_of to_u32 day_of_era to_i32 ◌+ℤ◌ ◌-ℤ◌ ◌*ℤ◌
offset_test = refl

days_from_civil-eq_count_example :
    days_from_civil (pos 2026) 3 28 +ℤ pos 719528
    ≡ pos (days_before_year 2026 + days_before_month 2026 3 + (28 - 1))
days_from_civil-eq_count_example =
    days_from_civil-eq_count 2026 3 28 (omega arith) (omega arith) (omega arith) (omega arith)

parse_iso8601-Within_example : Within (2 ^ 53) (pos 1774692120100)
parse_iso8601-Within_example =
    parse_iso8601-Within (codes "2026-03-28T11:02:00.1000000+01:00") (pos 1774692120100) offset_test

abbrev release : Fields
release = record {
  year = 2026;
  month = 3;
  day = 28;
  hour = 11;
  minute = 2;
  second = 0;
  millisecond = 100;
}

release-Fits : Fits release
release-Fits = record {
  year_in = omega arith;
  month_in = omega arith;
  day_in = omega arith;
  hour_in = omega arith;
  minute_in = omega arith;
  second_in = omega arith;
  millisecond_in = omega arith;
}

release-InCalendar : InCalendar release
release-InCalendar = record {
  month_from = omega arith;
  month_to = omega arith;
  day_from = omega arith;
  day_to = omega arith;
}

parse_iso8601-local_ms_example :
    (z : ℤ) × (parse_iso8601_utc_ms (print release (offset true 1 0)) ≡ some z)
    × (z +ℤ signed_seconds true 1 0 *ℤ pos 1000 +ℤ pos 62167219200000 ≡ pos (local_ms release))
parse_iso8601-local_ms_example =
    parse_iso8601-local_ms release true 1 0 release-Fits release-InCalendar (omega arith)
      (omega arith)
