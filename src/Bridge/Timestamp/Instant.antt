-- ===== src/Bridge/Timestamp/Instant.antt =====
-- The instant of a timestamp, counted in milliseconds from 0000-01-01 with the Gregorian leap rule.
use capacity_agent.Base.{ℕ, ◌+◌, ◌-◌, ◌*◌, ◌≤◌, ◌<◌, ◌≡◌, ap, Bool, some, arith}
use capacity_agent.Base.Int.{
  ℤ, pos, negsuc, pos_part, neg_part, ◌+ℤ◌, ◌-ℤ◌, ◌*ℤ◌, +ℤ_parts, int_laws,
}
use capacity_agent.Bridge.Calendar.{days_from_civil}
use capacity_agent.Bridge.Calendar.Count.{
  days_before_year, days_before_month, days_from_civil-eq_count,
}
use capacity_agent.Bridge.Timestamp.{epoch_ms, parse_iso8601_utc_ms}
use capacity_agent.Bridge.Timestamp.Format.{
  Fields, Fits, print, offset, signed_seconds, instant, offset-IsZone, parse_iso8601-print,
}

*ℤ_parts :
    (z : ℤ) (k : ℕ)
    → pos_part (z *ℤ pos k) + neg_part z * k ≡ neg_part (z *ℤ pos k) + pos_part z * k
unfolding ◌*ℤ◌
*ℤ_parts (pos n) k = ground arith
*ℤ_parts (negsuc n) k = ground arith

-- Milliseconds since 0000-01-01, without the time zone.
pub local_ms : Fields → ℕ
local_ms t =
    (days_before_year t.year + days_before_month t.year t.month + (t.day - 1)) * 86400000
    + t.hour * 3600000
    + t.minute * 60000
    + t.second * 1000
    + t.millisecond

-- A month from 1 to 12 and a day from 1 to 31.
pub record InCalendar (t : Fields) : Type 0 where
  pub month_from : 1 ≤ t.month
  pub month_to : t.month ≤ 12
  pub day_from : 1 ≤ t.day
  pub day_to : t.day ≤ 31

scaled :
    (days s : ℤ) (n h mi sec ms : ℕ)
    → days +ℤ pos 719528 ≡ pos n
    → ((days *ℤ pos 86400 +ℤ pos (h * 3600) +ℤ pos (mi * 60) +ℤ pos sec -ℤ s) *ℤ pos 1000 +ℤ pos ms)
        +ℤ s *ℤ pos 1000
        +ℤ pos 62167219200000
      ≡ pos (n * 86400000 + h * 3600000 + mi * 60000 + sec * 1000 + ms)
scaled days s n h mi sec ms e =
    let total = days *ℤ pos 86400 +ℤ pos (h * 3600) +ℤ pos (mi * 60) +ℤ pos sec -ℤ s in
    let p : pos_part (days +ℤ pos 719528) ≡ n = ap pos_part e in
    let q : neg_part (days +ℤ pos 719528) ≡ 0 = ap neg_part e in
    let parts = +ℤ_parts days (pos 719528) in
    omega (int_laws, *ℤ_parts days 86400, *ℤ_parts s 1000, *ℤ_parts total 1000)

instant-local_ms :
    (t : Fields) (s : ℤ)
    → InCalendar t
    → instant t s +ℤ s *ℤ pos 1000 +ℤ pos 62167219200000 ≡ pos (local_ms t)
unfolding epoch_ms local_ms
instant-local_ms t s c =
    scaled (days_from_civil (pos t.year) t.month t.day) s _ t.hour t.minute t.second t.millisecond
      (days_from_civil-eq_count t.year t.month t.day c.month_from c.month_to c.day_from c.day_to)

-- A timestamp "YYYY-MM-DDTHH:MM:SS.mmm" with a time zone "+HH:MM" or "-HH:MM", whose fields fit their
-- digits, whose month is from 1 to 12 and whose day is from 1 to 31, is read as the instant that, moved by its zone, is
-- its date and time counted by the Gregorian leap rule: in milliseconds from 0000-01-01, which is
-- 62167219200000 ms before 1970.
pub parse_iso8601-local_ms :
    (t : Fields) (ahead : Bool) (hours minutes : ℕ)
    → Fits t
    → InCalendar t
    → hours < 100
    → minutes < 100
    → (z : ℤ) × (parse_iso8601_utc_ms (print t (offset ahead hours minutes)) ≡ some z)
      × (z +ℤ signed_seconds ahead hours minutes *ℤ pos 1000 +ℤ pos 62167219200000
          ≡ pos (local_ms t))
parse_iso8601-local_ms t ahead hours minutes f c h m =
    let s = signed_seconds ahead hours minutes in
    (
      instant t s,
      parse_iso8601-print t (offset ahead hours minutes) s f
          (offset-IsZone ahead hours minutes h m),
      instant-local_ms t s c,
    )
