-- ===== src/Bridge/Timestamp/Bounds.antt =====
-- The range of the results of `ParseIso8601UtcMs`.
use capacity_agent.Base.Range.{Within, +ℤ-Within, -ℤ-Within, *ℤ-Within, Within-mono}
use capacity_agent.Bridge.Calendar.Range.{days_from_civil-Within}
use capacity_agent.Bridge.Timestamp.Fields.{
  parse_int_below, millisecond_below, time_zone-Within, max_offset,
}
use mathlib.Core.Path.{subst}
use capacity_agent.Base.{
  ℕ, ◌+◌, ◌-◌, ◌*◌, ◌^◌, ◌<◌, ◌≡◌, inl, inr, ltb, Option, some, Text, length, drop, Bool-cases,
  arith,
}
use capacity_agent.Base.Options.{◌>>=◌, some_inj, >>=-eq-some}
use capacity_agent.Base.Int.{ℤ, pos}
use capacity_agent.Bridge.Timestamp.{
  parse_int, fraction, pad_ms, time_zone, has_separators, epoch_ms, parse_iso8601_utc_ms,
}

epoch_ms-Within :
    (year month day hour minute second millisecond : ℕ) (tz : ℤ)
    → year < 10000
    → month < 100
    → day < 100
    → hour < 100
    → minute < 100
    → second < 100
    → millisecond < 1000
    → Within max_offset tz
    → Within (2 ^ 53) (epoch_ms year month day hour minute second millisecond tz)
unfolding epoch_ms
epoch_ms-Within y mo d h mi s ms tz a b c e f g i z = Within-mono _ (2 ^ 53) _ (omega arith) (
    +ℤ-Within ((5000000 * 86400 + 360000 + 6000 + 100 + max_offset) * 1000) 1000 _ (pos ms)
      (*ℤ-Within (5000000 * 86400 + 360000 + 6000 + 100 + max_offset) 1000 _ (
        -ℤ-Within (5000000 * 86400 + 360000 + 6000 + 100) max_offset _ tz
          (+ℤ-Within (5000000 * 86400 + 360000 + 6000) 100 _ (pos s)
            (+ℤ-Within (5000000 * 86400 + 360000) 6000 _ (pos (mi * 60))
              (+ℤ-Within (5000000 * 86400) 360000 _ (pos (h * 3600))
                (*ℤ-Within 5000000 86400 _ (days_from_civil-Within y mo d a b c)) (omega arith))
              (omega arith))
            (omega arith))
          z))
      (omega arith))

-- The chain of `ParseInt` calls and the time zone, once the text has passed the first tests.
abbrev parse_fields : Text → Option ℤ
parse_fields text = do
  year ← parse_int text 0 4
  month ← parse_int text 5 2
  day ← parse_int text 8 2
  hour ← parse_int text 11 2
  minute ← parse_int text 14 2
  second ← parse_int text 17 2
  let frac = fraction (drop 19 text)
  let millisecond = pad_ms (3 - frac.ms_digits) frac.millisecond
  tz ← time_zone frac.rest
  some (epoch_ms year month day hour minute second millisecond tz)

fields : (text : Text) (z : ℤ) → parse_fields text ≡ some z → Within (2 ^ 53) z
fields text z e0 =
    let (y, ey, e1) = >>=-eq-some (parse_int text 0 4) _ e0 in
    let (mo, emo, e2) = >>=-eq-some (parse_int text 5 2) _ e1 in
    let (d, ed, e3) = >>=-eq-some (parse_int text 8 2) _ e2 in
    let (h, eh, e4) = >>=-eq-some (parse_int text 11 2) _ e3 in
    let (mi, emi, e5) = >>=-eq-some (parse_int text 14 2) _ e4 in
    let (s, es, e6) = >>=-eq-some (parse_int text 17 2) _ e5 in
    let (tz, etz, e7) = >>=-eq-some (time_zone (fraction (drop 19 text)).rest) _ e6 in
    let at_most =
      epoch_ms-Within y mo d h mi s _ tz (parse_int_below text 0 4 y ey)
        (parse_int_below text 5 2 mo emo) (parse_int_below text 8 2 d ed)
        (parse_int_below text 11 2 h eh) (parse_int_below text 14 2 mi emi)
        (parse_int_below text 17 2 s es) (millisecond_below (drop 19 text))
        (time_zone-Within _ tz etz) in
    subst (Within (2 ^ 53)) (some_inj e7) at_most

-- Each accepted timestamp lies at most 2 ^ 53 milliseconds from 1970, before or after: it fits
-- `std::int64_t`, and the conversion to `double` with which the API prints it is exact.
pub parse_iso8601-Within :
    (text : Text) (z : ℤ) → parse_iso8601_utc_ms text ≡ some z → Within (2 ^ 53) z
unfolding parse_iso8601_utc_ms
parse_iso8601-Within text z e = elim (Bool-cases (ltb (length text) 19)) [
  | inl short ↦ absurd (cc (rw (short, parse_iso8601_utc_ms) at e))
  | inr long ↦ elim (Bool-cases (has_separators text)) [
    | inl good ↦ fields text z (rw (long, good, parse_iso8601_utc_ms) at e)
    | inr bad ↦ absurd (cc (rw (long, bad, parse_iso8601_utc_ms) at e))
  ]
]
