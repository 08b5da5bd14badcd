-- ===== src/Bridge/Timestamp.antt =====
-- `ParseInt` and `ParseIso8601UtcMs` of apps/host_agent/src/core/bridge_message_parser.cpp. A
-- position in the text, once past the fixed fields, is the rest of the text from there on.
pub mod Format
pub mod Instant
pub mod Fields
pub mod Bounds
use capacity_agent.Base.{
  ℕ, zero, suc, ◌+◌, ◌-◌, ◌*◌, ◌≡◌, refl, Bool, false, not, ◌&&◌, ◌||◌, ltb, leb, ◌==◌, Option,
  none, some, [], ◌∷◌, if◌then◌else◌, Text, codes, length, get_elem?, drop,
}
use capacity_agent.Base.Options.{◌>>=◌}
use capacity_agent.Base.Int.{ℤ, pos, negsuc, ◌+ℤ◌, ◌-ℤ◌, ◌*ℤ◌}
use capacity_agent.Bridge.Calendar.{
  days_from_civil, march_days, day_of_year, era_of, to_u32, day_of_era, to_i32,
}

unfoldable pub is_digit : ℕ → Bool
is_digit c = leb b'0' c && leb c b'9'

-- The loop of `ParseInt` over the next `left` bytes.
unfoldable pub parse_digits : Text → ℕ → ℕ → Option ℕ
unfolding is_digit
parse_digits text zero value = some value
parse_digits [] (suc left) value = none
parse_digits (ch ∷ text) (suc left) value =
    let rest = parse_digits text left (value * 10 + (ch - b'0')) in
    if is_digit ch then rest else none

unfoldable pub parse_int : Text → ℕ → ℕ → Option ℕ
unfolding parse_digits
parse_int text offset len =
    if ltb (length text) (offset + len) then none else parse_digits (drop offset text) len 0

abbrev char_is : Text → ℕ → ℕ → Bool
char_is text i c = elim (get_elem? text i) [ none ↦ false | some ch ↦ ch == c ]

-- The separators of "YYYY-MM-DDTHH:MM:SS".
unfoldable pub has_separators : Text → Bool
has_separators text =
    char_is text 4 b'-'
    && char_is text 7 b'-'
    && char_is text 10 b'T'
    && char_is text 13 b':'
    && char_is text 16 b':'

pub record Fraction : Type 0 where
  pub rest : Text
  pub millisecond : ℕ
  pub ms_digits : ℕ

-- The loop over the digits behind the point: the first three count.
unfoldable pub scan_fraction : Text → ℕ → ℕ → Fraction
unfolding is_digit
scan_fraction [] ms n = record { rest = []; millisecond = ms; ms_digits = n }
scan_fraction (ch ∷ text) ms n =
    let more =
      scan_fraction text (if ltb n 3 then ms * 10 + (ch - b'0') else ms)
        (if ltb n 3 then n + 1 else n) in
    if is_digit ch then more else record { rest = ch ∷ text; millisecond = ms; ms_digits = n }

unfoldable pub fraction : Text → Fraction
unfolding scan_fraction
fraction [] = record { rest = []; millisecond = 0; ms_digits = 0 }
fraction (ch ∷ text) =
    if ch == b'.'
    then scan_fraction text 0 0
    else record { rest = ch ∷ text; millisecond = 0; ms_digits = 0 }

-- `while (ms_digits < 3)`, with the rounds left.
unfoldable pub pad_ms : ℕ → ℕ → ℕ
pad_ms zero ms = ms
pad_ms (suc left) ms = pad_ms left (ms * 10)

unfoldable pub skip_colon : Text → Text
skip_colon [] = []
skip_colon (ch ∷ text) = if ch == b':' then text else ch ∷ text

-- `pos != text.size()` is refused.
unfoldable pub at_end : Text → ℤ → Option ℤ
at_end [] v = some v
at_end (ch ∷ text) v = none

unfoldable pub zone_offset : ℤ → Text → Option ℤ
unfolding parse_int skip_colon at_end
zone_offset sign text = do
  tz_hour ← parse_int text 0 2
  let rest = skip_colon (drop 2 text)
  tz_minute ← parse_int rest 0 2
  at_end (drop 2 rest) (sign *ℤ (pos (tz_hour * 3600 + tz_minute * 60)))

-- The offset in seconds, from the time zone that must end the text.
unfoldable pub time_zone : Text → Option ℤ
unfolding zone_offset at_end
time_zone [] = none
time_zone (ch ∷ text) =
    if ch == b'Z'
    then at_end text (pos 0)
    else if (ch == b'+') || (ch == b'-')
    then zone_offset (if ch == b'+' then pos 1 else negsuc 0) text
    else none

unfoldable pub epoch_ms : ℕ → ℕ → ℕ → ℕ → ℕ → ℕ → ℕ → ℤ → ℤ
epoch_ms year month day hour minute second millisecond tz_offset_seconds =
    let days = days_from_civil (pos year) month day in
    let seconds =
      days *ℤ pos 86400
      +ℤ pos (hour * 3600)
      +ℤ pos (minute * 60)
      +ℤ pos second
      -ℤ tz_offset_seconds in
    seconds *ℤ pos 1000 +ℤ pos millisecond

unfoldable pub parse_iso8601_utc_ms : Text → Option ℤ
parse_iso8601_utc_ms text =
    if ltb (length text) 19 then none else if not (has_separators text) then none else do
      year ← parse_int text 0 4
      month ← parse_int text 5 2
      day ← parse_int text 8 2
      hour ← parse_int text 11 2
      minute ← parse_int text 14 2
      second ← parse_int text 17 2
      let frac = fraction (drop 19 text)
      let millisecond = pad_ms (3 - frac.ms_digits) frac.millisecond
      tz ← time_zone frac.rest
      some (epoch_ms year month day hour minute second millisecond tz)
