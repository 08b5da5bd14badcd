-- ===== src/Bridge/Timestamp/Format.antt =====
-- Timestamps as the bridge prints them, "YYYY-MM-DDTHH:MM:SS.mmm" and a time zone, read back by
-- `parse_iso8601_utc_ms`.
use capacity_agent.Base.{
  ℕ, suc, ◌+◌, ◌-◌, ◌*◌, ◌/◌, ◌%◌, ◌≤◌, ◌<◌, ◌≡◌, refl, ◌∙◌, Bool, true, false, ltb, some, [], ◌∷◌,
  if◌then◌else◌, Text, length, drop, ap, arith,
}
use capacity_agent.Base.Int.{ℤ, pos, negsuc, ◌*ℤ◌}
use capacity_agent.Bridge.Timestamp.{
  is_digit, parse_digits, parse_int, scan_fraction, fraction, pad_ms, time_zone, zone_offset,
  has_separators, epoch_ms, parse_iso8601_utc_ms,
}

-- The digit of `n` for ones.
pub digit : ℕ → ℕ
digit n = b'0' + n % 10

abbrev pub two : ℕ → Text → Text
two n rest = digit (n / 10) ∷ digit n ∷ rest

abbrev pub three : ℕ → Text → Text
three n rest = digit (n / 100) ∷ two n rest

abbrev pub four : ℕ → Text → Text
four n rest = digit (n / 1000) ∷ three n rest

pub record Fields : Type 0 where
  pub year : ℕ
  pub month : ℕ
  pub day : ℕ
  pub hour : ℕ
  pub minute : ℕ
  pub second : ℕ
  pub millisecond : ℕ

-- The values that the digits have room for.
pub record Fits (t : Fields) : Type 0 where
  pub year_in : t.year < 10000
  pub month_in : t.month < 100
  pub day_in : t.day < 100
  pub hour_in : t.hour < 100
  pub minute_in : t.minute < 100
  pub second_in : t.second < 100
  pub millisecond_in : t.millisecond < 1000

abbrev pub print : Fields → Text → Text
print t zone = four t.year (
    b'-'
    ∷ two t.month (
        b'-'
        ∷ two t.day (
            b'T'
            ∷ two t.hour
                (b':' ∷ two t.minute (b':' ∷ two t.second (b'.' ∷ three t.millisecond zone))))))

abbrev pub utc : Text
utc = b'Z' ∷ []

-- "+HH:MM" or "-HH:MM".
abbrev pub offset : Bool → ℕ → ℕ → Text
offset ahead h m = (if ahead then b'+' else b'-') ∷ two h (b':' ∷ two m [])

is_digit-digit : (n : ℕ) → is_digit (digit n) ≡ true
unfolding is_digit digit
is_digit-digit n = ground arith

parse_digits-digit :
    (n : ℕ) (rest : Text) (left v : ℕ)
    → parse_digits (digit n ∷ rest) (suc left) v ≡ parse_digits rest left (v * 10 + n % 10)
unfolding parse_digits
parse_digits-digit n rest left v =
    rw (is_digit-digit n)
      (ap (λ k. parse_digits rest left (v * 10 + k)) (unfold digit in omega arith))

parse_two : (n : ℕ) (rest : Text) → n < 100 → parse_digits (two n rest) 2 0 ≡ some n
parse_two n rest h =
    parse_digits-digit (n / 10) _ 1 0
    ∙ parse_digits-digit n rest 0 _
    ∙ (unfold parse_digits in ap some (omega arith))

parse_four : (n : ℕ) (rest : Text) → n < 10000 → parse_digits (four n rest) 4 0 ≡ some n
parse_four n rest h =
    parse_digits-digit (n / 1000) _ 3 0
    ∙ parse_digits-digit (n / 100) _ 2 _
    ∙ parse_digits-digit (n / 10) _ 1 _
    ∙ parse_digits-digit n rest 0 _
    ∙ (unfold parse_digits in ap some (omega arith))

parse_int-fits :
    (text : Text) (off len : ℕ)
    → off + len ≤ length text
    → parse_int text off len ≡ parse_digits (drop off text) len 0
unfolding parse_int
parse_int-fits text off len h =
    let fits : ltb (length text) (off + len) ≡ false = ground arith in rw fits

-- What may follow the digits of the fraction.
abbrev pub NoDigit : Text → Type 0
NoDigit [] = Unit {0}
NoDigit (c ∷ text) = is_digit c ≡ false

scan_fraction-digit :
    (n : ℕ) (rest : Text) (ms k : ℕ)
    → k < 3
    → scan_fraction (digit n ∷ rest) ms k ≡ scan_fraction rest (ms * 10 + n % 10) (k + 1)
unfolding scan_fraction
scan_fraction-digit n rest ms k h =
    let few : ltb k 3 ≡ true = ground arith in
    let value : digit n - b'0' ≡ n % 10 = unfold digit in omega arith in
    rw (is_digit-digit n, few, value)

scan_fraction-stop :
    (rest : Text) (ms k : ℕ)
    → NoDigit rest
    → scan_fraction rest ms k ≡ record { rest = rest; millisecond = ms; ms_digits = k }
unfolding scan_fraction
scan_fraction-stop [] ms k h = refl
scan_fraction-stop (c ∷ rest) ms k h = rw h

fraction-three :
    (n : ℕ) (rest : Text)
    → n < 1000
    → NoDigit rest
    → fraction (b'.' ∷ three n rest) ≡ record { rest = rest; millisecond = n; ms_digits = 3 }
unfolding fraction
fraction-three n rest h stop =
    let hundreds = 0 * 10 + n / 100 % 10 in
    let tens = hundreds * 10 + n / 10 % 10 in
    scan_fraction-digit (n / 100) (two n rest) 0 0 (omega arith)
    ∙ scan_fraction-digit (n / 10) (digit n ∷ rest) hundreds 1 (omega arith)
    ∙ scan_fraction-digit n rest tens 2 (omega arith)
    ∙ scan_fraction-stop rest (tens * 10 + n % 10) 3 stop
    ∙ ap (λ k. record { rest = rest; millisecond = k; ms_digits = 3 }) (omega arith)

-- A text that stands for a time zone: it begins with no digit, and is read as `seconds`.
pub record IsZone (zone : Text) (seconds : ℤ) : Type 0 where
  pub no_digit : NoDigit zone
  pub reads : time_zone zone ≡ some seconds

abbrev pub instant : Fields → ℤ → ℤ
instant t seconds = epoch_ms t.year t.month t.day t.hour t.minute t.second t.millisecond seconds

print-has_separators : (t : Fields) (zone : Text) → has_separators (print t zone) ≡ true
unfolding has_separators
print-has_separators t zone = refl

read_four :
    (text : Text) (off n : ℕ) (rest : Text)
    → off + 4 ≤ length text
    → drop off text ≡ four n rest
    → n < 10000
    → parse_int text off 4 ≡ some n
read_four text off n rest room e h =
    parse_int-fits text off 4 room ∙ ap (λ s. parse_digits s 4 0) e ∙ parse_four n rest h

read_two :
    (text : Text) (off n : ℕ) (rest : Text)
    → off + 2 ≤ length text
    → drop off text ≡ two n rest
    → n < 100
    → parse_int text off 2 ≡ some n
read_two text off n rest room e h =
    parse_int-fits text off 2 room ∙ ap (λ s. parse_digits s 2 0) e ∙ parse_two n rest h

-- A timestamp of four-digit year, two-digit month, day, hour, minute and second and three-digit
-- millisecond, with a time zone that is read as `seconds`, is read back as the instant that its
-- fields name. (No field is checked against the calendar.)
pub parse_iso8601-print :
    (t : Fields) (zone : Text) (seconds : ℤ)
    → Fits t
    → IsZone zone seconds
    → parse_iso8601_utc_ms (print t zone) ≡ some (instant t seconds)
unfolding parse_iso8601_utc_ms
parse_iso8601-print t zone seconds f z =
    let text = print t zone in
    let long : ltb (length text) 19 ≡ false = ground arith in
    rw
      (
        long,
        print-has_separators t zone,
        read_four text 0 t.year _ (omega arith) refl f.year_in,
        read_two text 5 t.month _ (omega arith) refl f.month_in,
        read_two text 8 t.day _ (omega arith) refl f.day_in,
        read_two text 11 t.hour _ (omega arith) refl f.hour_in,
        read_two text 14 t.minute _ (omega arith) refl f.minute_in,
        read_two text 17 t.second _ (omega arith) refl f.second_in,
        fraction-three t.millisecond zone f.millisecond_in z.no_digit,
        z.reads,
      )
      (unfold pad_ms in refl)

pub utc-IsZone : IsZone utc (pos 0)
utc-IsZone = record { no_digit = unfold is_digit in refl; reads = unfold time_zone in refl }

abbrev pub signed_seconds : Bool → ℕ → ℕ → ℤ
signed_seconds ahead h m = (if ahead then pos 1 else negsuc 0) *ℤ pos (h * 3600 + m * 60)

zone_offset-two :
    (sign : ℤ) (h m : ℕ)
    → h < 100
    → m < 100
    → zone_offset sign (two h (b':' ∷ two m [])) ≡ some (sign *ℤ pos (h * 3600 + m * 60))
unfolding zone_offset
zone_offset-two sign h m p q =
    rw
      (
        read_two (two h (b':' ∷ two m [])) 0 h _ (omega arith) refl p,
        read_two (two m []) 0 m _ (omega arith) refl q,
      )
      refl

-- "+HH:MM" and "-HH:MM" are read as that offset in seconds.
pub offset-IsZone :
    (ahead : Bool) (h m : ℕ)
    → h < 100
    → m < 100
    → IsZone (offset ahead h m) (signed_seconds ahead h m)
offset-IsZone true h m p q = record {
  no_digit = unfold is_digit in refl;
  reads = unfold time_zone in zone_offset-two (pos 1) h m p q;
}
offset-IsZone false h m p q = record {
  no_digit = unfold is_digit in refl;
  reads = unfold time_zone in zone_offset-two (negsuc 0) h m p q;
}
