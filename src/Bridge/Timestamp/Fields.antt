-- ===== src/Bridge/Timestamp/Fields.antt =====
-- The range of each part of a timestamp that `ParseIso8601UtcMs` reads.
use capacity_agent.Base.Range.{Within}
use native.Mathlib.Nat.{mul-le-mul_right, pow-suc, pow-succ'}
use native.Mathlib.Numerals.{add-one}
use capacity_agent.Base.{
  ℕ, zero, suc, ◌+◌, ◌-◌, ◌*◌, ◌^◌, ◌≤◌, ◌<◌, ◌≡◌, ◌∙◌, inl, inr, Bool, true, false, ltb, ◌==◌,
  some, [], ◌∷◌, if◌then◌else◌, Text, length, drop, ◌||◌, Bool-cases, arith,
}
use capacity_agent.Base.Options.{>>=-eq-some}
use capacity_agent.Base.Int.{ℤ, pos, negsuc, ◌*ℤ◌}
use capacity_agent.Bridge.Timestamp.{
  is_digit, parse_digits, parse_int, scan_fraction, fraction, pad_ms, time_zone, zone_offset,
  skip_colon, at_end, Fraction,
}

parse_digits_below :
    (text : Text) (left v n : ℕ) → parse_digits text left v ≡ some n → n < (v + 1) * 10 ^ left
unfolding parse_digits is_digit
parse_digits_below text zero v n e = ground arith
parse_digits_below [] (suc left) v n e = cc
parse_digits_below (ch ∷ text) (suc left) v n e = elim (Bool-cases (is_digit ch)) [
  | inl yes' ↦
      step (ch - b'0') (unfold is_digit in ground arith)
        (parse_digits_below text left _ n (rw (yes', parse_digits) at e))
  | inr no' ↦ absurd (cc (rw (no', parse_digits) at e))
]
  where
    step : (d : ℕ) → d ≤ 9 → n < (v * 10 + d + 1) * 10 ^ left → n < (v + 1) * 10 ^ suc left
    step d h k = rw (pow-suc 10 left) (
        grind (
          arith,
          mul-le-mul_right {m = v * 10 + d + 1} {n = v * 10 + 10} (10 ^ left) (omega arith),
        ))

pub parse_int_below : (text : Text) (off len n : ℕ) → parse_int text off len ≡ some n → n < 10 ^ len
unfolding parse_int
parse_int_below text off len n e = elim (Bool-cases (ltb (length text) (off + len))) [
  | inl short ↦ absurd (cc (rw (short, parse_int) at e))
  | inr fits ↦ omega (arith, parse_digits_below (drop off text) len 0 n (rw (fits, parse_int) at e))
]

-- At most three digits count.
abbrev IsMs : Fraction → Type 0
IsMs f = (f.ms_digits ≤ 3) × (f.millisecond < 10 ^ f.ms_digits)

next_digit : (ms n d : ℕ) → ms < 10 ^ n → d ≤ 9 → ms * 10 + d < 10 ^ (n + 1)
next_digit ms n d h k = rw (add-one, pow-suc 10 n) (omega arith)

scan_fraction-IsMs : (text : Text) (ms n : ℕ) → n ≤ 3 → ms < 10 ^ n → IsMs (scan_fraction text ms n)
unfolding scan_fraction
scan_fraction-IsMs [] ms n h k = (h, k)
scan_fraction-IsMs (ch ∷ text) ms n h k = elim (Bool-cases (is_digit ch)) [
  | inl digit ↦ elim (Bool-cases (ltb n 3)) [
    | inl few ↦
        rw (digit, few)
          (scan_fraction-IsMs text (ms * 10 + (ch - b'0')) (n + 1) (ground arith)
            (next_digit ms n (ch - b'0') k (unfold is_digit in ground arith)))
    | inr full ↦ rw (digit, full) (scan_fraction-IsMs text ms n h k)
  ]
  | inr other ↦ rw other (h, k)
]

fraction-IsMs : (text : Text) → IsMs (fraction text)
unfolding fraction
fraction-IsMs [] = omega arith
fraction-IsMs (ch ∷ text) = ground (arith, scan_fraction-IsMs text 0 0)

pad_ms-eq : (left ms : ℕ) → pad_ms left ms ≡ ms * 10 ^ left
unfolding pad_ms
pad_ms-eq zero ms = omega arith
pad_ms-eq (suc left) ms = pad_ms-eq left (ms * 10) ∙ rw (pow-succ' 10 left) (omega arith)

pub millisecond_below :
    (text : Text) → pad_ms (3 - (fraction text).ms_digits) (fraction text).millisecond < 1000
millisecond_below text = padded _ _ (fraction-IsMs text).0 (fraction-IsMs text).1
  where
    padded : (d ms : ℕ) → d ≤ 3 → ms < 10 ^ d → pad_ms (3 - d) ms < 1000
    padded zero ms h k = rw (pad_ms-eq 3 ms) (omega arith)
    padded (suc zero) ms h k = rw (pad_ms-eq 2 ms) (omega arith)
    padded (suc (suc zero)) ms h k = rw (pad_ms-eq 1 ms) (omega arith)
    padded (suc (suc (suc zero))) ms h k = rw (pad_ms-eq 0 ms) (omega arith)
    padded (suc (suc (suc (suc d)))) ms h k = absurd (omega arith)

at_end-eq : (text : Text) (v z : ℤ) → at_end text v ≡ some z → v ≡ z
unfolding at_end
at_end-eq [] v z e = cc
at_end-eq (c ∷ text) v z e = cc

abbrev pub max_offset : ℕ
max_offset = 362340

signed :
    (ahead : Bool) (n : ℕ)
    → n ≤ max_offset
    → Within max_offset ((if ahead then pos 1 else negsuc 0) *ℤ pos n)
unfolding ◌*ℤ◌
signed true n h = ground arith
signed false n h = ground arith

zone_offset-Within :
    (ahead : Bool) (text : Text) (z : ℤ)
    → zone_offset (if ahead then pos 1 else negsuc 0) text ≡ some z
    → Within max_offset z
unfolding zone_offset
zone_offset-Within ahead text z e =
    let (h, eh, e') = >>=-eq-some (parse_int text 0 2) _ e in
    let rest = skip_colon (drop 2 text) in
    let (m, em, e'') = >>=-eq-some (parse_int rest 0 2) _ e' in
    let here = at_end-eq (drop 2 rest) _ z e'' in
    rw (← here) (
      signed ahead (h * 3600 + m * 60)
        (omega (arith, parse_int_below text 0 2 h eh, parse_int_below rest 0 2 m em)))

pub time_zone-Within : (text : Text) (z : ℤ) → time_zone text ≡ some z → Within max_offset z
unfolding time_zone
time_zone-Within [] z e = cc
time_zone-Within (ch ∷ text) z e = elim (Bool-cases (ch == b'Z')) [
  | inl utc ↦
      let here = at_end-eq text (pos 0) z (rw (utc, time_zone) at e) in rw (← here) (omega arith)
  | inr other ↦ elim (Bool-cases ((ch == b'+') || (ch == b'-'))) [
    | inl sign ↦ zone_offset-Within (ch == b'+') text z (rw (other, sign, time_zone) at e)
    | inr none' ↦ absurd (cc (rw (other, none', time_zone) at e))
  ]
]
