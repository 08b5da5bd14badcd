-- ===== src/Bridge/Calendar.antt =====
-- `DaysFromCivil` of apps/host_agent/src/core/bridge_message_parser.cpp, with the wrap-around of its
-- `unsigned` arithmetic written out and `int` and `std::int64_t` as integers.
pub mod Count
pub mod Range
use capacity_agent.Base.{
  ℕ, zero, suc, ◌+◌, ◌-◌, ◌*◌, ◌/◌, ◌%◌, ◌≤◌, ◌<◌, ◌≡◌, refl, Bool, true, false, not, ltb, leb,
  ◌==◌, if◌then◌else◌, arith,
}
use capacity_agent.Base.Int.{ℤ, pos, negsuc, pos_part, neg_part, ◌+ℤ◌, ◌-ℤ◌, ◌*ℤ◌, ltb_ℤ}

abbrev pub u32_mod : ℕ
u32_mod = 4294967296

-- C++ division of an `int` by a positive constant: it rounds towards 0.
unfoldable pub trunc_div : ℤ → ℕ → ℤ
trunc_div (pos n) d = pos (n / d)
trunc_div (negsuc n) d = pos 0 -ℤ pos (suc n / d)

-- `static_cast<unsigned>(int)`.
unfoldable pub to_u32 : ℤ → ℕ
to_u32 (pos n) = n % u32_mod
to_u32 (negsuc n) = (u32_mod - 1 - n % u32_mod) % u32_mod

-- `static_cast<int>(unsigned)`: two's complement.
unfoldable pub to_i32 : ℕ → ℤ
to_i32 n = if ltb n 2147483648 then pos n else pos n -ℤ pos u32_mod

unfoldable pub era_of : ℤ → ℤ
unfolding trunc_div
era_of year = trunc_div (if ltb_ℤ year (pos 0) then year -ℤ pos 399 else year) 400

unfoldable pub day_of_year : ℕ → ℕ → ℕ
day_of_year month day =
    let shifted = (month + (if ltb 2 month then u32_mod - 3 else 9)) % u32_mod in
    (((153 * shifted) % u32_mod + 2) % u32_mod / 5 + day + u32_mod - 1) % u32_mod

unfoldable pub day_of_era : ℕ → ℕ → ℕ
day_of_era year_of_era doy =
    (year_of_era * 365 + year_of_era / 4 + u32_mod - year_of_era / 100 + doy) % u32_mod

-- The day count from a year that begins in March and a day of that year.
unfoldable pub march_days : ℤ → ℕ → ℤ
march_days y doy =
    let era = era_of y in
    let year_of_era = to_u32 (y -ℤ era *ℤ pos 400) in
    era *ℤ pos 146097 +ℤ to_i32 (day_of_era year_of_era doy) -ℤ pos 719468

unfoldable pub days_from_civil : ℤ → ℕ → ℕ → ℤ
days_from_civil year month day =
    march_days (year -ℤ (if leb month 2 then pos 1 else pos 0)) (day_of_year month day)
