-- ===== src/Bridge/Calendar/Count.antt =====
-- `DaysFromCivil` against a count of the days of the Gregorian calendar, year by year and month by
-- month.
use capacity_agent.Base.{
  ℕ, zero, suc, ◌+◌, ◌-◌, ◌*◌, ◌/◌, ◌%◌, ◌≤◌, ◌<◌, ◌≡◌, refl, Bool, false, not, ◌&&◌, ◌||◌, ◌∙◌, ap,
  leb, ◌==◌, if◌then◌else◌, arith,
}
use capacity_agent.Base.Int.{ℤ, pos, negsuc, ◌+ℤ◌, ◌-ℤ◌, ◌*ℤ◌, int_laws}
use capacity_agent.Bridge.Calendar.{
  days_from_civil, march_days, day_of_year, era_of, to_u32, to_i32, day_of_era,
}

pub is_leap : ℕ → Bool
is_leap y = (y % 4 == 0) && (not (y % 100 == 0) || (y % 400 == 0))

pub days_in_month : ℕ → ℕ → ℕ
unfolding is_leap
days_in_month y m =
    if (m == 11) || (m == 9) || (m == 6) || (m == 4)
    then 30
    else if m == 2
    then (if is_leap y then 29 else 28)
    else 31

pub days_in_year : ℕ → ℕ
unfolding is_leap
days_in_year y = if is_leap y then 366 else 365

-- The days from 0000-01-01 to the first day of year `y`.
pub days_before_year : ℕ → ℕ
days_before_year zero = 0
days_before_year (suc y) = days_before_year y + days_in_year y

-- The days of year `y` before its month `m`.
pub days_before_month : ℕ → ℕ → ℕ
days_before_month year zero = 0
days_before_month year (suc zero) = 0
days_before_month year (suc (suc m)) = days_in_month year (suc m) + days_before_month year (suc m)

days_before_year-closed :
    (y : ℕ) → days_before_year (suc y) ≡ suc y * 365 + y / 4 - y / 100 + y / 400 + 1
unfolding days_before_year days_in_year
days_before_year-closed zero = ground arith
days_before_year-closed (suc y) = ground (arith, days_before_year-closed y)

*ℤ_pos : (a b : ℕ) → pos a *ℤ pos b ≡ pos (a * b)
unfolding ◌*ℤ◌
*ℤ_pos a b = ground arith

era_of_nonneg : (n : ℕ) → era_of (pos n) ≡ pos (n / 400)
unfolding era_of
era_of_nonneg n = ground arith

year_of_era_nonneg : (n : ℕ) → to_u32 (pos n -ℤ pos (n / 400 * 400)) ≡ n % 400
unfolding to_u32 ◌-ℤ◌
year_of_era_nonneg n = ground arith

day_of_era_small :
    (r doy : ℕ)
    → r < 400
    → doy ≤ 500
    → to_i32 (day_of_era r doy) ≡ pos (r * 365 + r / 4 - r / 100 + doy)
unfolding to_i32 day_of_era
day_of_era_small r doy h k = ground arith

march_days_nonneg :
    (n doy : ℕ)
    → doy ≤ 500
    → march_days (pos n) doy +ℤ pos 719468 ≡ pos (n * 365 + n / 4 - n / 100 + n / 400 + doy)
unfolding march_days
march_days_nonneg n doy k =
    rw
      (
        era_of_nonneg n,
        *ℤ_pos,
        *ℤ_pos,
        year_of_era_nonneg n,
        day_of_era_small (n % 400) doy (omega arith) k,
      )
      (omega int_laws)

-- The year that begins in March before year 0.
march_days_before : (doy : ℕ) → doy ≤ 500 → march_days (negsuc 0) doy +ℤ pos 719834 ≡ pos doy
unfolding march_days
march_days_before doy k =
    let era : era_of (negsuc 0) ≡ negsuc 0 = unfold era_of ◌-ℤ◌ in refl in
    let rest : to_u32 (negsuc 0 -ℤ negsuc 0 *ℤ pos 400) ≡ 399 = unfold to_u32 ◌-ℤ◌ ◌*ℤ◌ in refl in
    let span : negsuc 0 *ℤ pos 146097 ≡ negsuc 146096 = unfold ◌*ℤ◌ in refl in
    rw (era, rest, span, day_of_era_small 399 doy (omega arith) k) (omega int_laws)

leap_day : ℕ → ℕ
leap_day y = if is_leap y then 1 else 0

-- The leap years up to `suc y` are one more, or no more, than those up to `y`.
leap_day_count :
    (y : ℕ) → suc y / 4 + suc y / 400 + y / 100 ≡ y / 4 + y / 400 + suc y / 100 + leap_day (suc y)
unfolding leap_day is_leap
leap_day_count y = ground arith

day_of_year_low : (m d : ℕ) → 1 ≤ m → m ≤ 2 → 1 ≤ d → d ≤ 31 → day_of_year m d ≡ 274 + m * 31 + d
unfolding day_of_year
day_of_year_low m d a b c e = ground arith

day_of_year_high :
    (k d : ℕ)
    → k ≤ 9
    → 1 ≤ d
    → d ≤ 31
    → day_of_year (suc (suc (suc k))) d + 1 ≡ (153 * k + 2) / 5 + d
unfolding day_of_year
day_of_year_high k d a b c = ground arith

month_length :
    (y k : ℕ)
    → k ≤ 8
    → (153 * k + 2) / 5 + days_in_month y (suc (suc (suc k))) ≡ (153 * suc k + 2) / 5
unfolding days_in_month
month_length y k h = ground arith

month_start :
    (y k : ℕ)
    → k ≤ 9
    → days_before_month y (suc (suc (suc k))) ≡ (153 * k + 2) / 5 + 59 + leap_day y
unfolding days_before_month leap_day
month_start y zero h = unfold days_in_month in ground arith
month_start y (suc k) h =
    omega (arith, month_start y k (omega arith), month_length y k (omega arith))

-- To move the origin of a count.
shift_origin : (z : ℤ) (a b n k : ℕ) → z +ℤ pos a ≡ pos n → n + b ≡ k + a → z +ℤ pos b ≡ pos k
unfolding ◌+ℤ◌
shift_origin z a b n k h e = ground arith

low_month :
    (y m d : ℕ)
    → 1 ≤ m
    → m ≤ 2
    → 1 ≤ d
    → d ≤ 31
    → march_days (pos y -ℤ pos 1) (day_of_year m d) +ℤ pos 719528
      ≡ pos (days_before_year y + (m - 1) * 31 + (d - 1))
unfolding days_before_year
low_month zero m d a b c e =
    let back : pos 0 -ℤ pos 1 ≡ negsuc 0 = unfold ◌-ℤ◌ in refl in
    rw (back, day_of_year_low m d a b c e)
      (shift_origin _ 719834 719528 _ _ (march_days_before _ (omega arith)) (omega arith))
low_month (suc y) m d a b c e =
    let back : pos (suc y) -ℤ pos 1 ≡ pos y = unfold ◌-ℤ◌ in ground arith in
    rw (back, day_of_year_low m d a b c e)
      (shift_origin _ 719468 719528 _ _ (march_days_nonneg y _ (omega arith))
        (omega (arith, days_before_year-closed y)))

high_start :
    (y k d : ℕ)
    → k ≤ 9
    → 1 ≤ d
    → d ≤ 31
    → days_before_year y + leap_day y ≡ y * 365 + y / 4 - y / 100 + y / 400 + 1
    → march_days (pos y -ℤ pos 0) (day_of_year (suc (suc (suc k))) d) +ℤ pos 719528
      ≡ pos (days_before_year y + days_before_month y (suc (suc (suc k))) + (d - 1))
high_start y k d a b c count =
    let same : pos y -ℤ pos 0 ≡ pos y = unfold ◌-ℤ◌ in ground arith in
    rw same (
      shift_origin _ 719468 719528 _ _
        (march_days_nonneg y _ (omega (arith, day_of_year_high k d a b c)))
        (omega (arith, day_of_year_high k d a b c, month_start y k a, count)))

high_month :
    (y k d : ℕ)
    → k ≤ 9
    → 1 ≤ d
    → d ≤ 31
    → march_days (pos y -ℤ pos 0) (day_of_year (suc (suc (suc k))) d) +ℤ pos 719528
      ≡ pos (days_before_year y + days_before_month y (suc (suc (suc k))) + (d - 1))
high_month zero k d a b c =
    high_start zero k d a b c (unfold days_before_year leap_day is_leap in refl)
high_month (suc y) k d a b c =
    high_start (suc y) k d a b c (omega (arith, days_before_year-closed y, leap_day_count y))

later_month :
    (y k d : ℕ)
    → k ≤ 9
    → 1 ≤ d
    → d ≤ 31
    → days_from_civil (pos y) (suc (suc (suc k))) d +ℤ pos 719528
      ≡ pos (days_before_year y + days_before_month y (suc (suc (suc k))) + (d - 1))
unfolding days_from_civil
later_month y k d a b c =
    let late : leb (suc (suc (suc k))) 2 ≡ false = ground arith in rw late (high_month y k d a b c)

-- For every year from 0 on and every month from 1 to 12, `days_from_civil` is the number of
-- days from 1970-01-01 to the given one: 719528 more than it is the number of days that come
-- before it since 0000-01-01, counted year by year and month by month with the Gregorian leap rule.
pub days_from_civil-eq_count :
    (y m d : ℕ)
    → 1 ≤ m
    → m ≤ 12
    → 1 ≤ d
    → d ≤ 31
    → days_from_civil (pos y) m d +ℤ pos 719528
      ≡ pos (days_before_year y + days_before_month y m + (d - 1))
unfolding days_from_civil days_before_month days_in_month
days_from_civil-eq_count y zero d a b c e = absurd (omega arith)
days_from_civil-eq_count y (suc zero) d a b c e =
    low_month y 1 d (omega arith) (omega arith) c e ∙ ap pos (omega arith)
days_from_civil-eq_count y (suc (suc zero)) d a b c e =
    low_month y 2 d (omega arith) (omega arith) c e ∙ ap pos (ground arith)
days_from_civil-eq_count y (suc (suc (suc k))) d a b c e = later_month y k d (omega arith) c e
