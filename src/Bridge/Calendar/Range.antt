-- ===== src/Bridge/Calendar/Range.antt =====
-- The range of `DaysFromCivil`, also off the calendar: months and days from 0 to 99.
use capacity_agent.Base.Range.{Within, +ℤ-Within, -ℤ-Within, Within-mono}
use capacity_agent.Base.{
  ℕ, zero, suc, ◌+◌, ◌*◌, ◌/◌, ◌%◌, ◌<◌, ◌≡◌, refl, ◌⊎◌, inl, inr, leb, Bool-cases, arith,
}
use capacity_agent.Base.Int.{pos, negsuc, ◌-ℤ◌, ◌*ℤ◌}
use capacity_agent.Bridge.Calendar.{
  days_from_civil, march_days, day_of_year, era_of, to_u32, to_i32, day_of_era,
}

-- What an unsigned day of the year may be: a small number, or -1 for day 0 of March.
abbrev IsDayOfYear : ℕ → Type 0
IsDayOfYear doy = (doy < 5000) ⊎ (doy ≡ 4294967295)

day_of_year-IsDayOfYear : (m d : ℕ) → m < 100 → d < 100 → IsDayOfYear (day_of_year m d)
unfolding day_of_year
day_of_year-IsDayOfYear m d a b = ground arith

era_days : (r doy : ℕ) → r < 400 → IsDayOfYear doy → Within 200000 (to_i32 (day_of_era r doy))
unfolding to_i32 day_of_era ◌-ℤ◌
era_days r doy h (inl k) = ground arith
era_days r doy h (inr e) = rw e (ground arith)

eras :
    (n : ℕ)
    → n < 10000
    → (era_of (pos n) *ℤ pos 146097 ≡ pos (n / 400 * 146097))
      × (to_u32 (pos n -ℤ era_of (pos n) *ℤ pos 400) ≡ n % 400)
unfolding era_of to_u32 ◌-ℤ◌ ◌*ℤ◌
eras n h = (ground arith, ground arith)

march_days-Within :
    (n doy : ℕ) → n < 10000 → IsDayOfYear doy → Within 5000000 (march_days (pos n) doy)
unfolding march_days
march_days-Within n doy h k =
    rw ((eras n h).0, (eras n h).1)
      (Within-mono _ 5000000 _ (omega arith) (
        -ℤ-Within (3652425 + 200000) 719468 _ (pos 719468)
          (+ℤ-Within 3652425 200000 (pos (n / 400 * 146097)) _ (omega arith)
            (era_days (n % 400) doy (omega arith) k))
          (omega arith)))

march_days_before-Within : (doy : ℕ) → IsDayOfYear doy → Within 5000000 (march_days (negsuc 0) doy)
unfolding march_days
march_days_before-Within doy k =
    let rest : to_u32 (negsuc 0 -ℤ era_of (negsuc 0) *ℤ pos 400) ≡ 399 =
      unfold era_of to_u32 ◌-ℤ◌ ◌*ℤ◌ in refl in
    let span : era_of (negsuc 0) *ℤ pos 146097 ≡ negsuc 146096 = unfold era_of ◌*ℤ◌ ◌-ℤ◌ in refl in
    rw (rest, span)
      (Within-mono _ 5000000 _ (omega arith) (
        -ℤ-Within (146097 + 200000) 719468 _ (pos 719468)
          (+ℤ-Within 146097 200000 (negsuc 146096) _ (omega arith)
            (era_days 399 doy (omega arith) k))
          (omega arith)))

pub days_from_civil-Within :
    (y m d : ℕ) → y < 10000 → m < 100 → d < 100 → Within 5000000 (days_from_civil (pos y) m d)
unfolding days_from_civil
days_from_civil-Within y m d a b c = elim (Bool-cases (leb m 2)) [
  | inl low ↦ rw low (before y a)
  | inr high ↦ rw (high, back_none) (march_days-Within y _ a doy)
]
  where
    doy : IsDayOfYear (day_of_year m d)
    doy = day_of_year-IsDayOfYear m d b c

    back_none : pos y -ℤ pos 0 ≡ pos y
    back_none = unfold ◌-ℤ◌ in ground arith

    before : (y : ℕ) → y < 10000 → Within 5000000 (march_days (pos y -ℤ pos 1) (day_of_year m d))
    before zero a =
        let e : pos 0 -ℤ pos 1 ≡ negsuc 0 = unfold ◌-ℤ◌ in refl in
        rw e (march_days_before-Within _ doy)
    before (suc y) a =
        let e : pos (suc y) -ℤ pos 1 ≡ pos y = unfold ◌-ℤ◌ in ground arith in
        rw e (march_days-Within y _ (omega arith) doy)
