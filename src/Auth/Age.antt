-- ===== src/Auth/Age.antt =====
-- `calculateAgeYears` of packages/shared-utils/src/time.ts, with the fields of a date in UTC that
-- the language reads off an instant. A date is a number of days from 1 March of the year 0, so that
-- dates of birth before 1970 have a number too.
use Prim.Native.Nat.{◌/◌, ◌%◌}
use appforfixiyi.Common.{
  ℕ, ◌+◌, ◌-◌, ◌*◌, ◌≡◌, refl, Bool, true, false, ◌&&◌, ◌||◌, ◌==◌, ltb, leb, if◌then◌else◌,
}

-- Of 400 years, each from March on: the year, and the day in it.
abbrev pub year_of_era : ℕ → ℕ
year_of_era d = (d + d / 36524 - d / 1460 - d / 146096) / 365

abbrev pub day_of_year : ℕ → ℕ
day_of_year d = let y = year_of_era d in d - (365 * y + y / 4 - y / 100)

-- The month from March on, 0 to 11.
abbrev pub march_month : ℕ → ℕ
march_month d = (5 * day_of_year d + 2) / 153

abbrev pub utc_month : ℕ → ℕ
utc_month day = let m = march_month (day % 146097) in if ltb m 10 then m + 3 else m - 9

abbrev pub utc_date : ℕ → ℕ
utc_date day = let d = day % 146097 in day_of_year d + 1 - (153 * march_month d + 2) / 5

abbrev pub utc_full_year : ℕ → ℕ
utc_full_year day =
    let y = year_of_era (day % 146097) + 400 * (day / 146097) in
    if leb (utc_month day) 2 then y + 1 else y

abbrev pub had_birthday_this_year : (date_of_birth at : ℕ) → Bool
had_birthday_this_year dob at =
    ltb (utc_month dob) (utc_month at)
    || (utc_month dob == utc_month at && leb (utc_date dob) (utc_date at))

-- `calculateAgeYears(dob, at) < years`: the difference of the years, less one before the birthday,
-- may be negative, so what is taken off is added on the other side.
unfoldable pub is_younger_than : (years date_of_birth at : ℕ) → Bool
is_younger_than years dob at =
    let missed = if had_birthday_this_year dob at then 0 else 1 in
    ltb (utc_full_year at) (years + utc_full_year dob + missed)

-- The first day of 1970.
abbrev pub epoch_day : ℕ
epoch_day = 719468

epoch_lem : (utc_full_year epoch_day ≡ 1970) × (utc_month epoch_day ≡ 1) × (utc_date epoch_day ≡ 1)
epoch_lem = (refl, refl, refl)

-- 29 February 2024.
leap_day : (utc_full_year 739250 ≡ 2024) × (utc_month 739250 ≡ 2) × (utc_date 739250 ≡ 29)
leap_day = (refl, refl, refl)

-- Born on 1 January 1970: 18 on 1 January 1988, and not the day before.
of_age : is_younger_than 18 719468 726042 ≡ false
unfolding is_younger_than
of_age = refl

not_of_age : is_younger_than 18 719468 726041 ≡ true
unfolding is_younger_than
not_of_age = refl
