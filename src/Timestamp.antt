-- ===== src/Timestamp.antt =====
-- `to_rfc3339_utc` of end/arduino/sensor.cpp and end/arduino/stepca.cpp, with what it calls of
-- <time.h>: `gmtime_r` and `strftime` with "%Y-%m-%dT%H:%M:%SZ", for times from 1970 on.
pub mod Civil
pub mod Reader
mod Examples
use gik_view.Prelude.{
  ℕ, zero, suc, ◌+◌, ◌-◌, ◌*◌, ◌/◌, ◌%◌, Bool, true, false, [], ◌∷◌, Bytes, ltb, if◌then◌else◌,
}
use gik_view.X509.{is_leap}
use gik_view.X509.Calendar.{days_in}

unfoldable pub year_days : ℕ → ℕ
unfolding is_leap
year_days y = if is_leap y then 366 else 365

-- The year of a day that is counted from the start of the year `y`, and the day in it.
unfoldable pub find_year : ℕ → ℕ → ℕ → ℕ × ℕ
unfolding year_days
find_year zero y days = (y, days)
find_year (suc fuel) y days = elim (ltb days (year_days y)) [
  | true ↦ (y, days)
  | false ↦ find_year fuel (y + 1) (days - year_days y)
]

-- The month of a day of the year, and the day in it, both counted from 0.
unfoldable pub find_month : ℕ → Bool → ℕ → ℕ → ℕ × ℕ
find_month zero leap m days = (m, days)
find_month (suc fuel) leap m days = elim (ltb days (days_in leap m)) [
  | true ↦ (m, days)
  | false ↦ find_month fuel leap (m + 1) (days - days_in leap m)
]

-- `tm_year + 1900`, `tm_mon + 1`, and the other fields as they are.
pub record DateTime : Type 0 where
  pub year : ℕ
  pub month : ℕ
  pub day : ℕ
  pub hour : ℕ
  pub minute : ℕ
  pub second : ℕ

-- A year has 365 days or more, which bounds the number of years.
unfoldable pub gmtime : ℕ → DateTime
unfolding find_year find_month is_leap
gmtime t =
    let in_year = find_year (t / 86400 / 365 + 1) 1970 (t / 86400) in
    let in_month = find_month 12 (is_leap in_year.0) 0 in_year.1 in
    record {
      year = in_year.0;
      month = in_month.0 + 1;
      day = in_month.1 + 1;
      hour = t % 86400 / 3600;
      minute = t % 3600 / 60;
      second = t % 60;
    }

abbrev pub two : ℕ → Bytes → Bytes
two n rest = (48 + n / 10) ∷ (48 + n % 10) ∷ rest

-- A year of four digits.
unfoldable pub strftime : DateTime → Bytes
strftime d = two (d.year / 100) (
    two (d.year % 100) (
      b'-'
      ∷ two d.month (
          b'-'
          ∷ two d.day (b'T' ∷ two d.hour (b':' ∷ two d.minute (b':' ∷ two d.second (b'Z' ∷ [])))))))

unfoldable pub to_rfc3339_utc : ℕ → Bytes
unfolding gmtime strftime
to_rfc3339_utc t = strftime (gmtime t)
