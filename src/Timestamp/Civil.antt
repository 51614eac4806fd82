-- ===== src/Timestamp/Civil.antt =====
-- `gmtime` against the closed formula of the calendar, and against `tm_to_unix_utc`.
use gik_view.Prelude.{
  ℕ, zero, suc, ◌+◌, ◌-◌, ◌*◌, ◌/◌, ◌≤◌, ◌<◌, ◌≡◌, refl, ap, Bool, arith, ltb, ltb→lt, ltb→le,
  Bool-cases, inl, inr,
}
use gik_view.X509.{is_leap}
use gik_view.X509.Calendar.{
  leaps, leap_day, leap_step, days_before, days_in, month_step, civil_lem, civil_days,
}
use gik_view.X509.Unix.{IsDate, unix_seconds}
use gik_view.Timestamp.{year_days, find_year, find_month, gmtime}

find_year_lem :
    (fuel y days : ℕ)
    → 1 ≤ y
    → days < 365 * fuel
    → let r = find_year fuel y days in
      (r.1 + 365 * r.0 + leaps r.0 ≡ days + 365 * y + leaps y) × (r.1 < year_days r.0) × (y ≤ r.0)
unfolding find_year
find_year_lem zero y days h l = absurd (omega arith)
find_year_lem (suc fuel) y days h l = elim (Bool-cases (ltb days (year_days y))) [
  | inl e ↦ rw (e, find_year) (refl, ltb→lt days (year_days y) e, omega arith)
  | inr e ↦
      let past = ltb→le days (year_days y) e in
      let size : year_days y ≡ 365 + leap_day y = unfold year_days is_leap in ground arith in
      let (sum, inside, later) =
        find_year_lem fuel (y + 1) (days - year_days y) (omega arith) (omega (arith, past, size)) in
      rw (e, find_year)
        (omega (arith, sum, past, size, leap_step y h), inside, omega (arith, later))
]

find_month_lem :
    (fuel m days : ℕ) (leap : Bool)
    → m + fuel ≡ 12
    → days + days_before leap m < days_before leap 12
    → let r = find_month fuel leap m days in
      (r.1 + days_before leap r.0 ≡ days + days_before leap m)
      × (r.1 < days_in leap r.0)
      × (r.0 < 12)
unfolding find_month
find_month_lem zero m days leap h l =
    let last : m ≡ 12 = omega arith in absurd (omega (arith, ap (days_before leap) last))
find_month_lem (suc fuel) m days leap h l = elim (Bool-cases (ltb days (days_in leap m))) [
  | inl e ↦ rw (e, find_month) (refl, ltb→lt days (days_in leap m) e, omega arith)
  | inr e ↦
      let past = ltb→le days (days_in leap m) e in
      let step = month_step leap m (omega arith) in
      let (sum, inside, bound) =
        find_month_lem fuel (m + 1) (days - days_in leap m) leap (omega arith)
          (omega (arith, past, step)) in
      rw (e, find_month) (omega (arith, sum, past, step), inside, bound)
]

-- The days before the year `y`, from 1970.
days_since : (y : ℕ) → 1970 ≤ y → (n : ℕ) × (n + 477 ≡ 365 * (y - 1970) + leaps y)
days_since y h = (365 * (y - 1970) + leaps y - 477, omega arith)

early :
    (y : ℕ) (days t : ℕ)
    → 1970 ≤ y
    → days + 365 * y + leaps y ≡ t / 86400 + 365 * 1970 + 477
    → t < 253402300800
    → y < 10000
early y days t h e l = omega arith

year_length : (y : ℕ) → days_before (is_leap y) 12 ≡ year_days y
unfolding year_days days_before
year_length y = ground arith

month_size : (leap : Bool) (m : ℕ) → m < 12 → days_in leap m ≤ 31
month_size leap m h = ground (arith, h)

-- For times before the year 10000, `gmtime` gives a date and time of day, of which the closed
-- formula of the calendar gives the time back.
pub unix_seconds-gmtime :
    (t : ℕ)
    → t < 253402300800
    → let d = gmtime t in
      IsDate d.year d.month d.day d.hour d.minute d.second
      × (unix_seconds d.year d.month d.day d.hour d.minute d.second ≡ t)
unfolding gmtime unix_seconds
unix_seconds-gmtime t l =
    let days = t / 86400 in
    let y = (find_year (days / 365 + 1) 1970 days).0 in
    let in_year = (find_year (days / 365 + 1) 1970 days).1 in
    let (sum, inside, later) =
      find_year_lem (days / 365 + 1) 1970 days (omega arith) (omega arith) in
    let m = (find_month 12 (is_leap y) 0 in_year).0 in
    let in_month = (find_month 12 (is_leap y) 0 in_year).1 in
    let start : days_before (is_leap y) 0 ≡ 0 = unfold days_before in refl in
    let (msum, minside, bound) =
      find_month_lem 12 0 in_year (is_leap y) (omega arith)
        (omega (arith, inside, start, year_length y)) in
    let (n, known) = days_since y later in
    let civil =
      civil_lem y (m + 1) (in_month + 1) n later (omega arith) (omega arith) (omega arith) known in
    let back : n + in_year ≡ days = omega (arith, sum, known) in
    let same : days_before (is_leap y) (m + 1 - 1) ≡ days_before (is_leap y) m =
      ap (days_before (is_leap y)) (omega arith) in
    let whole : civil_days y (m + 1) (in_month + 1) ≡ days =
      omega (arith, civil, same, back, msum, start) in
    (
      record {
        year_in = (later, early y in_year t later sum l);
        month_in = (omega arith, omega (arith, bound));
        day_in = (omega arith, omega (arith, minside, month_size (is_leap y) m bound));
        time_in = (omega arith, omega arith, omega arith);
      },
      omega (arith, whole),
    )
