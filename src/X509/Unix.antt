-- ===== src/X509/Unix.antt =====
-- `tm_to_unix_utc` on every date from 1970 on.
use gik_view.Prelude.{
  ℕ, ◌+◌, ◌-◌, ◌*◌, ◌^◌, ◌≤◌, ◌<◌, ◌≡◌, ◌∙◌, ap, none, some, arith, ltb, if◌then◌else◌,
}
use gik_view.Prelude.Int.{pos, pos_part, sub_ℕ, ◌+ℤ◌, ◌*ℤ◌}
use gik_view.X509.{Tm, to_long, tm_to_unix_utc}
use gik_view.X509.Calendar.{civil_days, day_count}

-- A date and time of day, of the years from 1970.
pub record IsDate (y mo d h mi s : ℕ) : Type 0 where
  pub year_in : (1970 ≤ y) × (y < 10000)
  pub month_in : (1 ≤ mo) × (mo ≤ 12)
  pub day_in : (1 ≤ d) × (d ≤ 31)
  pub time_in : (h < 24) × (mi < 60) × (s ≤ 60)

unfoldable pub unix_seconds : ℕ → ℕ → ℕ → ℕ → ℕ → ℕ → ℕ
unfolding civil_days
unix_seconds y mo d h mi s = civil_days y mo d * 86400 + h * 3600 + mi * 60 + s

abbrev pub tm_of : ℕ → ℕ → ℕ → ℕ → ℕ → ℕ → Tm
tm_of y mo d h mi s = record {
  tm_year = sub_ℕ y 1900;
  tm_mon = sub_ℕ mo 1;
  tm_mday = d;
  tm_hour = h;
  tm_min = mi;
  tm_sec = s;
}

year_back : (y : ℕ) → 1900 ≤ y → pos_part (sub_ℕ y 1900 +ℤ pos 1900) ≡ y
unfolding ◌+ℤ◌
year_back y h = ground arith

seconds : (m c r : ℕ) → m ≡ c + 1 → sub_ℕ m 1 *ℤ pos 86400 +ℤ pos r ≡ pos (c * 86400 + r)
unfolding ◌+ℤ◌ ◌*ℤ◌
seconds m c r e = let days : sub_ℕ m 1 ≡ pos c = ground arith in rw days (ground arith)

time_of_day :
    (y mo d h mi s : ℕ)
    → civil_days y mo d * 86400 + (h * 3600 + mi * 60 + s) ≡ unix_seconds y mo d h mi s
unfolding unix_seconds
time_of_day y mo d h mi s = omega arith

to_long_pos : (u : ℕ) → to_long (pos u) ≡ (if ltb u (2 ^ 31) then some (pos u) else none)
unfolding to_long
to_long_pos u = ground arith

-- On every date of the years 1970 to 9999, `tm_to_unix_utc` gives the Unix time of the closed
-- formula if that is below 2 ^ 31, and is undefined (an overflow of `long`) if it is not.
pub tm_to_unix_utc-unix_seconds :
    (y mo d h mi s : ℕ)
    → IsDate y mo d h mi s
    → tm_to_unix_utc (tm_of y mo d h mi s) ≡ (
        if ltb (unix_seconds y mo d h mi s) (2 ^ 31)
        then some (pos (unix_seconds y mo d h mi s))
        else none)
unfolding tm_to_unix_utc
tm_to_unix_utc-unix_seconds y mo d h mi s v =
    let (n, months, e) = day_count y mo d v.year_in.0 v.month_in.0 v.month_in.1 v.day_in.0 in
    let mon : pos_part (sub_ℕ mo 1) ≡ mo - 1 = ground arith in
    rw (year_back y (omega arith), mon, months)
      (ap to_long (
          seconds (n + d) (civil_days y mo d) (h * 3600 + mi * 60 + s) e
          ∙ ap pos (time_of_day y mo d h mi s))
        ∙ to_long_pos (unix_seconds y mo d h mi s))
