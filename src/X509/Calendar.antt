-- ===== src/X509/Calendar.antt =====
-- The day count of `tm_to_unix_utc` against the usual closed formula of the Gregorian calendar.
use gik_view.Prelude.{
  ℕ, zero, suc, ◌+◌, ◌-◌, ◌*◌, ◌/◌, ◌≤◌, ◌<◌, ◌≡◌, refl, ap, Bool, true, false, ◌&&◌, some, arith,
  leb, ◌==◌, if◌then◌else◌, ==_iff, get_or,
}
use gik_view.Prelude.Tables.{all_below, all_below_sound}
use gik_view.X509.{is_leap, add_years, add_months, month_days}

-- Leap days before the year `y`.
abbrev pub leaps : ℕ → ℕ
leaps y = (y - 1) / 4 + (y - 1) / 400 - (y - 1) / 100

abbrev pub leap_day : ℕ → ℕ
leap_day y = if is_leap y then 1 else 0

pub leap_step : (y : ℕ) → 1 ≤ y → leaps (y + 1) ≡ leaps y + leap_day y
unfolding is_leap
leap_step y h = ground arith

add_years_lem :
    (rounds y days : ℕ)
    → 1 ≤ y
    → add_years rounds y days + leaps y ≡ days + 365 * rounds + leaps (y + rounds)
unfolding add_years
add_years_lem zero y days h = omega arith
add_years_lem (suc rounds) y days h = ground (
  arith,
  leap_step y h,
  add_years_lem rounds (y + 1) (if is_leap y then days + 365 + 1 else days + 365),
)

-- Days of a year before its month `k`, counted from 0.
unfoldable pub days_before : Bool → ℕ → ℕ
days_before leap k =
    if k == 0
    then 0
    else if k == 1
    then 31
    else (153 * (k - 2) + 2) / 5 + 59 + (if leap then 1 else 0)

abbrev pub days_in : Bool → ℕ → ℕ
days_in leap m = if m == 1 && leap then get_or month_days m 0 + 1 else get_or month_days m 0

months_table :
    (leap : Bool)
    → all_below 12 (λ m. days_before leap m + days_in leap m == days_before leap (m + 1)) ≡ true
unfolding all_below days_before
months_table true = refl
months_table false = refl

pub month_step :
    (leap : Bool) (m : ℕ) → m < 12 → days_before leap m + days_in leap m ≡ days_before leap (m + 1)
month_step leap m h = (==_iff _ _).0 (all_below_sound 12 _ m (months_table leap) h)

-- From the month `m` to the month `k`, within one year.
add_months_lem :
    (rounds m k : ℕ) (leap : Bool) (days total : ℕ)
    → m + rounds ≡ k
    → k ≤ 12
    → days + days_before leap k ≡ total + days_before leap m
    → add_months rounds m leap days ≡ some total
unfolding add_months
add_months_lem zero m k leap days total hk h e =
    let mk : m ≡ k = omega arith in ap some (omega (arith, ap (days_before leap) mk))
add_months_lem (suc rounds) m k leap days total hk h e = ground (
  arith,
  month_step leap m (omega arith),
  add_months_lem rounds (m + 1) k leap (days + days_in leap m) total,
)

-- The closed formula: days from 1970-01-01, with years that start in March.
unfoldable pub civil_days : ℕ → ℕ → ℕ → ℕ
civil_days y mo d =
    let y' = if leb mo 2 then y - 1 else y in
    let mp = if leb mo 2 then mo + 9 else mo - 3 in
    365 * y' + y' / 4 + y' / 400 + (153 * mp + 2) / 5 + d - 1 - y' / 100 - 719468

years_since : (y : ℕ) → 1970 ≤ y → add_years (y - 1970) 1970 0 + 477 ≡ 365 * (y - 1970) + leaps y
years_since y h =
    let whole : 1970 + (y - 1970) ≡ y = omega arith in
    omega (
      arith,
      add_years_lem (y - 1970) 1970 0 (omega arith),
      ap (λ (t : ℕ). t / 4 + t / 400 - t / 100) (ap (λ (t : ℕ). t - 1) whole),
    )

late_month :
    (leap : Bool) (mo : ℕ)
    → 3 ≤ mo
    → days_before leap (mo - 1) ≡ (153 * (mo - 3) + 2) / 5 + 59 + (if leap then 1 else 0)
unfolding days_before
late_month leap mo h = ground arith

civil_late :
    (y mo d : ℕ)
    → 3 ≤ mo
    → civil_days y mo d
      ≡ 365 * y + y / 4 + y / 400 + (153 * (mo - 3) + 2) / 5 + d - 1 - y / 100 - 719468
unfolding civil_days
civil_late y mo d h = ground arith

-- Both ways of counting agree, month by month.
pub civil_lem :
    (y mo d n : ℕ)
    → 1970 ≤ y
    → 1 ≤ mo
    → mo ≤ 12
    → 1 ≤ d
    → n + 477 ≡ 365 * (y - 1970) + leaps y
    → n + days_before (is_leap y) (mo - 1) + d ≡ civil_days y mo d + 1
civil_lem y zero d n hy lo hi hd e = absurd (omega arith)
civil_lem y (suc zero) d n hy lo hi hd e = unfold days_before civil_days in omega arith
civil_lem y (suc (suc zero)) d n hy lo hi hd e = unfold days_before civil_days in omega arith
civil_lem y (suc (suc (suc k))) d n hy lo hi hd e = omega (
  arith,
  late_month (is_leap y) (suc (suc (suc k))) (omega arith),
  civil_late y (suc (suc (suc k))) d (omega arith),
  leap_step y (omega arith),
)

pub day_count :
    (y mo d : ℕ)
    → 1970 ≤ y
    → 1 ≤ mo
    → mo ≤ 12
    → 1 ≤ d
    → (n : ℕ) × (add_months (mo - 1) 0 (is_leap y) (add_years (y - 1970) 1970 0) ≡ some n)
      × (n + d ≡ civil_days y mo d + 1)
day_count y mo d hy lo hi hd =
    let n : ℕ = add_years (y - 1970) 1970 0 in
    (
      n + days_before (is_leap y) (mo - 1),
      add_months_lem (mo - 1) 0 (mo - 1) (is_leap y) n _ (omega arith) (omega arith)
          (unfold days_before in omega arith),
      civil_lem y mo d n hy lo hi hd (years_since y hy),
    )
