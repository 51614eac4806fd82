-- ===== src/Timestamp/Reader.antt =====
-- The timestamp against a reader of RFC 3339.
use gik_view.Prelude.{
  ℕ, ◌+◌, ◌-◌, ◌*◌, ◌/◌, ◌%◌, ◌<◌, ◌≡◌, refl, ◌&&◌, Option, some, none, Bytes, length, get_or,
  arith, ◌==◌, leb, if◌then◌else◌, ◌>>=◌, require,
}
use gik_view.X509.Unix.{unix_seconds}
use gik_view.Timestamp.{gmtime, strftime, to_rfc3339_utc}
use gik_view.Timestamp.Civil.{unix_seconds-gmtime}

-- The number of the two digits at a place.
pair_at : Bytes → ℕ → Option ℕ
pair_at text p =
    let a = get_or text p 0 in
    let b = get_or text (p + 1) 0 in
    if leb 48 a && leb a 57 && (leb 48 b && leb b 57) then some ((a - 48) * 10 + (b - 48)) else none

-- The time that a text `YYYY-MM-DDThh:mm:ssZ` stands for.
pub read_rfc3339 : Bytes → Option ℕ
unfolding pair_at
read_rfc3339 text = do
  _ ← require (
      length text == 20
      && (get_or text 4 0 == b'-' && get_or text 7 0 == b'-' && get_or text 10 0 == b'T')
      && (get_or text 13 0 == b':' && get_or text 16 0 == b':' && get_or text 19 0 == b'Z'))
  century ← pair_at text 0
  year ← pair_at text 2
  month ← pair_at text 5
  day ← pair_at text 8
  hour ← pair_at text 11
  minute ← pair_at text 14
  second ← pair_at text 17
  some (unix_seconds (century * 100 + year) month day hour minute second)

read_two :
    (text : Bytes) (p n : ℕ)
    → get_or text p 0 ≡ 48 + n / 10
    → get_or text (p + 1) 0 ≡ 48 + n % 10
    → n < 100
    → pair_at text p ≡ some n
unfolding pair_at
read_two text p n a b l = rw (a, b) (ground arith)

-- For times before the year 10000, a reader of RFC 3339 gets the time back from the printed text.
pub read_rfc3339-to_rfc3339_utc :
    (t : ℕ) → t < 253402300800 → read_rfc3339 (to_rfc3339_utc t) ≡ some t
unfolding read_rfc3339 to_rfc3339_utc strftime
read_rfc3339-to_rfc3339_utc t l =
    let d = gmtime t in
    let (date, back) = unix_seconds-gmtime t l in
    let text = strftime d in
    let year : d.year / 100 * 100 + d.year % 100 ≡ d.year = omega arith in
    rw
      (
        read_two text 0 (d.year / 100) refl refl (omega (arith, date.year_in)),
        ◌>>=◌,
        read_two text 2 (d.year % 100) refl refl (omega arith),
        ◌>>=◌,
        read_two text 5 d.month refl refl (omega (arith, date.month_in)),
        ◌>>=◌,
        read_two text 8 d.day refl refl (omega (arith, date.day_in)),
        ◌>>=◌,
        read_two text 11 d.hour refl refl (omega (arith, date.time_in)),
        ◌>>=◌,
        read_two text 14 d.minute refl refl (omega (arith, date.time_in)),
        ◌>>=◌,
        read_two text 17 d.second refl refl (omega (arith, date.time_in)),
        ◌>>=◌,
        year,
        back,
      )
      refl
