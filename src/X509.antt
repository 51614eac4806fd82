-- ===== src/X509.antt =====
-- The end of a certificate's validity, end/arduino/crypto_pki.cpp: `two_digits`, `parse_x509_time`,
-- `tm_to_unix_utc` and `parse_leaf_not_after`.
pub mod Calendar
pub mod Unix
pub mod Time
pub mod Leaf
mod Examples
use gik_view.Prelude.{
  ℕ, zero, suc, ◌+◌, ◌-◌, ◌*◌, ◌%◌, ◌^◌, Bool, true, false, ◌&&◌, ◌||◌, not, Option, none, some,
  List, [], ◌∷◌, Bytes, length, get_or, ltb, leb, ◌==◌, if◌then◌else◌, ◌>>=◌, require,
}
use gik_view.Prelude.Int.{ℤ, pos, negsuc, pos_part, sub_ℕ, ◌+ℤ◌, ◌*ℤ◌, ltb_ℤ}
use gik_view.Asn1.{Element, asn1_walk_next}
use gik_view.Asn1.Expect.{expect}
use gik_view.Pem.{pem_to_der}

-- `struct tm`, as far as it is used. `tm_year` counts from 1900, and `tm_mon` from 0.
pub record Tm : Type 0 where
  pub tm_year : ℤ
  pub tm_mon : ℤ
  pub tm_mday : ℕ
  pub tm_hour : ℕ
  pub tm_min : ℕ
  pub tm_sec : ℕ

pub is_digit : ℕ → Bool
is_digit c = leb b'0' c && leb c b'9'

-- The two characters at `p`; `none` is the result -1.
unfoldable pub two_digits : Bytes → ℕ → Option ℕ
unfolding is_digit
two_digits val p =
    if is_digit (get_or val p 0) && is_digit (get_or val (p + 1) 0)
    then some ((get_or val p 0 - b'0') * 10 + (get_or val (p + 1) 0 - b'0'))
    else none

-- The five fields behind the year, from position `p` on.
pub parse_fields : ℤ → Bytes → ℕ → Option Tm
parse_fields year val p = do
  mo ← two_digits val p
  dd ← two_digits val (p + 2)
  hh ← two_digits val (p + 4)
  mi ← two_digits val (p + 6)
  ss ← two_digits val (p + 8)
  some (record {
    tm_year = year;
    tm_mon = sub_ℕ mo 1;
    tm_mday = dd;
    tm_hour = hh;
    tm_min = mi;
    tm_sec = ss;
  })

-- Tag 0x17, "YYMMDDhhmmssZ".
pub parse_utc_time : Bytes → Option Tm
unfolding parse_fields
parse_utc_time val = do
  _ ← require (leb 13 (length val) && get_or val 12 0 == b'Z')
  yy ← two_digits val 0
  parse_fields (sub_ℕ (if leb 50 yy then 1900 + yy else 2000 + yy) 1900) val 2

-- Tag 0x18, "YYYYMMDDhhmmssZ".
pub parse_generalized_time : Bytes → Option Tm
unfolding parse_fields
parse_generalized_time val = do
  _ ← require (leb 15 (length val) && get_or val 14 0 == b'Z')
  y1 ← two_digits val 0
  y2 ← two_digits val 2
  parse_fields (sub_ℕ (y1 * 100 + y2) 1900) val 4

unfoldable pub parse_x509_time : Bytes → ℕ → Option Tm
unfolding parse_utc_time parse_generalized_time
parse_x509_time val tag =
    if tag == 0x17
    then parse_utc_time val
    else if tag == 0x18
    then parse_generalized_time val
    else none

unfoldable pub is_leap : ℕ → Bool
is_leap y = (y % 4 == 0 && not (y % 100 == 0)) || y % 400 == 0

-- `for (y = 1970; y < year; y++)`, with the rounds that are left.
pub add_years : ℕ → ℕ → ℕ → ℕ
unfolding is_leap
add_years zero y days = days
add_years (suc rounds) y days =
    add_years rounds (y + 1) (if is_leap y then days + 365 + 1 else days + 365)

abbrev pub month_days : List ℕ
month_days = 31 ∷ 28 ∷ 31 ∷ 30 ∷ 31 ∷ 30 ∷ 31 ∷ 31 ∷ 30 ∷ 31 ∷ 30 ∷ 31 ∷ []

-- `for (m = 0; m < tm_mon; m++)`. `none` is a read past the end of `month_days`.
pub add_months : ℕ → ℕ → Bool → ℕ → Option ℕ
add_months zero m leap days = some days
add_months (suc rounds) m leap days =
    let rest = λ (n : ℕ). add_months rounds (m + 1) leap n in
    if ltb m 12
    then rest
        (if m == 1 && leap then days + get_or month_days m 0 + 1 else days + get_or month_days m 0)
    else none

-- A result of type `long`, which has 32 bits on the ESP8266. `none` is a signed overflow.
pub to_long : ℤ → Option ℤ
to_long z = if ltb_ℤ z (negsuc (2 ^ 31 - 1)) || ltb_ℤ (pos (2 ^ 31 - 1)) z then none else some z

-- The terms of the last sum are not negative, but for the days, which are -1 at least: the sums
-- on the way stay in the range if the last one does. `none` is undefined behaviour.
unfoldable pub tm_to_unix_utc : Tm → Option ℤ
unfolding add_years add_months to_long is_leap ◌+ℤ◌ ◌*ℤ◌
tm_to_unix_utc t =
    let year = pos_part (t.tm_year +ℤ pos 1900) in
    do
      days ← add_months (pos_part t.tm_mon) 0 (is_leap year) (add_years (year - 1970) 1970 0)
      to_long (
          sub_ℕ (days + t.tm_mday) 1 *ℤ pos 86400
          +ℤ pos (t.tm_hour * 3600 + t.tm_min * 60 + t.tm_sec))

-- The element `notAfter` of a certificate in DER.
unfoldable pub find_not_after : Bytes → Option Element
find_not_after der = do
  cert ← expect 0x30 der
  tbs ← expect 0x30 cert.value
  peek ← asn1_walk_next tbs.value
  serial ← expect 0x02 (if peek.tag == 0xA0 then peek.rest else tbs.value)
  sig_alg ← expect 0x30 serial.rest
  issuer ← expect 0x30 sig_alg.rest
  validity ← expect 0x30 issuer.rest
  not_before ← asn1_walk_next validity.value
  asn1_walk_next not_before.rest

-- The DER of the leaf, in `static uint8_t der[1024]`, down to the broken-down time.
unfoldable pub leaf_not_after : Bytes → Option Tm
unfolding find_not_after
leaf_not_after leaf_pem =
    let der = pem_to_der leaf_pem 1024 in
    do
      _ ← require (not (length der == 0))
      not_after ← find_not_after der
      parse_x509_time not_after.value not_after.tag

-- `none` is the result false: `out_unix` is not written. The conversion is `some none` where it is
-- undefined.
unfoldable pub parse_leaf_not_after : Bytes → Option (Option ℤ)
unfolding leaf_not_after
parse_leaf_not_after leaf_pem = do t ← leaf_not_after leaf_pem; some (tm_to_unix_utc t)
