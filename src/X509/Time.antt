-- ===== src/X509/Time.antt =====
-- `parse_x509_time` reads the two time formats of X.509.
use gik_view.Prelude.{
  ℕ, ◌+◌, ◌-◌, ◌*◌, ◌/◌, ◌%◌, ◌≤◌, ◌<◌, ◌≡◌, refl, ◌&&◌, none, some, [], ◌∷◌, Bytes, arith, leb,
  if◌then◌else◌, ◌>>=◌,
}
use gik_view.Prelude.Int.{ℤ, sub_ℕ}
use gik_view.X509.{
  is_digit, two_digits, parse_fields, parse_utc_time, parse_generalized_time, parse_x509_time,
}
use gik_view.X509.Unix.{IsDate, tm_of}

-- A number below 100 as two decimal digits, in front of `rest`.
abbrev pub print_two : ℕ → Bytes → Bytes
print_two n rest = (b'0' + n / 10) ∷ (b'0' + n % 10) ∷ rest

abbrev pub print_fields : ℕ → ℕ → ℕ → ℕ → ℕ → Bytes
print_fields mo d h mi s =
    print_two mo (print_two d (print_two h (print_two mi (print_two s (b'Z' ∷ [])))))

-- UTCTime holds the years 1950 to 2049, GeneralizedTime those of four digits.
abbrev pub utc_time : ℕ → ℕ → ℕ → ℕ → ℕ → ℕ → Bytes
utc_time y mo d h mi s = print_two (y % 100) (print_fields mo d h mi s)

abbrev pub generalized_time : ℕ → ℕ → ℕ → ℕ → ℕ → ℕ → Bytes
generalized_time y mo d h mi s =
    print_two (y / 100) (print_two (y % 100) (print_fields mo d h mi s))

digits_back :
    (n c1 c2 : ℕ)
    → n < 100
    → c1 ≡ b'0' + n / 10
    → c2 ≡ b'0' + n % 10
    → (if is_digit c1 && is_digit c2 then some ((c1 - b'0') * 10 + (c2 - b'0')) else none) ≡ some n
unfolding is_digit
digits_back n c1 c2 h e1 e2 = ground arith

module _ (mo d h mi s : ℕ) (hmo : mo < 100) (hd : d < 100) (hh : h < 100) (hmi : mi < 100)
    (hs : s < 100) where
  -- The six characters in front hold a year of two digits.
  fields_two :
      (year : ℤ) (a b : ℕ)
      → parse_fields year (a ∷ b ∷ print_fields mo d h mi s) 2
        ≡ some (record {
          tm_year = year;
          tm_mon = sub_ℕ mo 1;
          tm_mday = d;
          tm_hour = h;
          tm_min = mi;
          tm_sec = s;
        })
  unfolding parse_fields two_digits
  fields_two year a b =
      rw
        (
          digits_back mo _ _ hmo refl refl,
          ◌>>=◌,
          digits_back d _ _ hd refl refl,
          ◌>>=◌,
          digits_back h _ _ hh refl refl,
          ◌>>=◌,
          digits_back mi _ _ hmi refl refl,
          ◌>>=◌,
          digits_back s _ _ hs refl refl,
        )
        refl

  -- The eight characters in front hold a year of four digits.
  fields_four :
      (year : ℤ) (a b c e : ℕ)
      → parse_fields year (a ∷ b ∷ c ∷ e ∷ print_fields mo d h mi s) 4
        ≡ some (record {
          tm_year = year;
          tm_mon = sub_ℕ mo 1;
          tm_mday = d;
          tm_hour = h;
          tm_min = mi;
          tm_sec = s;
        })
  unfolding parse_fields two_digits
  fields_four year a b c e =
      rw
        (
          digits_back mo _ _ hmo refl refl,
          ◌>>=◌,
          digits_back d _ _ hd refl refl,
          ◌>>=◌,
          digits_back h _ _ hh refl refl,
          ◌>>=◌,
          digits_back mi _ _ hmi refl refl,
          ◌>>=◌,
          digits_back s _ _ hs refl refl,
        )
        refl

two_front : (n : ℕ) (rest : Bytes) → n < 100 → two_digits (print_two n rest) 0 ≡ some n
unfolding two_digits
two_front n rest h = digits_back n _ _ h refl refl

two_second : (a b n : ℕ) (rest : Bytes) → n < 100 → two_digits (a ∷ b ∷ print_two n rest) 2 ≡ some n
unfolding two_digits
two_second a b n rest h = digits_back n _ _ h refl refl

-- The years of UTCTime are read with the pivot at 50.
century :
    (y : ℕ)
    → 1950 ≤ y
    → y < 2050
    → (if leb 50 (y % 100) then 1900 + y % 100 else 2000 + y % 100) ≡ y
century y lo hi = ground arith

module _ (y mo d h mi s : ℕ) (v : IsDate y mo d h mi s) where
  pub parse-utc_time :
      y < 2050 → parse_x509_time (utc_time y mo d h mi s) 0x17 ≡ some (tm_of y mo d h mi s)
  unfolding parse_x509_time parse_utc_time
  parse-utc_time hi =
      rw
        (
          two_front (y % 100) (print_fields mo d h mi s) (omega arith),
          ◌>>=◌,
          century y (omega arith) hi,
        )
        (fields_two mo d h mi s (omega arith) (omega arith) (omega arith) (omega arith)
          (omega arith) _ _ _)

  pub parse-generalized_time :
      parse_x509_time (generalized_time y mo d h mi s) 0x18 ≡ some (tm_of y mo d h mi s)
  unfolding parse_x509_time parse_generalized_time
  parse-generalized_time =
      let whole : y / 100 * 100 + y % 100 ≡ y = omega arith in
      rw
        (
          two_front (y / 100) (print_two (y % 100) (print_fields mo d h mi s)) (omega arith),
          ◌>>=◌,
          two_second _ _ (y % 100) (print_fields mo d h mi s) (omega arith),
          ◌>>=◌,
          whole,
        )
        (fields_four mo d h mi s (omega arith) (omega arith) (omega arith) (omega arith)
          (omega arith) _ _ _ _ _)
