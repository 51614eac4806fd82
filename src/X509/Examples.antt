-- ===== src/X509/Examples.antt =====
-- Runs of the expiry parser, and its theorems at concrete dates.
use gik_view.Prelude.{
  ◌≡◌, refl, true, none, some, [], ◌∷◌, ◌++◌, codes, ltb, if◌then◌else◌, arith, ◌^◌,
}
use gik_view.Prelude.Int.{pos}
use gik_view.Asn1.{tagged, asn1_len}
use gik_view.Pem.{der_to_pem_string}
use gik_view.X509.{two_digits, parse_x509_time, tm_to_unix_utc, parse_leaf_not_after}
use gik_view.X509.Unix.{IsDate, tm_of, unix_seconds, tm_to_unix_utc-unix_seconds}
use gik_view.X509.Leaf.{Certificate, cert_content, Expires, parse_leaf_not_after-cert}

-- 2026-06-11 08:30:05 UTC.
expiry-IsDate : IsDate 2026 6 11 8 30 5
expiry-IsDate = omega arith

-- The first second that does not fit 32 bits.
late-IsDate : IsDate 2038 1 19 3 14 8
late-IsDate = omega arith

parse_time : parse_x509_time (codes "260611083005Z") 0x17 ≡ some (tm_of 2026 6 11 8 30 5)
unfolding parse_x509_time two_digits
parse_time = refl

seconds : tm_to_unix_utc (tm_of 2026 6 11 8 30 5) ≡ some (pos 1781166605)
unfolding tm_to_unix_utc
seconds = refl

-- A month 13 is read past the end of the table of month lengths.
month_13 : tm_to_unix_utc (tm_of 2026 14 1 0 0 0) ≡ none
unfolding tm_to_unix_utc
month_13 = refl

tm_to_unix_utc-unix_seconds_example :
    tm_to_unix_utc (tm_of 2026 6 11 8 30 5) ≡ some (pos 1781166605)
unfolding unix_seconds
tm_to_unix_utc-unix_seconds_example = tm_to_unix_utc-unix_seconds 2026 6 11 8 30 5 expiry-IsDate

tm_to_unix_utc_overflow : tm_to_unix_utc (tm_of 2038 1 19 3 14 8) ≡ none
unfolding unix_seconds
tm_to_unix_utc_overflow = tm_to_unix_utc-unix_seconds 2038 1 19 3 14 8 late-IsDate

abbrev leaf : Certificate
leaf = record {
  has_version = true;
  version = 0x02 ∷ 0x01 ∷ 0x02 ∷ [];
  serial = 0x11 ∷ 0x22 ∷ [];
  sig_alg = 0x06 ∷ 0x01 ∷ 0x2A ∷ [];
  issuer = [];
  before_tag = 0x17;
  not_before = codes "260604083005Z";
  after_tag = 0x17;
  not_after = codes "260611083005Z";
  validity_tail = [];
  tbs_tail = 0x30 ∷ 0x00 ∷ [];
  cert_tail = 0x03 ∷ 0x01 ∷ 0x00 ∷ [];
}

leaf-Expires : Expires leaf 2026 6 11 8 30 5
leaf-Expires = record { date = expiry-IsDate; tag = refl; field = refl }

parse_leaf_not_after-cert_example :
    parse_leaf_not_after
      (der_to_pem_string (tagged 0x30 (cert_content leaf)) (codes "CERTIFICATE") ++ codes "\n")
    ≡ some (
        if ltb (unix_seconds 2026 6 11 8 30 5) (2 ^ 31)
        then some (pos (unix_seconds 2026 6 11 8 30 5))
        else none)
unfolding tagged asn1_len
parse_leaf_not_after-cert_example =
    parse_leaf_not_after-cert leaf (codes "CERTIFICATE") (codes "\n") leaf-Expires (omega arith)
      (omega arith) (omega arith)
