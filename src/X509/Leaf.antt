-- ===== src/X509/Leaf.antt =====
-- `parse_leaf_not_after` on certificates. Their form is RFC 5280's and does not come from the
-- parser: only the fields in front of the validity are spelled out.
use gik_view.Prelude.{
  ℕ, ◌+◌, ◌^◌, ◌≤◌, ◌<◌, ◌≡◌, refl, ◌∙◌, Bool, true, false, none, some, [], ◌++◌, Bytes, IsByte,
  All, length, arith, ltb, ◌==◌, if◌then◌else◌, ◌>>=◌, length-append, append-nil, Bool-cases, inl,
  inr, ltb→lt,
}
use gik_view.Prelude.Int.{pos}
use gik_view.Asn1.{tagged, asn1_len, Element, asn1_walk_next}
use gik_view.Asn1.Walk.{asn1_walk_next-tagged}
use gik_view.Asn1.Expect.{expect-tagged, expect_last}
use gik_view.CString.Laws.{Lacks}
use gik_view.Pem.{newline, der_to_pem_string, pem_to_der}
use gik_view.Pem.RoundTrip.{pem_to_der-der_to_pem_string}
use gik_view.X509.{parse_x509_time, find_not_after, leaf_not_after, parse_leaf_not_after}
use gik_view.X509.Unix.{IsDate, tm_of, unix_seconds, tm_to_unix_utc-unix_seconds}
use gik_view.X509.Time.{utc_time, generalized_time, parse-utc_time, parse-generalized_time}

-- The parts of a certificate that the walk passes; the tails are whatever follows.
pub record Certificate : Type 0 where
  pub has_version : Bool
  pub version : Bytes
  pub serial : Bytes
  pub sig_alg : Bytes
  pub issuer : Bytes
  pub before_tag : ℕ
  pub not_before : Bytes
  pub after_tag : ℕ
  pub not_after : Bytes
  pub validity_tail : Bytes
  pub tbs_tail : Bytes
  pub cert_tail : Bytes

module _ (c : Certificate) where
  abbrev pub after_field : Bytes
  after_field = tagged c.after_tag c.not_after ++ c.validity_tail

  abbrev pub validity : Bytes
  validity = tagged c.before_tag c.not_before ++ after_field

  abbrev pub from_validity : Bytes
  from_validity = tagged 0x30 validity ++ c.tbs_tail

  abbrev pub from_issuer : Bytes
  from_issuer = tagged 0x30 c.issuer ++ from_validity

  abbrev pub from_sig_alg : Bytes
  from_sig_alg = tagged 0x30 c.sig_alg ++ from_issuer

  abbrev pub from_serial : Bytes
  from_serial = tagged 0x02 c.serial ++ from_sig_alg

  abbrev pub tbs : Bytes
  tbs = if c.has_version then tagged 0xA0 c.version ++ from_serial else from_serial

  abbrev pub cert_content : Bytes
  cert_content = tagged 0x30 tbs ++ c.cert_tail

length-tagged :
    (tag : ℕ) (c rest : Bytes) → length c + length rest + 2 ≤ length (tagged tag c ++ rest)
unfolding tagged asn1_len
length-tagged tag c rest = ground (
  arith,
  length-append {0} (asn1_len (length c) ++ c) rest,
  length-append {0} (asn1_len (length c)) c,
)

module _ (c : Certificate) (fits : length (cert_content c) < 65536) where
  fits_tbs : length (tbs c) < 65536
  fits_tbs = omega (arith, length-tagged 0x30 (tbs c) c.cert_tail)

  fits_serial : length (from_serial c) < 65536
  fits_serial = ground (arith, fits_tbs, length-tagged 0xA0 c.version (from_serial c))

  fits_version : c.has_version ≡ true → length c.version < 65536
  fits_version e = ground (arith, fits_tbs, length-tagged 0xA0 c.version (from_serial c))

  fits_sig_alg : length (from_sig_alg c) < 65536
  fits_sig_alg = omega (arith, fits_serial, length-tagged 0x02 c.serial (from_sig_alg c))

  fits_issuer : length (from_issuer c) < 65536
  fits_issuer = omega (arith, fits_sig_alg, length-tagged 0x30 c.sig_alg (from_issuer c))

  fits_validity : length (from_validity c) < 65536
  fits_validity = omega (arith, fits_issuer, length-tagged 0x30 c.issuer (from_validity c))

  fits_field : length (validity c) < 65536
  fits_field = omega (arith, fits_validity, length-tagged 0x30 (validity c) c.tbs_tail)

  fits_after : length (after_field c) < 65536
  fits_after = omega (arith, fits_field, length-tagged c.before_tag c.not_before (after_field c))

  -- The optional version is passed over.
  after_peek : Element → Bytes
  after_peek peek = if peek.tag == 0xA0 then peek.rest else tbs c

  peek_lem : (e : Element) × (asn1_walk_next (tbs c) ≡ some e) × (after_peek e ≡ from_serial c)
  unfolding after_peek
  peek_lem = elim (Bool-cases c.has_version) [
    | inl e ↦ (
      record { tag = 0xA0; value = c.version; rest = from_serial c },
      rw e (asn1_walk_next-tagged 0xA0 c.version (from_serial c) (fits_version e)),
      refl,
    )
    | inr e ↦ (
      record { tag = 0x02; value = c.serial; rest = from_sig_alg c },
      rw e (
          asn1_walk_next-tagged 0x02 c.serial (from_sig_alg c)
            (omega (arith, fits_serial, length-tagged 0x02 c.serial (from_sig_alg c)))),
      rw e,
    )
  ]

  -- The walk ends at the second element of the validity, whatever the parts hold.
  find_not_after-cert :
      find_not_after (tagged 0x30 (cert_content c))
      ≡ some (record { tag = c.after_tag; value = c.not_after; rest = c.validity_tail })
  unfolding find_not_after after_peek
  find_not_after-cert =
      let (e, peeked, behind) = peek_lem in
      rw
        (
          expect_last 0x30 (cert_content c) fits,
          ◌>>=◌,
          expect-tagged 0x30 (tbs c) c.cert_tail fits_tbs,
          ◌>>=◌,
          peeked,
          ◌>>=◌,
          behind,
          expect-tagged 0x02 c.serial (from_sig_alg c)
              (omega (arith, fits_serial, length-tagged 0x02 c.serial (from_sig_alg c))),
          ◌>>=◌,
          expect-tagged 0x30 c.sig_alg (from_issuer c)
              (omega (arith, fits_sig_alg, length-tagged 0x30 c.sig_alg (from_issuer c))),
          ◌>>=◌,
          expect-tagged 0x30 c.issuer (from_validity c)
              (omega (arith, fits_issuer, length-tagged 0x30 c.issuer (from_validity c))),
          ◌>>=◌,
          expect-tagged 0x30 (validity c) c.tbs_tail fits_field,
          ◌>>=◌,
          asn1_walk_next-tagged c.before_tag c.not_before (after_field c)
              (omega (arith, fits_field, length-tagged c.before_tag c.not_before (after_field c))),
          ◌>>=◌,
        )
        (asn1_walk_next-tagged c.after_tag c.not_after c.validity_tail
          (omega (arith, fits_after, length-tagged c.after_tag c.not_after c.validity_tail)))

-- RFC 5280: UTCTime up to the year 2049, GeneralizedTime from 2050 on.
pub record Expires (c : Certificate) (y mo d h mi s : ℕ) : Type 0 where
  pub date : IsDate y mo d h mi s
  pub tag : c.after_tag ≡ (if ltb y 2050 then 0x17 else 0x18)
  pub field :
      c.not_after ≡ (if ltb y 2050 then utc_time y mo d h mi s else generalized_time y mo d h mi s)

module _ (c : Certificate) {y mo d h mi s : ℕ} (x : Expires c y mo d h mi s) where
  parse_field : parse_x509_time c.not_after c.after_tag ≡ some (tm_of y mo d h mi s)
  parse_field = elim (Bool-cases (ltb y 2050)) [
    | inl old ↦ rw (x.tag, x.field, old) (parse-utc_time y mo d h mi s x.date (ltb→lt y 2050 old))
    | inr late ↦ rw (x.tag, x.field, late) (parse-generalized_time y mo d h mi s x.date)
  ]

-- For every certificate of at most 765 bytes of DER, whatever its other fields, and every expiry
-- from 1970 on written as RFC 5280 asks: the parser, given the PEM block of the certificate and
-- anything behind it, succeeds, and stores the expiry's Unix time if that is below 2 ^ 31. From
-- 2038-01-19T03:14:08Z on the conversion overflows `long`, and what is stored is undefined.
pub parse_leaf_not_after-cert :
    (c : Certificate) (label rest : Bytes) {y mo d h mi s : ℕ}
    → Expires c y mo d h mi s
    → All IsByte (tagged 0x30 (cert_content c))
    → length (tagged 0x30 (cert_content c)) ≤ 765
    → Lacks newline label
    → parse_leaf_not_after (der_to_pem_string (tagged 0x30 (cert_content c)) label ++ rest)
      ≡ some (
          if ltb (unix_seconds y mo d h mi s) (2 ^ 31)
          then some (pos (unix_seconds y mo d h mi s))
          else none)
unfolding parse_leaf_not_after leaf_not_after
parse_leaf_not_after-cert c label rest {y} {mo} {d} {h} {mi} {s} x bytes small hl =
    let der : Bytes = tagged 0x30 (cert_content c) in
    let n = rw append-nil at (length-tagged 0x30 (cert_content c) []) in
    let full : (length der == 0) ≡ false = ground arith in
    let read : pem_to_der (der_to_pem_string der label ++ rest) 1024 ≡ der =
      pem_to_der-der_to_pem_string der label rest 1024 bytes hl small ∙ ground arith in
    rw
      (
        read,
        full,
        ◌>>=◌,
        find_not_after-cert c (omega arith),
        ◌>>=◌,
        parse_field c x,
        ◌>>=◌,
        tm_to_unix_utc-unix_seconds y mo d h mi s x.date,
      )
      refl
