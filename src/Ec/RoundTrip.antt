-- ===== src/Ec/RoundTrip.antt =====
-- A private key is read back from its DER form.
use gik_view.Prelude.{
  ◌≡◌, ap, sym, ◌∙◌, some, ◌∷◌, ◌++◌, Bytes, length, take, arith, length-append, length-take,
  take_all, take-append, All, All-append, All-take, IsByte,
}
use gik_view.Asn1.{oid_p256, asn1_len, tagged, asn1_seq}
use gik_view.Ec.{build_ec_priv_der, ec_priv_from_der}

-- What stands behind the scalar.
abbrev after_scalar : Bytes → Bytes
after_scalar pub_xy =
    0xA0 ∷ 10 ∷ (oid_p256 ++ (0xA1 ∷ 68 ∷ 0x03 ∷ 66 ∷ 0x00 ∷ 0x04 ∷ take 64 pub_xy))

module _ (priv_d pub_xy : Bytes) (hp : length priv_d ≡ 32) (hx : length pub_xy ≡ 64) where
  length-after : length (priv_d ++ after_scalar pub_xy) ≡ 114
  length-after =
      omega (arith, length-append {0} priv_d (after_scalar pub_xy), length-take {0} 64 pub_xy)

  -- The bytes in front of the scalar: the SEQUENCE header, the version and the OCTET STRING header.
  build-shape :
      build_ec_priv_der priv_d pub_xy
      ≡ 0x30 ∷ 119 ∷ 0x02 ∷ 0x01 ∷ 0x01 ∷ 0x04 ∷ 0x20 ∷ (priv_d ++ after_scalar pub_xy)
  unfolding build_ec_priv_der asn1_seq tagged asn1_len
  build-shape = rw (take_all 32 priv_d (omega arith), length-after)

  scan-shape :
      (x : Bytes)
      → length x ≡ 114
      → ec_priv_from_der (0x30 ∷ 119 ∷ 0x02 ∷ 0x01 ∷ 0x01 ∷ 0x04 ∷ 0x20 ∷ x) ≡ some (take 32 x)
  unfolding ec_priv_from_der
  scan-shape x e = rw e

  -- For a scalar of 32 bytes and a point of 64, the DER form has 121 bytes, so it fits the caller's
  -- buffer of 200, and `ec_priv_from_der` finds the scalar in it.
  pub ec_priv_from_der-build :
      (length (build_ec_priv_der priv_d pub_xy) ≡ 121)
      × (ec_priv_from_der (build_ec_priv_der priv_d pub_xy) ≡ some priv_d)
  ec_priv_from_der-build = rw build-shape (
    omega (arith, length-after),
    scan-shape _ length-after ∙ ap some (take-append 32 priv_d (after_scalar pub_xy) (sym hp)),
  )

  pub build_ec_priv_der-bytes :
      All IsByte priv_d → All IsByte pub_xy → All IsByte (build_ec_priv_der priv_d pub_xy)
  build_ec_priv_der-bytes bp bx = rw build-shape (
      ground (
        arith,
        All-append IsByte priv_d (after_scalar pub_xy) bp
            (ground (arith, All-take IsByte 64 pub_xy bx)),
      ))
