-- ===== src/Ec.antt =====
-- EC private keys in DER, end/arduino/crypto_pki.cpp: `build_ec_priv_der` and `ec_priv_from_der`.
pub mod RoundTrip
use gik_view.Prelude.{
  ℕ, suc, ◌+◌, ◌≤◌, Bool, true, false, ◌&&◌, Option, none, some, List, [], ◌∷◌, ◌++◌, Bytes, length,
  take, drop, ltb, ◌==◌, if◌then◌else◌,
}
use gik_view.Asn1.{oid_p256, asn1_seq}

-- `buf`: version 1, OCTET STRING of the scalar, [0] the curve, [1] the public point.
unfoldable pub ec_priv_content : Bytes → Bytes → Bytes
ec_priv_content priv_d pub_xy =
    0x02
    ∷ 0x01
    ∷ 0x01
    ∷ 0x04
    ∷ 0x20
    ∷ (take 32 priv_d
        ++ (0xA0 ∷ 10 ∷ (oid_p256 ++ (0xA1 ∷ 68 ∷ 0x03 ∷ 66 ∷ 0x00 ∷ 0x04 ∷ take 64 pub_xy))))

unfoldable pub build_ec_priv_der : Bytes → Bytes → Bytes
unfolding ec_priv_content
build_ec_priv_der priv_d pub_xy = asn1_seq (ec_priv_content priv_d pub_xy)

-- `der[i] == 0x04 && der[i+1] == 0x20`, at the head of what is left.
pub octet_string_32 : Bytes → Bool
octet_string_32 [] = false
octet_string_32 (a ∷ []) = false
octet_string_32 (a ∷ b ∷ der) = a == 0x04 && b == 0x20

-- The loop over `i`, on the bytes from `i` on: `i + 33 < der_len` says that 34 of them are left.
pub ec_priv_from_der : Bytes → Option Bytes
unfolding octet_string_32
ec_priv_from_der [] = none
ec_priv_from_der (b ∷ der) =
    if ltb 33 (length (b ∷ der))
    then if octet_string_32 (b ∷ der) then some (take 32 (drop 1 der)) else ec_priv_from_der der
    else none
