-- ===== src/Csr/Reader.antt =====
-- A reader of certificate requests, written from PKCS #10 and not from the builder: it walks the
-- request and returns the subject's common name and the public key.
use gik_view.Prelude.{
  ℕ, ◌<◌, ◌≡◌, refl, Bool, true, false, ◌&&◌, Option, none, some, [], ◌∷◌, ◌++◌, Bytes, length,
  ◌==◌, if◌then◌else◌, arith, ◌>>=◌, require, take_all,
}
use gik_view.Asn1.{oid_ec_pubkey, oid_p256, asn1_len, tagged, asn1_seq, asn1_set}
use gik_view.Asn1.Expect.{expect, expect-tagged, expect_last}
use gik_view.Csr.{
  cri_inner, cri_seq, cri_set, algo_seq, key_bitstring, spki, cri_content, build_cri,
}
use gik_view.Csr.Bounds.{
  length-cri_inner, length-cri_seq, length-cri_set, length-spki, length-cri_content,
}

pub record Request : Type 0 where
  pub name : Bytes
  pub point : Bytes

same : Bytes → Bytes → Bool
same [] [] = true
same [] (y ∷ ys) = false
same (x ∷ xs) [] = false
same (x ∷ xs) (y ∷ ys) = x == y && same xs ys

-- An element that ends its container.
unfoldable last_element : ℕ → Bytes → Option Bytes
last_element tag p = do e ← expect tag p; _ ← require (length e.rest == 0); some e.value

-- The common name: the one attribute of the one name is of the type 2.5.4.3, a UTF8String.
unfoldable read_name : Bytes → Option Bytes
unfolding same last_element
read_name p = do
  rdn ← last_element 0x31 p
  attribute ← last_element 0x30 rdn
  type ← expect 0x06 attribute
  _ ← require (same type.value (0x55 ∷ 0x04 ∷ 0x03 ∷ []))
  last_element 0x0C type.rest

-- The uncompressed form of a point: no unused bits, 4, and two coordinates of 32 bytes.
unfoldable read_point : Bytes → Option Bytes
read_point [] = none
read_point (a ∷ []) = none
read_point (unused ∷ form ∷ point) =
    if unused == 0 && (form == 4 && length point == 64) then some point else none

-- The key: an EC public key (1.2.840.10045.2.1) on the curve P-256 (1.2.840.10045.3.1.7).
unfoldable read_key : Bytes → Option Bytes
unfolding same last_element read_point
read_key p = do
  algorithm ← expect 0x30 p
  type ← expect 0x06 algorithm.value
  _ ← require (same type.value (0x2A ∷ 0x86 ∷ 0x48 ∷ 0xCE ∷ 0x3D ∷ 0x02 ∷ 0x01 ∷ []))
  curve ← last_element 0x06 type.rest
  _ ← require (same curve (0x2A ∷ 0x86 ∷ 0x48 ∷ 0xCE ∷ 0x3D ∷ 0x03 ∷ 0x01 ∷ 0x07 ∷ []))
  bits ← last_element 0x03 algorithm.rest
  read_point bits

pub read_request : Bytes → Option Request
unfolding same last_element read_name read_key
read_request p = do
  outer ← last_element 0x30 p
  version ← expect 0x02 outer
  _ ← require (same version.value (0x00 ∷ []))
  subject ← expect 0x30 version.rest
  name ← read_name subject.value
  info ← expect 0x30 subject.rest
  point ← read_key info.value
  attributes ← last_element 0xA0 info.rest
  _ ← require (length attributes == 0)
  some (record { name = name; point = point })

last_element-tagged :
    (tag : ℕ) (c : Bytes) → length c < 65536 → last_element tag (tagged tag c) ≡ some c
unfolding last_element
last_element-tagged tag c h = rw (expect_last tag c h, ◌>>=◌) refl

module _ (cn pub_xy : Bytes) (short : length cn < 32) (point : length pub_xy ≡ 64) where
  content-shape :
      cri_content cn pub_xy
      ≡ tagged 0x02 (0x00 ∷ [])
        ++ (tagged 0x30 (cri_set cn) ++ (tagged 0x30 (spki pub_xy) ++ tagged 0xA0 []))
  unfolding cri_content asn1_seq tagged asn1_len
  content-shape = refl

  inner-shape : cri_inner cn ≡ tagged 0x06 (0x55 ∷ 0x04 ∷ 0x03 ∷ []) ++ tagged 0x0C cn
  unfolding cri_inner tagged asn1_len
  inner-shape = refl

  algorithm-shape :
      oid_ec_pubkey ++ oid_p256
      ≡ tagged 0x06 (0x2A ∷ 0x86 ∷ 0x48 ∷ 0xCE ∷ 0x3D ∷ 0x02 ∷ 0x01 ∷ [])
        ++ tagged 0x06 (0x2A ∷ 0x86 ∷ 0x48 ∷ 0xCE ∷ 0x3D ∷ 0x03 ∷ 0x01 ∷ 0x07 ∷ [])
  unfolding tagged asn1_len
  algorithm-shape = refl

  spki-shape :
      spki pub_xy ≡ tagged 0x30 (oid_ec_pubkey ++ oid_p256) ++ tagged 0x03 (0x00 ∷ 0x04 ∷ pub_xy)
  unfolding spki algo_seq key_bitstring asn1_seq tagged asn1_len
  spki-shape = rw (take_all 64 pub_xy (omega arith), point)

  expect_version :
      expect 0x02 (cri_content cn pub_xy)
      ≡ some (record {
        tag = 0x02;
        value = 0x00 ∷ [];
        rest = tagged 0x30 (cri_set cn) ++ (tagged 0x30 (spki pub_xy) ++ tagged 0xA0 []);
      })
  expect_version = rw content-shape (expect-tagged 0x02 (0x00 ∷ []) _ (omega arith))

  read_name-cri_set : read_name (cri_set cn) ≡ some cn
  unfolding read_name same cri_set cri_seq asn1_set asn1_seq
  read_name-cri_set =
      rw
        (
          last_element-tagged 0x31 (tagged 0x30 (cri_inner cn))
              (unfold cri_seq asn1_seq in omega (arith, length-cri_seq cn short)),
          ◌>>=◌,
          last_element-tagged 0x30 (cri_inner cn) (omega (arith, length-cri_inner cn short)),
          ◌>>=◌,
          inner-shape,
          expect-tagged 0x06 (0x55 ∷ 0x04 ∷ 0x03 ∷ []) (tagged 0x0C cn) (omega arith),
          ◌>>=◌,
        )
        (last_element-tagged 0x0C cn (omega arith))

  read_point-key : read_point (0x00 ∷ 0x04 ∷ pub_xy) ≡ some pub_xy
  unfolding read_point
  read_point-key = rw point refl

  read_key-spki : read_key (spki pub_xy) ≡ some pub_xy
  unfolding read_key same
  read_key-spki =
      rw
        (
          spki-shape,
          expect-tagged 0x30 (oid_ec_pubkey ++ oid_p256) _ (omega arith),
          ◌>>=◌,
          algorithm-shape,
          expect-tagged 0x06 (0x2A ∷ 0x86 ∷ 0x48 ∷ 0xCE ∷ 0x3D ∷ 0x02 ∷ 0x01 ∷ []) _ (omega arith),
          ◌>>=◌,
          last_element-tagged 0x06 (0x2A ∷ 0x86 ∷ 0x48 ∷ 0xCE ∷ 0x3D ∷ 0x03 ∷ 0x01 ∷ 0x07 ∷ [])
              (omega arith),
          ◌>>=◌,
          last_element-tagged 0x03 (0x00 ∷ 0x04 ∷ pub_xy) (omega arith),
          ◌>>=◌,
        )
        read_point-key

  pub read_request-build_cri :
      read_request (build_cri cn pub_xy) ≡ some (record { name = cn; point = pub_xy })
  unfolding read_request build_cri asn1_seq same
  read_request-build_cri =
      rw
        (
          last_element-tagged 0x30 (cri_content cn pub_xy)
              (omega (arith, length-cri_content cn pub_xy short)),
          ◌>>=◌,
          expect_version,
          ◌>>=◌,
          expect-tagged 0x30 (cri_set cn) _ (omega (arith, length-cri_set cn short)),
          ◌>>=◌,
          read_name-cri_set,
          ◌>>=◌,
          expect-tagged 0x30 (spki pub_xy) _ (omega (arith, length-spki pub_xy)),
          ◌>>=◌,
          read_key-spki,
          ◌>>=◌,
          last_element-tagged 0xA0 [] (omega arith),
          ◌>>=◌,
        )
        refl
