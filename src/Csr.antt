-- ===== src/Csr.antt =====
-- The certificate request, end/arduino/crypto_pki.cpp: `build_cri` and `build_csr`. Each buffer
-- that the functions fill is a definition of its own. SHA-256 (BearSSL) and ECDSA (micro-ecc) are
-- parameters; `none` is a failed `uECC_sign`.
pub mod Bounds
pub mod Signature
pub mod Ecdsa
pub mod Reader
mod Examples
use gik_view.Prelude.{
  ℕ, suc, ◌+◌, Bool, Option, none, some, List, [], ◌∷◌, ◌++◌, Bytes, length, take, drop, ◌>>=◌,
}
use gik_view.Asn1.{
  oid_ec_pubkey, oid_p256, oid_cn, oid_ecdsa_sha256, asn1_len, asn1_seq, asn1_set, asn1_int,
}

-- `inner`: the attribute type CN and the UTF8String. `cn` is the text before its NUL.
unfoldable pub cri_inner : Bytes → Bytes
cri_inner cn = oid_cn ++ (0x0C ∷ (asn1_len (length cn) ++ cn))

-- `seq_buf` and `set_buf`.
unfoldable pub cri_seq : Bytes → Bytes
cri_seq cn = asn1_seq (cri_inner cn)

unfoldable pub cri_set : Bytes → Bytes
cri_set cn = asn1_set (cri_seq cn)

-- `algo_seq`, `bitstring` and `spki`.
unfoldable pub algo_seq : Bytes
algo_seq = asn1_seq (oid_ec_pubkey ++ oid_p256)

unfoldable pub key_bitstring : Bytes → Bytes
key_bitstring pub_xy = 0x03 ∷ (asn1_len 66 ++ (0x00 ∷ 0x04 ∷ take 64 pub_xy))

unfoldable pub spki : Bytes → Bytes
spki pub_xy = algo_seq ++ key_bitstring pub_xy

-- `buf`: version 0, the subject, the key, and the empty attributes.
unfoldable pub cri_content : Bytes → Bytes → Bytes
cri_content cn pub_xy =
    0x02 ∷ 0x01 ∷ 0x00 ∷ (asn1_seq (cri_set cn) ++ (asn1_seq (spki pub_xy) ++ (0xA0 ∷ 0x00 ∷ [])))

unfoldable pub build_cri : Bytes → Bytes → Bytes
build_cri cn pub_xy = asn1_seq (cri_content cn pub_xy)

-- `rs`, `sig_seq` and `sig_bitstring`, from the raw signature R || S.
unfoldable pub sig_rs : Bytes → Bytes
sig_rs sig_raw = asn1_int (take 32 sig_raw) ++ asn1_int (take 32 (drop 32 sig_raw))

unfoldable pub sig_seq : Bytes → Bytes
sig_seq sig_raw = asn1_seq (sig_rs sig_raw)

unfoldable pub sig_bitstring : Bytes → Bytes
sig_bitstring sig_raw = 0x03 ∷ (asn1_len (length (sig_seq sig_raw) + 1) ++ (0x00 ∷ sig_seq sig_raw))

unfoldable pub sig_algo : Bytes
sig_algo = asn1_seq oid_ecdsa_sha256

-- `fi`, and the request around it.
unfoldable pub csr_content : Bytes → Bytes → Bytes → Bytes
csr_content cn pub_xy sig_raw = build_cri cn pub_xy ++ (sig_algo ++ sig_bitstring sig_raw)

module _ (sha256 : Bytes → Bytes) (sign : Bytes → Bytes → Option Bytes) where
  unfoldable pub build_csr : Bytes → Bytes → Bytes → Option Bytes
  build_csr cn pub_xy priv_d = do
    sig_raw ← sign priv_d (sha256 (build_cri cn pub_xy))
    some (asn1_seq (csr_content cn pub_xy sig_raw))
