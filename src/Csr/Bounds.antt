-- ===== src/Csr/Bounds.antt =====
-- The static buffers of `build_cri` and `build_csr` are large enough.
use gik_view.Prelude.{
  ℕ, ◌+◌, ◌≤◌, ◌<◌, ◌≡◌, refl, [], ◌∷◌, ◌++◌, Bytes, length, take, arith, length-append,
  length-take, if◌then◌else◌, ltb,
}
use gik_view.Asn1.{oid_ec_pubkey, oid_p256, asn1_len, tagged, asn1_seq, asn1_set}
use gik_view.Csr.{
  cri_inner, cri_seq, cri_set, algo_seq, key_bitstring, spki, cri_content, build_cri,
}

-- The length of a builder's result, for the contents of this program.
pub length-asn1_len :
    (n : ℕ) → length (asn1_len n) ≡ (if ltb n 128 then 1 else if ltb n 256 then 2 else 3)
unfolding asn1_len
length-asn1_len n = ground arith

length-tagged :
    (tag : ℕ) (c : Bytes)
    → (length (tagged tag c) ≤ length c + 4)
      × (length c < 128 → length (tagged tag c) ≡ length c + 2)
unfolding tagged
length-tagged tag c = (
  ground (arith, length-append {0} (asn1_len (length c)) c, length-asn1_len (length c)),
  λ h. ground (arith, length-append {0} (asn1_len (length c)) c, length-asn1_len (length c)),
)

-- The sizes that `build_cri` declares: `inner[64]`, `seq_buf[80]`, `set_buf[80]`, `algo[32]`,
-- `algo_seq[40]`, `bs[68]`, `bitstring[80]`, `spki[128]`, `buf[512]` and the caller's `cri[512]`.
pub record CriFits (cn pub_xy : Bytes) : Type 0 where
  pub inner : length (cri_inner cn) ≤ 64
  pub seq_buf : length (cri_seq cn) ≤ 80
  pub set_buf : length (cri_set cn) ≤ 80
  pub algo : length (oid_ec_pubkey ++ oid_p256) ≤ 32
  pub algo_buf : length algo_seq ≤ 40
  pub bs : length (0x00 ∷ 0x04 ∷ take 64 pub_xy) ≤ 68
  pub bitstring : length (key_bitstring pub_xy) ≤ 80
  pub key : length (spki pub_xy) ≤ 128
  pub buf : length (cri_content cn pub_xy) ≤ 512
  pub cri : length (build_cri cn pub_xy) ≤ 512

pub length-cri_inner : (cn : Bytes) → length cn < 32 → length (cri_inner cn) ≡ length cn + 7
unfolding cri_inner
length-cri_inner cn h =
    ground (arith, length-append {0} (asn1_len (length cn)) cn, length-asn1_len (length cn))

length-key_bitstring : (pub_xy : Bytes) → length (key_bitstring pub_xy) ≤ 68
unfolding key_bitstring asn1_len
length-key_bitstring pub_xy = omega (arith, length-take {0} 64 pub_xy)

length-algo_seq : length algo_seq ≡ 21
unfolding algo_seq asn1_seq tagged asn1_len
length-algo_seq = refl

pub length-spki : (pub_xy : Bytes) → length (spki pub_xy) ≤ 89
unfolding spki
length-spki pub_xy = omega (
  arith,
  length-append {0} algo_seq (key_bitstring pub_xy),
  length-key_bitstring pub_xy,
  length-algo_seq,
)

pub length-asn1_seq :
    (c : Bytes)
    → (length (asn1_seq c) ≤ length c + 4) × (length c < 128 → length (asn1_seq c) ≡ length c + 2)
unfolding asn1_seq
length-asn1_seq c = length-tagged 0x30 c

pub length-cri_seq : (cn : Bytes) → length cn < 32 → length (cri_seq cn) ≡ length cn + 9
unfolding cri_seq
length-cri_seq cn h = omega (
  arith,
  length-cri_inner cn h,
  (length-asn1_seq (cri_inner cn)).1 (omega (arith, length-cri_inner cn h)),
)

pub length-cri_set : (cn : Bytes) → length cn < 32 → length (cri_set cn) ≡ length cn + 11
unfolding cri_set asn1_set
length-cri_set cn h = omega (
  arith,
  length-cri_seq cn h,
  (length-tagged 0x31 (cri_seq cn)).1 (omega (arith, length-cri_seq cn h)),
)

pub length-cri_content :
    (cn pub_xy : Bytes) → length cn < 32 → length (cri_content cn pub_xy) ≤ length cn + 109
unfolding cri_content
length-cri_content cn pub_xy h = omega (
  arith,
  length-append {0} (asn1_seq (cri_set cn)) (asn1_seq (spki pub_xy) ++ (0xA0 ∷ 0x00 ∷ [])),
  length-append {0} (asn1_seq (spki pub_xy)) (0xA0 ∷ 0x00 ∷ []),
  length-cri_set cn h,
  length-spki pub_xy,
  (length-asn1_seq (cri_set cn)).1 (omega (arith, length-cri_set cn h)),
  (length-asn1_seq (spki pub_xy)).1 (omega (arith, length-spki pub_xy)),
)

pub length-build_cri :
    (cn pub_xy : Bytes) → length cn < 32 → length (build_cri cn pub_xy) ≤ length cn + 113
unfolding build_cri
length-build_cri cn pub_xy h =
    omega (arith, length-cri_content cn pub_xy h, (length-asn1_seq (cri_content cn pub_xy)).0)

-- No buffer of `build_cri` overflows, for every name that fits the caller's `char cn[32]`.
pub build_cri-CriFits : (cn pub_xy : Bytes) → length cn < 32 → CriFits cn pub_xy
build_cri-CriFits cn pub_xy h = record {
  inner = omega (arith, length-cri_inner cn h);
  seq_buf = omega (arith, length-cri_seq cn h);
  set_buf = omega (arith, length-cri_set cn h);
  algo = omega arith;
  algo_buf = omega (arith, length-algo_seq);
  bs = omega (arith, length-take {0} 64 pub_xy);
  bitstring = omega (arith, length-key_bitstring pub_xy);
  key = omega (arith, length-spki pub_xy);
  buf = omega (arith, length-cri_content cn pub_xy h);
  cri = omega (arith, length-build_cri cn pub_xy h);
}
