-- ===== src/Csr/Signature.antt =====
-- The static buffers of `build_csr` are large enough.
use gik_view.Prelude.{
  ◌+◌, ◌≤◌, ◌<◌, ◌≡◌, refl, inl, inr, Option, none, some, [], ◌∷◌, ◌++◌, Bytes, length, take, drop,
  arith, length-append, length-take, length-drop, Option-cases,
}
use gik_view.Asn1.{asn1_len, tagged, asn1_seq, asn1_int}
use gik_view.Asn1.Integer.{length-asn1_int}
use gik_view.Csr.{build_cri, sig_rs, sig_seq, sig_bitstring, sig_algo, csr_content, build_csr}
use gik_view.Csr.Bounds.{
  CriFits, build_cri-CriFits, length-asn1_len, length-asn1_seq, length-build_cri,
}

-- The sizes that `build_csr` declares: `sig_raw[64]`, `r_int[40]`, `s_int[40]`, `rs[80]`,
-- `sig_seq[100]`, `sig_bs[110]`, `sig_bitstring[120]`, `algo_seq[20]` and `fi[700]`, behind those
-- of `build_cri`. The request has at most 239 bytes.
pub record CsrFits (cn pub_xy sig_raw : Bytes) : Type 0 where
  pub cri : CriFits cn pub_xy
  pub raw : length sig_raw ≤ 64
  pub r_int : length (asn1_int (take 32 sig_raw)) ≤ 40
  pub s_int : length (asn1_int (take 32 (drop 32 sig_raw))) ≤ 40
  pub rs : length (sig_rs sig_raw) ≤ 80
  pub seq_buf : length (sig_seq sig_raw) ≤ 100
  pub sig_bs : length (0x00 ∷ sig_seq sig_raw) ≤ 110
  pub bitstring : length (sig_bitstring sig_raw) ≤ 120
  pub algo : length sig_algo ≤ 20
  pub fi : length (csr_content cn pub_xy sig_raw) ≤ 700
  pub csr : length (asn1_seq (csr_content cn pub_xy sig_raw)) ≤ 239

length-scalar : (c : Bytes) → length c ≡ 32 → length (asn1_int c) ≤ 35
length-scalar [] e = absurd (omega arith)
length-scalar (b ∷ bs) e = omega (arith, length-asn1_int b bs (omega arith))

length-r_int : (sig_raw : Bytes) → length sig_raw ≡ 64 → length (asn1_int (take 32 sig_raw)) ≤ 35
length-r_int sig_raw e = length-scalar (take 32 sig_raw) (omega (arith, length-take {0} 32 sig_raw))

length-s_int :
    (sig_raw : Bytes) → length sig_raw ≡ 64 → length (asn1_int (take 32 (drop 32 sig_raw))) ≤ 35
length-s_int sig_raw e =
    length-scalar (take 32 (drop 32 sig_raw))
      (omega (arith, length-take {0} 32 (drop 32 sig_raw), length-drop {0} 32 sig_raw))

pub length-sig_rs : (sig_raw : Bytes) → length sig_raw ≡ 64 → length (sig_rs sig_raw) ≤ 70
unfolding sig_rs
length-sig_rs sig_raw e = omega (
  arith,
  length-append {0} (asn1_int (take 32 sig_raw)) (asn1_int (take 32 (drop 32 sig_raw))),
  length-r_int sig_raw e,
  length-s_int sig_raw e,
)

pub length-sig_seq : (sig_raw : Bytes) → length sig_raw ≡ 64 → length (sig_seq sig_raw) ≤ 74
unfolding sig_seq
length-sig_seq sig_raw e =
    omega (arith, length-sig_rs sig_raw e, (length-asn1_seq (sig_rs sig_raw)).0)

length-sig_bitstring : (sig_raw : Bytes) → length sig_raw ≡ 64 → length (sig_bitstring sig_raw) ≤ 79
unfolding sig_bitstring
length-sig_bitstring sig_raw e = ground (
  arith,
  length-append {0} (asn1_len (length (sig_seq sig_raw) + 1)) (0x00 ∷ sig_seq sig_raw),
  length-asn1_len (length (sig_seq sig_raw) + 1),
  length-sig_seq sig_raw e,
)

length-sig_algo : length sig_algo ≡ 12
unfolding sig_algo asn1_seq tagged asn1_len
length-sig_algo = refl

length-csr_content :
    (cn pub_xy sig_raw : Bytes)
    → length cn < 32
    → length sig_raw ≡ 64
    → length (csr_content cn pub_xy sig_raw) ≤ length cn + 204
unfolding csr_content
length-csr_content cn pub_xy sig_raw h e = omega (
  arith,
  length-append {0} (build_cri cn pub_xy) (sig_algo ++ sig_bitstring sig_raw),
  length-append {0} sig_algo (sig_bitstring sig_raw),
  length-build_cri cn pub_xy h,
  length-sig_algo,
  length-sig_bitstring sig_raw e,
)

-- No buffer of `build_csr`, and of `build_cri` in it, overflows, and the request has at most 239
-- bytes, for every name that fits `char cn[32]` and every signature of 64 bytes.
pub build_csr-CsrFits :
    (cn pub_xy sig_raw : Bytes) → length cn < 32 → length sig_raw ≡ 64 → CsrFits cn pub_xy sig_raw
build_csr-CsrFits cn pub_xy sig_raw h e = record {
  cri = build_cri-CriFits cn pub_xy h;
  raw = omega (arith, e);
  r_int = omega (arith, length-r_int sig_raw e);
  s_int = omega (arith, length-s_int sig_raw e);
  rs = omega (arith, length-sig_rs sig_raw e);
  seq_buf = omega (arith, length-sig_seq sig_raw e);
  sig_bs = omega (arith, length-sig_seq sig_raw e);
  bitstring = omega (arith, length-sig_bitstring sig_raw e);
  algo = omega (arith, length-sig_algo);
  fi = omega (arith, length-csr_content cn pub_xy sig_raw h e);
  csr = omega (
    arith,
    length-csr_content cn pub_xy sig_raw h e,
    (length-asn1_seq (csr_content cn pub_xy sig_raw)).0,
  );
}

-- If the signer returns 64 bytes, a finished request is at most 239 bytes long, so it fits the
-- caller's `csr_der[800]`; a failed signature gives no request.
pub length-build_csr :
    (sha256 : Bytes → Bytes) (sign : Bytes → Bytes → Option Bytes) (cn pub_xy priv_d : Bytes)
    → ((d hash sig : Bytes) → sign d hash ≡ some sig → length sig ≡ 64)
    → length cn < 32
    → ((csr : Bytes) → build_csr sha256 sign cn pub_xy priv_d ≡ some csr → length csr ≤ 239)
      × (sign priv_d (sha256 (build_cri cn pub_xy)) ≡ none
          → build_csr sha256 sign cn pub_xy priv_d ≡ none)
unfolding build_csr
length-build_csr sha256 sign cn pub_xy priv_d signs h = (
  λ csr e. elim (Option-cases (sign priv_d (sha256 (build_cri cn pub_xy)))) [
    | inl failed ↦ cc (rw failed at e)
    | inr (sig, signed) ↦
        finish sig csr (signs priv_d (sha256 (build_cri cn pub_xy)) sig signed) (rw signed at e)
  ],
  λ failed. rw failed,
)
  where
    finish :
        (sig csr : Bytes)
        → length sig ≡ 64
        → some (asn1_seq (csr_content cn pub_xy sig)) ≡ some csr
        → length csr ≤ 239
    finish sig csr e p = ground (arith, (build_csr-CsrFits cn pub_xy sig h e).csr)
