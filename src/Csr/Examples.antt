-- ===== src/Csr/Examples.antt =====
-- The theorems on certificate requests at a concrete name and key.
use gik_view.Prelude.{
  ◌≡◌, refl, some, none, ◌&&◌, if◌then◌else◌, ◌++◌, Bytes, codes, replicate, arith, ℕ, zero, suc,
  ◌<◌, IsByte, All, All-append, take, drop,
}
use gik_view.Csr.{build_cri, sig_bitstring}
use gik_view.Asn1.Integer.{unsigned}
use gik_view.Csr.Ecdsa.{is_shortest, read_signature, read_signature-sig_bitstring}
use gik_view.Csr.Signature.{CsrFits, build_csr-CsrFits}
use gik_view.Csr.Reader.{read_request, read_request-build_cri}

abbrev name : Bytes
name = codes "device-a1b2c3"

abbrev point : Bytes
point = replicate 64 9

build_csr-CsrFits_example : CsrFits name point (replicate 64 0xff)
build_csr-CsrFits_example = build_csr-CsrFits name point (replicate 64 0xff) (omega arith) refl

read_request-build_cri_example :
    read_request (build_cri name point) ≡ some (record { name = name; point = point })
read_request-build_cri_example = read_request-build_cri name point (omega arith) refl

repeated : (n b : ℕ) → b < 256 → All IsByte (replicate n b)
repeated zero b h = tt
repeated (suc n) b h = (h, repeated n b h)

abbrev raw_signature : Bytes
raw_signature = replicate 32 0xff ++ replicate 32 1

read_signature-sig_bitstring_example : read_signature (sig_bitstring raw_signature) ≡ (
    if is_shortest (take 32 raw_signature) && is_shortest (take 32 (drop 32 raw_signature))
    then some (unsigned (take 32 raw_signature), unsigned (take 32 (drop 32 raw_signature)))
    else none)
read_signature-sig_bitstring_example =
    read_signature-sig_bitstring raw_signature
      (All-append {A = ℕ} IsByte (replicate 32 0xff) (replicate 32 1)
        (repeated 32 0xff (omega arith)) (repeated 32 1 (omega arith)))
      refl
