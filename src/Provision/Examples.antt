-- ===== src/Provision/Examples.antt =====
-- A bootstrap whose server refuses the request.
use gik_view.Prelude.{
  ℕ, codes, none, Option, some, Bytes, replicate, false, true, [], ◌∷◌, ◌++◌, ◌≡◌, refl, ap, ◌∙◌,
  sym, append-nil, arith, inr,
}
use gik_view.Ec.{build_ec_priv_der}
use gik_view.Jwt.{signing_input, build_x5c_jwt}
use gik_view.Fs.{FileName, bs_cert, bs_key, read_file, exists}
use gik_view.Boot.{by_expiry, decide_mode}
use gik_view.Fs.Memory.{memory, memory-IsLittleFs}
use gik_view.Prelude.Int.{pos}
use gik_view.Base64.{base64_encode, base64url_encode}
use gik_view.Asn1.{tagged, asn1_len, asn1_seq}
use gik_view.Pem.{der_to_pem_string}
use gik_view.Csr.{csr_content, build_csr}
use gik_view.X509.{parse_leaf_not_after}
use gik_view.X509.Unix.{unix_seconds}
use gik_view.X509.Leaf.{Certificate, cert_content, Expires, parse_leaf_not_after-cert}
use gik_view.Json.Escape.{without_cr}
use gik_view.Issue.Answers.{answer_body}
use gik_view.Provision.{Device, Request, gen_keypair_and_csr, claims, provision_cert}
use gik_view.Provision.Renewal.{pem_shown, provision_cert-renews}
use gik_view.Provision.Bootstrap.{IsCertificate, IsKey, Signs, provision_cert-bootstraps}
use gik_view.Provision.Files.{Result, provision_cert-Result}

abbrev device : Device
device = record {
  sha256 = λ m. m;
  sign = λ d hash. some (replicate 64 1);
  make_key = λ k. some (replicate 64 9, replicate 32 7);
  https = λ path body creds. some (403, codes "{}");
  cn = codes "device-0a0b0c";
  clock = λ k. 1767225600;
  random = λ k. (7, 8);
  undefined_time = 0;
}

abbrev flashed : FileName → Option Bytes
flashed = λ n. some (codes "-----BEGIN X-----\nTWFu\n-----END X-----\n")

provision_cert-Result_example :
    Result device memory memory-IsLittleFs false flashed
      (provision_cert device memory false flashed)
provision_cert-Result_example = provision_cert-Result device memory memory-IsLittleFs false flashed

-- A server that answers with a certificate that expires on 2026-06-11 08:30:05 UTC.
abbrev certificate : Certificate
certificate = record {
  has_version = true;
  version = 0x02 ∷ 0x01 ∷ 0x02 ∷ [];
  serial = 0x11 ∷ 0x22 ∷ [];
  sig_alg = 0x06 ∷ 0x01 ∷ 0x2A ∷ [];
  issuer = [];
  before_tag = 0x17;
  not_before = codes "260604083005Z";
  after_tag = 0x17;
  not_after = codes "260611083005Z";
  validity_tail = [];
  tbs_tail = 0x30 ∷ 0x00 ∷ [];
  cert_tail = 0x03 ∷ 0x01 ∷ 0x00 ∷ [];
}

abbrev certificate_pem : Bytes
certificate_pem = der_to_pem_string (tagged 0x30 (cert_content certificate)) (codes "CERTIFICATE")

abbrev renewing : Device
renewing = record device {
  https = λ path body creds. some (201, answer_body certificate_pem (codes "}"));
}

abbrev request : Request
request = record {
  pub_xy = replicate 64 9;
  priv = replicate 32 7;
  csr_pem =
      der_to_pem_string (asn1_seq (csr_content renewing.cn (replicate 64 9) (replicate 64 1)))
        (codes "CERTIFICATE REQUEST");
}

made : gen_keypair_and_csr renewing 0 ≡ some request
unfolding gen_keypair_and_csr build_csr
made = refl

plain : without_cr certificate_pem ≡ certificate_pem
unfolding without_cr der_to_pem_string tagged asn1_len base64_encode
plain = refl

certificate-Expires : Expires certificate 2026 6 11 8 30 5
certificate-Expires = record { date = omega arith; tag = refl; field = refl }

parsed : parse_leaf_not_after (without_cr certificate_pem) ≡ some (some (pos 1781166605))
unfolding tagged asn1_len unix_seconds
parsed =
    ap parse_leaf_not_after (plain ∙ sym (append-nil certificate_pem))
    ∙ parse_leaf_not_after-cert certificate (codes "CERTIFICATE") [] certificate-Expires
        (omega arith) (omega arith) (omega arith)

-- The expiry is less than seven days ahead at the boot.
provision_cert-renews_example :
    ((provision_cert renewing memory true flashed).0 ≡ true)
    × (decide_mode memory 1781000000 (provision_cert renewing memory true flashed).1
        ≡ by_expiry (exists memory bs_cert flashed) 1781000000 1781166605)
provision_cert-renews_example =
    provision_cert-renews memory memory-IsLittleFs (λ f n text. refl) renewing flashed request 201
      1781166605 certificate_pem (codes "}") 1781000000 made (unfold read_file in refl)
      (unfold read_file in refl) refl (inr refl)
      (rw plain (pem_shown (tagged 0x30 (cert_content certificate)) (codes "CERTIFICATE"))) parsed
      (omega arith)

-- A flash that holds the bootstrap assets, and a server that answers both requests with the same
-- certificate.
abbrev certificate_der : Bytes
certificate_der = tagged 0x30 (cert_content certificate)

abbrev unprovisioned : FileName → Option Bytes
unprovisioned bs_cert = some certificate_pem
unprovisioned bs_key = some (
    der_to_pem_string (build_ec_priv_der (replicate 32 7) (replicate 64 9))
      (codes "EC PRIVATE KEY"))
unprovisioned _ = none

abbrev token : Bytes → ℕ → Bytes
token provisioner k =
    signing_input certificate_der (claims renewing provisioner k)
    ++ (b'.' ∷ base64url_encode (replicate 64 1))

certificate-Signs :
    (jwt : Bytes) → Signs renewing.https request.csr_pem jwt certificate_pem (codes "}") 1781166605
certificate-Signs jwt = record {
  status = 201;
  ok = inr refl;
  answered = refl;
  shown = rw plain (pem_shown certificate_der (codes "CERTIFICATE"));
  parsed = parsed;
}

certificate_pem-IsCertificate : IsCertificate certificate_pem certificate_der
unfolding tagged asn1_len
certificate_pem-IsCertificate = record {
  printed = refl;
  bytes = omega arith;
  shown = refl;
  fits = omega arith;
}

read_file-IsKey : IsKey (read_file memory bs_key unprovisioned) (replicate 32 7)
unfolding read_file
read_file-IsKey = record {
  pub_xy = replicate 64 9;
  printed = refl;
  key_length = refl;
  xy_length = refl;
  key_bytes = omega arith;
  xy_bytes = omega arith;
}

provision_cert-bootstraps_example :
    ((provision_cert renewing memory false unprovisioned).0 ≡ true)
    × (decide_mode memory 1781000000 (provision_cert renewing memory false unprovisioned).1
        ≡ by_expiry false 1781000000 1781166605)
provision_cert-bootstraps_example =
    provision_cert-bootstraps memory memory-IsLittleFs (λ f n text. refl) renewing unprovisioned
      request request certificate_der (replicate 32 7) (token (codes "device-bootstrap") 0)
      certificate_pem (codes "}") certificate_der (token (codes "device-renewal") 1) certificate_pem
      (codes "}") 1781166605 1781166605 1781000000 made (unfold gen_keypair_and_csr in made)
      (unfold read_file in certificate_pem-IsCertificate) read_file-IsKey
      (unfold build_x5c_jwt in refl) (certificate-Signs (token (codes "device-bootstrap") 0))
      (rw plain certificate_pem-IsCertificate) (unfold build_x5c_jwt in refl)
      (certificate-Signs (token (codes "device-renewal") 1)) (omega arith)
