-- ===== src/Jwt/Bounds.antt =====
-- The static buffers of `build_x5c_jwt`.
use gik_view.Prelude.{
  ℕ, zero, suc, ◌+◌, ◌*◌, ◌/◌, ◌%◌, ◌^◌, ◌≤◌, ◌<◌, ◌≡◌, ◌↔◌, refl, [], ◌∷◌, ◌++◌, Bytes, codes,
  length, arith, length-append,
}
use gik_view.Base64.{base64_encode, base64url_encode}
use gik_view.Base64.Encode.{length-base64_encode, length-base64url_encode}
use gik_view.Fs.{print_ulong}
use gik_view.Fs.Expiry.{length-decimal}
use gik_view.Jwt.{hex_word, jwt_header, audience_base, Claims, jwt_payload}

-- `aud`
abbrev pub audience : Claims → Bytes
audience c = audience_base ++ (codes "#x5c/" ++ c.provisioner)

-- The declared sizes, with room for the NUL at the end of each text.
pub record JwtFits (cert_der : Bytes) (c : Claims) (sig_raw : Bytes) : Type 0 where
  pub cert_b64 : length (base64_encode cert_der) < 800
  pub header : length (jwt_header cert_der) < 1024
  pub aud : length (audience c) < 160
  pub payload : length (jwt_payload c) < 512
  pub hdr_b64 : length (base64url_encode (jwt_header cert_der)) < 1400
  pub pl_b64 : length (base64url_encode (jwt_payload c)) < 700
  pub sig_b64 : length (base64url_encode sig_raw) < 100

length-hex_word : (k n : ℕ) → length (hex_word k n) ≡ k
unfolding hex_word
length-hex_word zero n = refl
length-hex_word (suc k) n =
    omega (arith, length-hex_word k (n / 16), length-append {0} (hex_word k (n / 16)) (_ ∷ []))

length-print_ulong_le : (n : ℕ) → length (print_ulong n) ≤ 10
unfolding print_ulong
length-print_ulong_le n = length-decimal 10 (n % 2 ^ 32)

length-jwt_header :
    (cert_der : Bytes) → length (jwt_header cert_der) ≡ length (base64_encode cert_der) + 38
unfolding jwt_header
length-jwt_header cert_der =
    omega (arith, length-append {0} (base64_encode cert_der) (codes "\"]}"))

length-audience : (c : Claims) → length (audience c) ≡ length c.provisioner + 55
length-audience c = omega (arith)

length-jwt_payload :
    (c : Claims) → length (jwt_payload c) ≤ 2 * length c.provisioner + 2 * length c.cn + 171
unfolding jwt_payload
length-jwt_payload c =
    let t17 = hex_word 8 c.r1 ++ codes "\"}" in
    let t16 = hex_word 8 c.r0 ++ t17 in
    let t15 = codes ",\"jti\":\"" ++ t16 in
    let t14 = print_ulong (c.now + 300) ++ t15 in
    let t13 = codes ",\"exp\":" ++ t14 in
    let t12 = print_ulong c.now ++ t13 in
    let t11 = codes ",\"nbf\":" ++ t12 in
    let t10 = print_ulong c.now ++ t11 in
    let t9 = codes "\"],\"iat\":" ++ t10 in
    let t8 = c.cn ++ t9 in
    let t7 = codes "\",\"sans\":[\"" ++ t8 in
    let t6 = c.provisioner ++ t7 in
    let t4 = audience_base ++ (codes "#x5c/" ++ t6) in
    let t3 = codes "\",\"aud\":\"" ++ t4 in
    let t2 = c.cn ++ t3 in
    let t1 = codes "\",\"sub\":\"" ++ t2 in
    omega (
      arith,
      length-append {0} c.provisioner t1,
      length-append {0} c.cn t3,
      length-append {0} c.provisioner t7,
      length-append {0} c.cn t9,
      length-append {0} (print_ulong c.now) t11,
      length-append {0} (print_ulong c.now) t13,
      length-append {0} (print_ulong (c.now + 300)) t15,
      length-append {0} (hex_word 8 c.r0) t17,
      length-append {0} (hex_word 8 c.r1) (codes "\"}"),
      length-hex_word 8 c.r0,
      length-hex_word 8 c.r1,
      length-print_ulong_le c.now,
      length-print_ulong_le (c.now + 300),
    )

-- For a name of less than 32 characters, a provisioner of at most 16, and a signature of 64 bytes:
-- no static buffer of `build_x5c_jwt` overflows exactly when the signer's certificate has at most
-- 597 bytes.
pub build_x5c_jwt-JwtFits :
    (cert_der : Bytes) (c : Claims) (sig_raw : Bytes)
    → length c.cn < 32
    → length c.provisioner ≤ 16
    → length sig_raw ≡ 64
    → JwtFits cert_der c sig_raw ↔ (length cert_der ≤ 597)
build_x5c_jwt-JwtFits cert_der c sig_raw short prov sig = (
  (λ fits. omega (arith, fits.cert_b64, length-base64_encode cert_der)),
  (λ small. record {
    cert_b64 = omega (arith, length-base64_encode cert_der);
    header = omega (arith, length-jwt_header cert_der, length-base64_encode cert_der);
    aud = omega (arith, length-audience c);
    payload = omega (arith, length-jwt_payload c);
    hdr_b64 = omega (
      arith,
      length-base64url_encode (jwt_header cert_der),
      length-jwt_header cert_der,
      length-base64_encode cert_der,
    );
    pl_b64 = omega (arith, length-base64url_encode (jwt_payload c), length-jwt_payload c);
    sig_b64 = omega (arith, length-base64url_encode sig_raw);
  }),
)
