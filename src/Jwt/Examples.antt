-- ===== src/Jwt/Examples.antt =====
-- A run of the printer of words, and a token opened again.
use gik_view.Prelude.{
  ◌≡◌, refl, codes, Option, some, Bytes, replicate, [], ◌∷◌, arith, ◌>>=◌, IsByte, All, ◌≤◌, length,
  ◌↔◌,
}
use gik_view.Base64.{base64_encode}
use gik_view.Fs.{print_ulong}
use gik_view.Jwt.{hex_word, Claims, jwt_header, jwt_payload, signing_input, build_x5c_jwt}
use gik_view.Jwt.Bounds.{JwtFits, build_x5c_jwt-JwtFits}
use gik_view.Jwt.Token.{open_token, build_x5c_jwt-Opened}

word : hex_word 8 0xbeef ≡ codes "0000beef"
unfolding hex_word
word = refl

abbrev some_claims : Claims
some_claims = record {
  cn = codes "device-0a0b0c";
  provisioner = codes "device-renewal";
  now = 1767225600;
  r0 = 7;
  r1 = 0xbeef;
}

abbrev cert : Bytes
cert = 0x30 ∷ 0x01 ∷ 0xff ∷ []

abbrev constant_signer : Bytes → Bytes → Option Bytes
constant_signer d hash = some (replicate 64 1)

header_bytes : All IsByte (jwt_header cert)
unfolding jwt_header base64_encode
header_bytes = omega arith

payload_bytes : All IsByte (jwt_payload some_claims)
unfolding jwt_payload print_ulong hex_word
payload_bytes = omega arith

build_x5c_jwt-Opened_example :
    JwtFits cert some_claims (replicate 64 1)
    × ((build_x5c_jwt (λ m. m) constant_signer cert (replicate 32 7) some_claims >>= open_token)
        ≡ some (record {
          header = jwt_header cert;
          payload = jwt_payload some_claims;
          signature = replicate 64 1;
          signed = signing_input cert some_claims;
        }))
build_x5c_jwt-Opened_example =
    build_x5c_jwt-Opened (λ m. m) constant_signer cert (replicate 32 7) (replicate 64 1) some_claims
      (omega arith) (omega arith) (omega arith) refl header_bytes payload_bytes (omega arith) refl

-- The largest certificate that fits.
abbrev large_cert : Bytes
large_cert = replicate 597 0x30

build_x5c_jwt-JwtFits_example :
    JwtFits large_cert some_claims (replicate 64 1) ↔ (length large_cert ≤ 597)
build_x5c_jwt-JwtFits_example =
    build_x5c_jwt-JwtFits large_cert some_claims (replicate 64 1) (omega arith) (omega arith) refl
