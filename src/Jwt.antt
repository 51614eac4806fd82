-- ===== src/Jwt.antt =====
-- The X5C token, end/arduino/crypto_pki.cpp: `build_x5c_jwt`. SHA-256, ECDSA, the clock and the two
-- words of the random register are parameters. The model is for arguments with which no buffer
-- overflows and snprintf cuts nothing, as Jwt/Bounds states of the declared sizes: header and
-- payload are as printed in full. With others the code reads behind a buffer, which is not
-- modelled.
pub mod Token
pub mod Bounds
mod Examples
use gik_view.Prelude.{
  ℕ, zero, suc, ◌+◌, ◌/◌, ◌%◌, Option, none, some, List, [], ◌∷◌, ◌++◌, Bytes, codes, ◌>>=◌, take,
  length,
}
use gik_view.Base64.{base64_encode, base64url_encode}
use gik_view.Fs.{print_ulong}
use gik_view.Mqtt.{hex_digit}

-- The last `k` digits in base 16, which is `%08lx` for 8 of a 32-bit word.
unfoldable pub hex_word : ℕ → ℕ → Bytes
unfolding hex_digit
hex_word zero n = []
hex_word (suc k) n = hex_word k (n / 16) ++ (hex_digit (n % 16) ∷ [])

unfoldable pub jwt_header : Bytes → Bytes
jwt_header cert_der =
    codes "{\"alg\":\"ES256\",\"typ\":\"JWT\",\"x5c\":[\""
    ++ (base64_encode cert_der ++ codes "\"]}")

-- `STEP_CA_AUDIENCE_BASE`
abbrev pub audience_base : Bytes
audience_base = codes "https://step-ca.gikview.svc.cluster.local/1.0/sign"

-- What the token's payload is printed from.
pub record Claims : Type 0 where
  pub cn : Bytes
  pub provisioner : Bytes
  pub now : ℕ
  pub r0 : ℕ
  pub r1 : ℕ

unfoldable pub jwt_payload : Claims → Bytes
unfolding hex_word
jwt_payload c =
    codes "{\"iss\":\""
    ++ (c.provisioner
        ++ (codes "\",\"sub\":\""
            ++ (c.cn
                ++ (codes "\",\"aud\":\""
                    ++ (audience_base
                        ++ (codes "#x5c/"
                            ++ (c.provisioner
                                ++ (codes "\",\"sans\":[\""
                                    ++ (c.cn
                                        ++ (codes "\"],\"iat\":"
                                            ++ (print_ulong c.now
                                                ++ (codes ",\"nbf\":"
                                                    ++ (print_ulong c.now
                                                        ++ (codes ",\"exp\":"
                                                            ++ (print_ulong (c.now + 300)
                                                            ++ (codes ",\"jti\":\""
                                                            ++ (hex_word 8 c.r0
                                                            ++ (hex_word 8 c.r1
                                                            ++ codes "\"}"))))))))))))))))))

-- What is signed: the two parts with a dot between.
unfoldable pub signing_input : Bytes → Claims → Bytes
unfolding jwt_header jwt_payload
signing_input cert_der c =
    base64url_encode (jwt_header cert_der) ++ (b'.' ∷ base64url_encode (jwt_payload c))

module _ (sha256 : Bytes → Bytes) (sign : Bytes → Bytes → Option Bytes) where
  unfoldable pub build_x5c_jwt : Bytes → Bytes → Claims → Option Bytes
  unfolding signing_input
  build_x5c_jwt cert_der priv_d c = do
    sig_raw ← sign priv_d (sha256 (signing_input cert_der c))
    some (signing_input cert_der c ++ (b'.' ∷ base64url_encode sig_raw))
