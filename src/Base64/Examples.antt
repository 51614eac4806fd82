-- ===== src/Base64/Examples.antt =====
-- Runs of the Base64 code, and its theorems at concrete inputs.
use gik_view.Prelude.{◌≡◌, refl, [], ◌∷◌, codes, arith}
use gik_view.Base64.{base64_encode, base64url_encode, base64_decode}
use gik_view.Base64.Laws.{base64_decode-base64_encode}

encode_man : base64_encode (codes "Man") ≡ codes "TWFu"
unfolding base64_encode
encode_man = refl

encode_ma : base64_encode (codes "Ma") ≡ codes "TWE="
unfolding base64_encode
encode_ma = refl

encode_url : base64url_encode (0xfb ∷ 0xff ∷ []) ≡ codes "-_8"
unfolding base64url_encode
encode_url = refl

decode_ma : base64_decode (codes "TW\nE=") 8 ≡ codes "Ma"
unfolding base64_decode
decode_ma = refl

base64_decode-base64_encode_example :
    base64_decode (base64_encode (codes "GikView")) 7 ≡ codes "GikView"
base64_decode-base64_encode_example = base64_decode-base64_encode (codes "GikView") 7 (omega arith)
