-- ===== src/Base64/Laws.antt =====
-- The decoder undoes both encoders, exactly as far as the output buffer allows.
use gik_view.Prelude.{
  ℕ, ◌≡◌, Bool, true, false, [], Bytes, IsByte, length, All, arith, leb, if◌then◌else◌, Bool-cases,
  inl, inr, leb→le, leb→lt,
}
use gik_view.Base64.{
  b64_std, b64_url, b64_encode_impl, base64_encode, base64url_encode, decode_loop, base64_decode,
}
use gik_view.Base64.Alphabet.{IsAlphabet, b64_std-IsAlphabet, b64_url-IsAlphabet}
use gik_view.Base64.RoundTrip.{decode-encode_loop}
use gik_view.Base64.Overflow.{decode-encode_full}

decode-encode_impl :
    (abc : Bytes) (pad : Bool) (bytes : Bytes) (out_max : ℕ)
    → IsAlphabet abc
    → All IsByte bytes
    → decode_loop (b64_encode_impl abc pad bytes) out_max 0 0 []
      ≡ (if leb (length bytes) out_max then bytes else [])
decode-encode_impl abc pad bytes out_max alphabet h =
    elim (Bool-cases (leb (length bytes) out_max)) [
      | inl fits ↦ rw fits (
          decode-encode_loop abc alphabet out_max pad bytes 0 [] h
            (omega (arith, leb→le (length bytes) out_max fits)))
      | inr wide ↦ rw wide (
          decode-encode_full abc alphabet pad out_max bytes 0 [] h (omega arith)
            (omega (arith, leb→lt (length bytes) out_max wide)))
    ]

-- For every list of bytes and every `out_max`: decoding the standard, padded encoding gives back
-- the bytes if they fit in `out_max`, and nothing (the returned length 0) if they do not.
pub base64_decode-base64_encode :
    (bytes : Bytes) (out_max : ℕ)
    → All IsByte bytes
    → base64_decode (base64_encode bytes) out_max
      ≡ (if leb (length bytes) out_max then bytes else [])
unfolding base64_decode base64_encode
base64_decode-base64_encode bytes out_max h =
    decode-encode_impl b64_std true bytes out_max b64_std-IsAlphabet h

-- For every list of bytes and every `out_max`: decoding the url-safe encoding, which has no
-- padding, gives back the bytes if they fit in `out_max`, and nothing if they do not.
pub base64_decode-base64url_encode :
    (bytes : Bytes) (out_max : ℕ)
    → All IsByte bytes
    → base64_decode (base64url_encode bytes) out_max
      ≡ (if leb (length bytes) out_max then bytes else [])
unfolding base64_decode base64url_encode
base64_decode-base64url_encode bytes out_max h =
    decode-encode_impl b64_url false bytes out_max b64_url-IsAlphabet h
