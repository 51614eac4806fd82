-- ===== src/Base64.antt =====
-- end/arduino/crypto_asn1.cpp, the Base64 half: the two alphabets, `b64_encode_impl` with its two
-- wrappers, `b64_val` and `base64_decode`.
pub mod Alphabet
pub mod Encode
pub mod Decode
pub mod RoundTrip
mod Overflow
pub mod Laws
pub mod Strict
mod Examples
use gik_view.Prelude.{
  ℕ, suc, ◌+◌, ◌-◌, ◌*◌, ◌/◌, ◌%◌, ◌^◌, bit_and, bit_or, Bool, true, false, ◌&&◌, ◌||◌, Option,
  none, some, List, [], ◌∷◌, ◌++◌, Bytes, codes, length, get_or, leb, ◌==◌, if◌then◌else◌,
}
use gik_view.Prelude.Bits.{shr, shl32}

abbrev pub b64_std : Bytes
b64_std = codes "ABCDEFGHIJKLMNOPQRSTUVWXYZabcdefghijklmnopqrstuvwxyz0123456789+/"

abbrev pub b64_url : Bytes
b64_url = codes "ABCDEFGHIJKLMNOPQRSTUVWXYZabcdefghijklmnopqrstuvwxyz0123456789-_"

-- `abc[(v >> k) & 0x3F]`
pub digit : Bytes → ℕ → ℕ → ℕ
digit abc v k = get_or abc (bit_and (shr v k) 0x3f) 0

-- The characters that the loop writes for three, two or one input bytes; `v` is a `uint32_t`.
pub group_three : Bytes → ℕ → ℕ → ℕ → Bytes
unfolding digit
group_three abc a b c =
    let v = bit_or (bit_or (shl32 a 16) (shl32 b 8)) c in
    digit abc v 18 ∷ digit abc v 12 ∷ digit abc v 6 ∷ digit abc v 0 ∷ []

pub group_two : Bytes → Bool → ℕ → ℕ → Bytes
unfolding digit
group_two abc pad a b =
    let v = bit_or (shl32 a 16) (shl32 b 8) in
    digit abc v 18 ∷ digit abc v 12 ∷ digit abc v 6 ∷ (if pad then b'=' ∷ [] else [])

pub group_one : Bytes → Bool → ℕ → Bytes
unfolding digit
group_one abc pad a =
    let v = shl32 a 16 in digit abc v 18 ∷ digit abc v 12 ∷ (if pad then b'=' ∷ b'=' ∷ [] else [])

-- `for (i = 0; i < in_len; i += 3)`. The result is what stands in `out` before the final NUL.
pub b64_encode_impl : Bytes → Bool → Bytes → Bytes
unfolding group_three group_two group_one
b64_encode_impl abc pad [] = []
b64_encode_impl abc pad (a ∷ []) = group_one abc pad a
b64_encode_impl abc pad (a ∷ b ∷ []) = group_two abc pad a b
b64_encode_impl abc pad (a ∷ b ∷ c ∷ rest) = group_three abc a b c ++ b64_encode_impl abc pad rest

unfoldable pub base64_encode : Bytes → Bytes
unfolding b64_encode_impl
base64_encode bytes = b64_encode_impl b64_std true bytes

unfoldable pub base64url_encode : Bytes → Bytes
unfolding b64_encode_impl
base64url_encode bytes = b64_encode_impl b64_url false bytes

-- `none` is the result -1.
pub b64_val : ℕ → Option ℕ
b64_val c =
    if leb b'A' c && leb c b'Z'
    then some (c - b'A')
    else if leb b'a' c && leb c b'z'
    then some (c - b'a' + 26)
    else if leb b'0' c && leb c b'9'
    then some (c - b'0' + 52)
    else if c == b'+' || c == b'-'
    then some 62
    else if c == b'/' || c == b'_'
    then some 63
    else none

-- The loop of `base64_decode`, over `buf`, `bits` and the bytes written so far. The result is the
-- part of `out` that the returned length covers: nothing, when `out_max` is exceeded.
pub decode_loop : Bytes → ℕ → ℕ → ℕ → Bytes → Bytes
unfolding b64_val
decode_loop [] out_max buf bits out = out
decode_loop (c ∷ cs) out_max buf bits out = elim (b64_val c) [
  | none ↦ decode_loop cs out_max buf bits out
  | some v ↦ elim (leb 8 (bits + 6)) [
    | false ↦ decode_loop cs out_max (bit_or (shl32 buf 6) v) (bits + 6) out
    | true ↦ elim (leb out_max (length out)) [
      | true ↦ []
      | false ↦
          decode_loop cs out_max (bit_or (shl32 buf 6) v) (bits + 6 - 8)
            (out ++ (bit_and (shr (bit_or (shl32 buf 6) v) (bits + 6 - 8)) 0xff ∷ []))
    ]
  ]
]

unfoldable pub base64_decode : Bytes → ℕ → Bytes
unfolding decode_loop
base64_decode text out_max = decode_loop text out_max 0 0 []
