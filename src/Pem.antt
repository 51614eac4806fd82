-- ===== src/Pem.antt =====
-- PEM blocks: `der_to_pem_string` (end/arduino/stepca.cpp), the text that `save_pem` writes
-- (end/arduino/fs_store.cpp) and `pem_to_der` (end/arduino/crypto_asn1.cpp).
pub mod Lines
pub mod RoundTrip
mod Examples
use gik_view.Prelude.{
  ℕ, zero, suc, ◌+◌, ◌-◌, Bool, true, false, ◌||◌, Option, none, some, List, [], ◌∷◌, ◌++◌, Bytes,
  codes, length, take, drop, ◌==◌, ◌>>=◌,
}
use gik_view.Base64.{base64_encode, base64_decode}
use gik_view.CString.{strstr, strchr}

abbrev pub newline : ℕ
newline = 10

-- `for (i = 0; i < b64_len; i += 64)`: a chunk of at most 64 characters and a newline, on as many
-- rounds as there are characters, which is enough.
pub lines : ℕ → Bytes → Bytes
lines zero b64 = []
lines (suc rounds) [] = []
lines (suc rounds) (c ∷ b64) = take 64 (c ∷ b64) ++ newline ∷ lines rounds (drop 64 (c ∷ b64))

unfoldable pub der_to_pem_string : Bytes → Bytes → Bytes
unfolding lines
der_to_pem_string der label =
    codes "-----BEGIN "
    ++ (label
        ++ (codes "-----"
            ++ newline
              ∷ (lines (length (base64_encode der)) (base64_encode der)
                  ++ (codes "-----END " ++ (label ++ (codes "-----" ++ newline ∷ []))))))

-- `*p != '\n' && *p != '\r' && *p != ' ' && *p != '\t'`, the other way round.
pub is_blank : ℕ → Bool
is_blank c = c == 10 || c == 13 || c == 32 || c == 9

-- The copy into `b64`, which stops when `room` characters are stored.
pub strip : ℕ → Bytes → Bytes
unfolding is_blank
strip room [] = []
strip zero (c ∷ text) = []
strip (suc room) (c ∷ text) = elim (is_blank c) [
  | true ↦ strip (suc room) text
  | false ↦ c ∷ strip room text
]

-- The block between the end of the BEGIN line and the END marker; `none` where one is missing.
pub pem_block : Bytes → Option Bytes
pem_block pem = do
  begin ← strstr (codes "-----BEGIN") pem
  nl ← strchr newline begin
  end ← strstr (codes "-----END") (drop 1 nl)
  some (take (length (drop 1 nl) - length end) (drop 1 nl))

abbrev pub b64_room : ℕ
b64_room = 1023

-- `static char b64[1024]` takes 1023 characters.
pub decode_block : ℕ → Option Bytes → Bytes
unfolding strip
decode_block out_max none = []
decode_block out_max (some block) = base64_decode (strip b64_room block) out_max

-- The part of `out` that the returned length covers: nothing, for the length 0.
unfoldable pub pem_to_der : Bytes → ℕ → Bytes
unfolding pem_block decode_block
pem_to_der pem out_max = decode_block out_max (pem_block pem)
