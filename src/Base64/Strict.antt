-- ===== src/Base64/Strict.antt =====
-- A strict reader of base64url, written from RFC 4648 and not from the firmware: the alphabet of
-- the URL form alone, no padding, no other characters, and no bits set behind the last byte.
use gik_view.Prelude.{
  ℕ, ◌+◌, ◌-◌, ◌*◌, ◌/◌, ◌%◌, ◌<◌, ◌≡◌, refl, ◌∙◌, ap, true, false, ◌&&◌, Option, none, some, [],
  ◌∷◌, ◌++◌, Bytes, IsByte, All, get_or, leb, ◌==◌, if◌then◌else◌, ◌>>=◌, require, arith,
}
use gik_view.Prelude.Tables.{all_below, all_below_sound}
use gik_view.Base64.{b64_url, b64_encode_impl, base64url_encode}
use gik_view.Base64.Alphabet.{is_some_of, is_some_of_sound}
use gik_view.Base64.Encode.{d0, d1, d2, d3, group_three-digits, group_two-digits, group_one-digits}

unfoldable url_value : ℕ → Option ℕ
url_value c =
    if leb b'A' c && leb c b'Z'
    then some (c - 65)
    else if leb b'a' c && leb c b'z'
    then some (c - 71)
    else if leb b'0' c && leb c b'9'
    then some (c + 4)
    else if c == b'-'
    then some 62
    else if c == b'_'
    then some 63
    else none

unfoldable pub read_base64url : Bytes → Option Bytes
unfolding url_value
read_base64url [] = some []
read_base64url (w ∷ []) = none
read_base64url (w ∷ x ∷ []) = do
  a ← url_value w
  b ← url_value x
  _ ← require (b % 16 == 0)
  some ((a * 4 + b / 16) ∷ [])
read_base64url (w ∷ x ∷ y ∷ []) = do
  a ← url_value w
  b ← url_value x
  c ← url_value y
  _ ← require (c % 4 == 0)
  some ((a * 4 + b / 16) ∷ (b % 16 * 16 + c / 4) ∷ [])
read_base64url (w ∷ x ∷ y ∷ z ∷ rest) = do
  a ← url_value w
  b ← url_value x
  c ← url_value y
  d ← url_value z
  more ← read_base64url rest
  some ((a * 4 + b / 16) ∷ (b % 16 * 16 + c / 4) ∷ (c % 4 * 64 + d) ∷ more)

url_table : all_below 64 (λ n. is_some_of n (url_value (get_or b64_url n 0))) ≡ true
unfolding all_below url_value
url_table = refl

value : (n : ℕ) → n < 64 → url_value (get_or b64_url n 0) ≡ some n
value n h = is_some_of_sound n _ (all_below_sound 64 _ n url_table h)

first_byte : (a b : ℕ) → a < 256 → b < 256 → d0 a * 4 + d1 a b / 16 ≡ a
first_byte a b ha hb = omega arith

second_byte : (a b c : ℕ) → a < 256 → b < 256 → c < 256 → d1 a b % 16 * 16 + d2 b c / 4 ≡ b
second_byte a b c ha hb hc = omega arith

third_byte : (b c : ℕ) → b < 256 → c < 256 → d2 b c % 4 * 64 + d3 c ≡ c
third_byte b c hb hc = omega arith

no_bits_left : (b : ℕ) → b < 256 → (d1 b 0 % 16 == 0) ≡ true
no_bits_left b h = ground arith

no_bits_left_two : (b : ℕ) → b < 256 → (d2 b 0 % 4 == 0) ≡ true
no_bits_left_two b h = ground arith

-- What `base64url_encode` writes is read back.
pub read_base64url-base64url_encode :
    (bytes : Bytes) → All IsByte bytes → read_base64url (base64url_encode bytes) ≡ some bytes
unfolding base64url_encode b64_encode_impl read_base64url
read_base64url-base64url_encode [] h = refl
read_base64url-base64url_encode (a ∷ []) (ha, _) =
    ap read_base64url (group_one-digits b64_url false a ha)
    ∙ rw
        (
          value (d0 a) (omega arith),
          ◌>>=◌,
          value (d1 a 0) (omega arith),
          ◌>>=◌,
          no_bits_left a ha,
          ◌>>=◌,
          first_byte a 0 ha (omega arith),
        )
        refl
read_base64url-base64url_encode (a ∷ b ∷ []) (ha, (hb, _)) =
    ap read_base64url (group_two-digits b64_url false a b ha hb)
    ∙ rw
        (
          value (d0 a) (omega arith),
          ◌>>=◌,
          value (d1 a b) (omega arith),
          ◌>>=◌,
          value (d2 b 0) (omega arith),
          ◌>>=◌,
          no_bits_left_two b hb,
          ◌>>=◌,
          first_byte a b ha hb,
          second_byte a b 0 ha hb (omega arith),
        )
        refl
read_base64url-base64url_encode (a ∷ b ∷ c ∷ rest) (ha, (hb, (hc, h))) =
    ap (λ front. read_base64url (front ++ b64_encode_impl b64_url false rest))
      (group_three-digits b64_url a b c ha hb hc)
    ∙ rw
        (
          value (d0 a) (omega arith),
          ◌>>=◌,
          value (d1 a b) (omega arith),
          ◌>>=◌,
          value (d2 b c) (omega arith),
          ◌>>=◌,
          value (d3 c) (omega arith),
          ◌>>=◌,
          read_base64url-base64url_encode rest h,
          ◌>>=◌,
          first_byte a b ha hb,
          second_byte a b c ha hb hc,
          third_byte b c hb hc,
        )
        refl
