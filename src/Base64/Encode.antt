-- ===== src/Base64/Encode.antt =====
-- The encoder's groups as arithmetic on six-bit digits, and the length of what it writes.
use gik_view.Prelude.{
  ℕ, ◌+◌, ◌*◌, ◌/◌, ◌%◌, ◌^◌, ◌<◌, ◌≡◌, bit_and, bit_or, Bool, true, false, [], ◌∷◌, Bytes, length,
  All, get_or, arith, if◌then◌else◌,
}
use gik_view.Prelude.Bits.{shr, shl32, or_disjoint, and_0x3f}
use gik_view.Base64.{
  digit, group_three, group_two, group_one, b64_encode_impl, base64_encode, base64url_encode,
}

-- The 24 bits of a group.
abbrev word : ℕ → ℕ → ℕ → ℕ
word a b c = a * 2 ^ 16 + b * 2 ^ 8 + c

word_two : (a b : ℕ) → a < 256 → b < 256 → bit_or (shl32 a 16) (shl32 b 8) ≡ word a b 0
word_two a b ha hb =
    let ea : shl32 a 16 ≡ a * 2 ^ 16 = omega arith in
    let eb : shl32 b 8 ≡ b * 2 ^ 8 = omega arith in
    rw (ea, eb, or_disjoint 16 a (b * 2 ^ 8) (omega arith)) (omega arith)

word_three :
    (a b c : ℕ)
    → a < 256
    → b < 256
    → c < 256
    → bit_or (bit_or (shl32 a 16) (shl32 b 8)) c ≡ word a b c
word_three a b c ha hb hc =
    let e : word a b 0 ≡ (a * 2 ^ 8 + b) * 2 ^ 8 = omega arith in
    rw (word_two a b ha hb, e, or_disjoint 8 (a * 2 ^ 8 + b) c hc) (omega arith)

word_one : (a : ℕ) → a < 256 → shl32 a 16 ≡ word a 0 0
word_one a ha = omega arith

-- The four six-bit digits of a group.
abbrev pub d0 : ℕ → ℕ
d0 a = a / 4

abbrev pub d1 : ℕ → ℕ → ℕ
d1 a b = a % 4 * 16 + b / 16

abbrev pub d2 : ℕ → ℕ → ℕ
d2 b c = b % 16 * 4 + c / 64

abbrev pub d3 : ℕ → ℕ
d3 c = c % 64

module _ (abc : Bytes) (a b c : ℕ) (ha : a < 256) (hb : b < 256) (hc : c < 256) where
  digit-word :
      (digit abc (word a b c) 18 ≡ get_or abc (d0 a) 0)
      × (digit abc (word a b c) 12 ≡ get_or abc (d1 a b) 0)
      × (digit abc (word a b c) 6 ≡ get_or abc (d2 b c) 0)
      × (digit abc (word a b c) 0 ≡ get_or abc (d3 c) 0)
  unfolding digit
  digit-word =
      (at 18 _ (omega arith), at 12 _ (omega arith), at 6 _ (omega arith), at 0 _ (omega arith))
    where
      at :
          (k d : ℕ)
          → word a b c / 2 ^ k % 64 ≡ d
          → get_or abc (bit_and (shr (word a b c) k) 0x3f) 0 ≡ get_or abc d 0
      at k d e = rw (and_0x3f, e)

  pub group_three-digits :
      group_three abc a b c
      ≡ get_or abc (d0 a) 0
        ∷ get_or abc (d1 a b) 0
        ∷ get_or abc (d2 b c) 0
        ∷ get_or abc (d3 c) 0
        ∷ []
  unfolding group_three
  group_three-digits =
      rw (word_three a b c ha hb hc) (cc (digit-word.0, digit-word.1, digit-word.2, digit-word.3))

module _ (abc : Bytes) (pad : Bool) (a b : ℕ) (ha : a < 256) (hb : b < 256) where
  pub group_two-digits :
      group_two abc pad a b
      ≡ get_or abc (d0 a) 0
        ∷ get_or abc (d1 a b) 0
        ∷ get_or abc (d2 b 0) 0
        ∷ (if pad then b'=' ∷ [] else [])
  unfolding group_two
  group_two-digits =
      let (e0, e1, e2, _) = digit-word abc a b 0 ha hb (omega arith) in
      rw (word_two a b ha hb) (cc (e0, e1, e2))

pub group_one-digits :
    (abc : Bytes) (pad : Bool) (a : ℕ)
    → a < 256
    → group_one abc pad a
      ≡ get_or abc (d0 a) 0 ∷ get_or abc (d1 a 0) 0 ∷ (if pad then b'=' ∷ b'=' ∷ [] else [])
unfolding group_one
group_one-digits abc pad a ha =
    let (e0, e1, _, _) = digit-word abc a 0 0 ha (omega arith) (omega arith) in
    rw (word_one a ha) (cc (e0, e1))

-- With padding the text has four characters for every three bytes begun.
pub length-base64_encode :
    (bytes : Bytes) → length (base64_encode bytes) ≡ (length bytes + 2) / 3 * 4
unfolding base64_encode
length-base64_encode [] = omega arith
length-base64_encode (a ∷ []) = omega arith
length-base64_encode (a ∷ b ∷ []) = omega arith
length-base64_encode (a ∷ b ∷ c ∷ rest) = omega (arith, length-base64_encode rest)

-- Without padding it has one for every six bits begun.
pub length-base64url_encode :
    (bytes : Bytes) → length (base64url_encode bytes) ≡ (length bytes * 4 + 2) / 3
unfolding base64url_encode
length-base64url_encode [] = omega arith
length-base64url_encode (a ∷ []) = omega arith
length-base64url_encode (a ∷ b ∷ []) = omega arith
length-base64url_encode (a ∷ b ∷ c ∷ rest) = omega (arith, length-base64url_encode rest)

-- A property of every character of an alphabet, and of the padding, holds of the encoded text.
module _ {κ} (P : ℕ → Type κ) (abc : Bytes) (pad : Bool) where
  pub All-b64_encode_impl :
      ((n : ℕ) → n < 64 → P (get_or abc n 0))
      → P b'='
      → (bytes : Bytes) → All P (b64_encode_impl abc pad bytes)
  unfolding b64_encode_impl group_three group_two group_one digit
  All-b64_encode_impl h e [] = tt
  All-b64_encode_impl h e (a ∷ []) = (at _, (at _, tail pad))
    where
      at : (n : ℕ) → P (get_or abc (bit_and n 0x3f) 0)
      at n = h (bit_and n 0x3f) (omega (arith, and_0x3f n))

      tail : (b : Bool) → All P (if b then b'=' ∷ b'=' ∷ [] else [])
      tail true = (e, (e, tt))
      tail false = tt
  All-b64_encode_impl h e (a ∷ b ∷ []) = (at _, (at _, (at _, tail pad)))
    where
      at : (n : ℕ) → P (get_or abc (bit_and n 0x3f) 0)
      at n = h (bit_and n 0x3f) (omega (arith, and_0x3f n))

      tail : (b : Bool) → All P (if b then b'=' ∷ [] else [])
      tail true = (e, tt)
      tail false = tt
  All-b64_encode_impl h e (a ∷ b ∷ c ∷ rest) =
      (at _, (at _, (at _, (at _, All-b64_encode_impl h e rest))))
    where
      at : (n : ℕ) → P (get_or abc (bit_and n 0x3f) 0)
      at n = h (bit_and n 0x3f) (omega (arith, and_0x3f n))
