-- ===== src/Csr/Ecdsa.antt =====
-- A reader of ECDSA signatures, written from RFC 3279 and not from the builder: two numbers in a
-- SEQUENCE in a BIT STRING.
use gik_view.Prelude.{
  ℕ, ◌<◌, ◌≡◌, refl, ap, ◌∙◌, bit_and, Bool, true, false, ◌&&◌, not, Bool-cases, inl, inr, Option,
  none, some, [], ◌∷◌, ◌++◌, Bytes, length, arith, ltb, lt→ltb, ◌==◌, ◌>>=◌, require, take, drop,
  get_or, All, All-take, All-drop, IsByte, if◌then◌else◌, length-take, length-drop, append-nil,
}
use gik_view.Asn1.{tagged, asn1_len, asn1_seq, asn1_int, top_bit_set}
use gik_view.Asn1.Walk.{top_bit}
use gik_view.Asn1.Expect.{expect, expect-tagged, expect_last}
use gik_view.Asn1.Integer.{unsigned}
use gik_view.Csr.{sig_rs, sig_seq, sig_bitstring}
use gik_view.Csr.Signature.{length-sig_rs, length-sig_seq}

-- The content of an INTEGER has no byte in front that its sign does not need.
unfoldable shortest : Bytes → Bool
shortest [] = false
shortest (b ∷ []) = true
shortest (b ∷ d ∷ bs) = not (b == 0 && ltb d 128)

-- An INTEGER in DER that is not negative, and what follows it.
unfoldable read_integer : Bytes → Option (ℕ × Bytes)
unfolding shortest
read_integer p = do
  e ← expect 0x02 p
  _ ← require (ltb (get_or e.value 0 0) 128)
  _ ← require (shortest e.value)
  some (unsigned e.value, e.rest)

-- The bytes of a BIT STRING without unused bits.
whole_bytes : Bytes → Option Bytes
whole_bytes [] = none
whole_bytes (unused ∷ bytes) = if unused == 0 then some bytes else none

pub read_signature : Bytes → Option (ℕ × ℕ)
unfolding read_integer whole_bytes
read_signature p = do
  bits ← expect 0x03 p
  bytes ← whole_bytes bits.value
  pair ← expect 0x30 bytes
  (r, rest) ← read_integer pair.value
  (s, end) ← read_integer rest
  _ ← require (length end == 0)
  some (r, s)

-- A number of 32 bytes that does not start with a zero byte that its sign does not need.
unfoldable pub is_shortest : Bytes → Bool
is_shortest x = not (get_or x 0 0 == 0 && ltb (get_or x 1 0) 128)

read_content :
    (c rest : Bytes)
    → length c < 65536
    → get_or c 0 0 < 128
    → read_integer (tagged 0x02 c ++ rest) ≡ (if shortest c then some (unsigned c, rest) else none)
unfolding read_integer
read_content c rest h positive =
    rw (expect-tagged 0x02 c rest h, ◌>>=◌, lt→ltb (get_or c 0 0) 128 positive) (ground arith)

read_integer-asn1_int :
    (x rest : Bytes)
    → All IsByte x
    → length x ≡ 32
    → read_integer (asn1_int x ++ rest) ≡ (if is_shortest x then some (unsigned x, rest) else none)
unfolding asn1_int top_bit_set is_shortest shortest
read_integer-asn1_int [] rest h e = absurd (omega arith)
read_integer-asn1_int (b ∷ []) rest h e = absurd (omega arith)
read_integer-asn1_int (b ∷ d ∷ bs) rest h e = elim (Bool-cases (bit_and b 0x80 == 0)) [
  | inl z ↦
      rw z (read_content (b ∷ d ∷ bs) rest (omega arith) (ground (arith, top_bit b h.0, z, h.0)))
  | inr z ↦ rw z (
      read_content (0x00 ∷ b ∷ d ∷ bs) rest (omega arith) (omega arith)
      ∙ ground (arith, top_bit b h.0, z, h.0))
]

module _ (sig_raw : Bytes) (bytes : All IsByte sig_raw) (e : length sig_raw ≡ 64) where
  abbrev r : Bytes
  r = take 32 sig_raw

  abbrev s : Bytes
  s = take 32 (drop 32 sig_raw)

  bitstring-shape : sig_bitstring sig_raw ≡ tagged 0x03 (0x00 ∷ sig_seq sig_raw)
  unfolding sig_bitstring tagged
  bitstring-shape = ap (λ (n : ℕ). 0x03 ∷ (asn1_len n ++ (0x00 ∷ sig_seq sig_raw))) (omega arith)

  expect_pair :
      expect 0x30 (sig_seq sig_raw)
      ≡ some (record { tag = 0x30; value = sig_rs sig_raw; rest = [] })
  unfolding sig_seq asn1_seq
  expect_pair = expect_last 0x30 (sig_rs sig_raw) (omega (arith, length-sig_rs sig_raw e))

  read_first :
      read_integer (sig_rs sig_raw)
      ≡ (if is_shortest r then some (unsigned r, asn1_int s) else none)
  unfolding sig_rs
  read_first =
      read_integer-asn1_int r (asn1_int s) (All-take _ 32 sig_raw bytes)
        (omega (arith, length-take 32 sig_raw))

  read_second : read_integer (asn1_int s) ≡ (if is_shortest s then some (unsigned s, []) else none)
  read_second = rw append-nil at (
      read_integer-asn1_int s [] (All-take _ 32 (drop 32 sig_raw) (All-drop _ 32 sig_raw bytes))
        (omega (arith, length-take 32 (drop 32 sig_raw), length-drop 32 sig_raw)))

  read_pair : read_signature (sig_bitstring sig_raw) ≡ (
      read_integer (sig_rs sig_raw) >>= λ x.
      read_integer x.1 >>= λ y. require (length y.1 == 0) >>= λ _. some (x.0, y.0))
  unfolding read_signature
  read_pair =
      rw
        (
          bitstring-shape,
          expect_last 0x03 (0x00 ∷ sig_seq sig_raw) (omega (arith, length-sig_seq sig_raw e)),
          ◌>>=◌,
          whole_bytes,
          expect_pair,
          ◌>>=◌,
        )
        refl

  -- For a raw signature of 64 bytes, a reader of ECDSA signatures in DER finds in what `build_csr`
  -- writes the numbers of its two halves, if neither half starts with a zero byte and one below 128
  -- behind it; otherwise it refuses the signature, since `asn1_int` keeps the zero bytes that DER
  -- forbids.
  pub read_signature-sig_bitstring : read_signature (sig_bitstring sig_raw) ≡ (
      if is_shortest (take 32 sig_raw) && is_shortest (take 32 (drop 32 sig_raw))
      then some (unsigned (take 32 sig_raw), unsigned (take 32 (drop 32 sig_raw)))
      else none)
  read_signature-sig_bitstring = read_pair ∙ elim (Bool-cases (is_shortest r)) [
    | inr long ↦ rw (read_first, long, ◌>>=◌) refl
    | inl short ↦ elim (Bool-cases (is_shortest s)) [
      | inr long ↦ rw (read_first, short, ◌>>=◌, read_second, long, ◌>>=◌) refl
      | inl short' ↦ rw (read_first, short, ◌>>=◌, read_second, short', ◌>>=◌) refl
    ]
  ]
