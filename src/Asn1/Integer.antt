-- ===== src/Asn1/Integer.antt =====
-- `asn1_int` writes the shortest-signed form of an unsigned number: never negative, same value.
use gik_view.Prelude.{
  ℕ, ◌+◌, ◌*◌, ◌≤◌, ◌<◌, ◌≡◌, bit_and, some, [], ◌∷◌, ◌++◌, Bytes, IsByte, length, All, get_or,
  arith, ◌==◌, if◌then◌else◌, not,
}
use gik_view.Asn1.{asn1_len, tagged, asn1_int, top_bit_set, asn1_walk_next}
use gik_view.Asn1.Walk.{asn1_walk_next-tagged, top_bit}

-- The unsigned number that the bytes spell, behind `n`.
abbrev pub unsigned_from : ℕ → Bytes → ℕ
unsigned_from n [] = n
unsigned_from n (b ∷ bs) = unsigned_from (n * 256 + b) bs

abbrev pub unsigned : Bytes → ℕ
unsigned = unsigned_from 0

-- The two's complement number that the bytes spell is not negative.
abbrev pub NonNegative : Bytes → Type 0
NonNegative c = get_or c 0 0 < 128

-- For every unsigned number of 1 to 65534 bytes, `asn1_int` writes an INTEGER that the reader takes
-- apart again; its content is not negative, spells the same number, and is at most one byte longer.
pub asn1_int_value :
    (b : ℕ) (bs rest : Bytes)
    → All IsByte (b ∷ bs)
    → length bs < 65534
    → (c : Bytes) × (asn1_walk_next (asn1_int (b ∷ bs) ++ rest)
        ≡ some (record { tag = 0x02; value = c; rest = rest }))
      × NonNegative c
      × (unsigned c ≡ unsigned (b ∷ bs))
      × (length c ≤ length bs + 2)
unfolding asn1_int top_bit_set
asn1_int_value b bs rest h small = (
  (if not (bit_and b 0x80 == 0) then 0x00 ∷ b ∷ bs else b ∷ bs),
  asn1_walk_next-tagged 0x02 _ rest (ground arith),
  ground (arith, top_bit b h.0),
  ground arith,
  ground arith,
)

-- For a number of at most 126 bytes the whole encoding is at most three bytes longer than it.
pub length-asn1_int :
    (b : ℕ) (bs : Bytes) → length bs < 126 → length (asn1_int (b ∷ bs)) ≤ length bs + 4
unfolding asn1_int tagged asn1_len
length-asn1_int b bs h = ground arith
