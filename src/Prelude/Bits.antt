-- ===== src/Prelude/Bits.antt =====
-- Shifts, masks and disjoint unions of bits as arithmetic.
use Prim.Native.Nat.{
  ℕ, zero, suc, ◌+◌, ◌*◌, ◌/◌, ◌%◌, ◌^◌, ◌≤◌, ◌<◌, min, max, bit_and, bit_or, digits,
  bit_and-bitwise, bit_or-bitwise, ◌-◌,
}
use mathlib.Core.Path.{◌≡◌, refl, ap, ◌∙◌}
use native.Mathlib.Omega.{arith}
use native.Mathlib.Nat.{pow-suc}

-- `x >> k`, and `x << k` in a 32-bit word.
abbrev pub shr : ℕ → ℕ → ℕ
shr x k = x / 2 ^ k

abbrev pub shl32 : ℕ → ℕ → ℕ
shl32 x k = x * 2 ^ k % 2 ^ 32

-- The milliseconds between two readings of the 32-bit clock `millis()`.
abbrev pub elapsed : ℕ → ℕ → ℕ
elapsed now since = (now + 2 ^ 32 - since) % 2 ^ 32

-- The lowest `k` binary digits of a number, and the mask that selects them.
low : ℕ → ℕ → ℕ
low zero a = 0
low (suc k) a = low k (a / 2) * 2 + a % 2

ones : ℕ → ℕ
ones zero = 0
ones (suc k) = ones k * 2 + 1

low-zero : (k : ℕ) → low k 0 ≡ 0
unfolding low
low-zero zero = refl
low-zero (suc k) = omega (arith, low-zero k)

-- The conjunction with the mask, digit by digit, for any count of digits that covers `a`.
masked : (count k a : ℕ) → a ≤ count → digits (λ b. 0) min count a (ones k) ≡ low k a
unfolding low ones
masked zero k a h = ground (arith, low-zero k)
masked (suc count) k zero h = ground (arith, low-zero k)
masked (suc count) zero (suc a) h = omega (arith, masked count zero (suc a / 2))
masked (suc count) (suc k) (suc a) h =
    let half : (ones k * 2 + 1) / 2 ≡ ones k = omega arith in
    rw half (omega (arith, masked count k (suc a / 2)))

bit_and-ones : (k a : ℕ) → bit_and a (ones k) ≡ low k a
bit_and-ones k a = bit_and-bitwise a (ones k) ∙ masked a k a (omega arith)

-- The masks of the source keep the low bits.
pub and_0x3f : (a : ℕ) → bit_and a 0x3f ≡ a % 64
unfolding low ones
and_0x3f a = bit_and-ones 6 a ∙ omega arith

pub and_0xff : (a : ℕ) → bit_and a 0xff ≡ a % 256
unfolding low ones
and_0xff a = bit_and-ones 8 a ∙ omega arith

-- The digits of `a`, all above the lowest `k`, joined with fewer than `k` others.
joined :
    (count k a q r : ℕ)
    → a ≤ count
    → a ≡ q * 2 ^ k
    → r < 2 ^ k
    → digits (λ b. b) max count a r ≡ a + r
joined zero k a q r h e l = omega arith
joined (suc count) k zero q r h e l = omega arith
joined (suc count) zero (suc a) q r h e l =
    ground (arith, joined count zero (suc a / 2) (suc a / 2) (r / 2))
joined (suc count) (suc k) (suc a) q r h e l =
    let double : suc a ≡ 2 * (q * 2 ^ k) = omega (arith, ap (λ (t : ℕ). q * t) (pow-suc 2 k)) in
    ground (arith, pow-suc 2 k, joined count k (suc a / 2) q (r / 2))

-- `(q << k) | r` is a sum where `r` has at most `k` bits.
pub or_disjoint : (k q r : ℕ) → r < 2 ^ k → bit_or (q * 2 ^ k) r ≡ q * 2 ^ k + r
or_disjoint k q r h =
    bit_or-bitwise (q * 2 ^ k) r ∙ joined (q * 2 ^ k) k (q * 2 ^ k) q r (omega arith) refl h
