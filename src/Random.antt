-- ===== src/Random.antt =====
-- The random source of micro-ecc, `rng_func` in end/arduino/crypto_pki.cpp, over the reads of the
-- register `RANDOM_REG32`.
pub mod Fill
mod Examples
use gik_view.Prelude.{
  ℕ, zero, suc, ◌+◌, ◌-◌, ◌/◌, ◌%◌, ◌^◌, Bool, true, false, Option, none, some, List, [], ◌∷◌, ◌++◌,
  Bytes, take, ltb, ◌==◌, if◌then◌else◌, ◌>>=◌,
}

-- The bytes of a word in memory, the lowest first.
unfoldable pub word_bytes : ℕ → Bytes
word_bytes r = r % 256 ∷ r / 256 % 256 ∷ r / 256 / 256 % 256 ∷ r / 256 / 256 / 256 % 256 ∷ []

-- The bytes that are written, from the read `k` of the register on. `none` is a loop that has not
-- come to its end in so many rounds.
unfoldable pub rng_loop : ℕ → (ℕ → ℕ) → ℕ → ℕ → Option Bytes
unfolding word_bytes
rng_loop zero words k size = none
rng_loop (suc rounds) words k size = elim (size == 0) [
  | true ↦ some []
  | false ↦
      let n = if ltb size 4 then size else 4 in
      rng_loop rounds words (k + 1) (size - n) >>= λ rest.
      some (take n (word_bytes (words k)) ++ rest)
]

-- The bytes and the return value 1.
unfoldable pub rng_func : ℕ → (ℕ → ℕ) → ℕ → Option (Bytes × ℕ)
unfolding rng_loop
rng_func rounds words size = rng_loop rounds words 0 size >>= λ dest. some (dest, 1)
