-- ===== src/Random/Examples.antt =====
-- A private key filled from a register that counts.
use gik_view.Prelude.{ℕ, ◌+◌, ◌<◌, ◌≡◌, some, Bytes, length, get_or, arith}
use gik_view.Random.{rng_func}
use gik_view.Random.Fill.{byte_at, rng_func-fills}

abbrev counting : ℕ → ℕ
counting k = 305419896 + k

rng_func-fills_example :
    (dest : Bytes) × (rng_func 40 counting 33 ≡ some (dest, 1))
    × (length dest ≡ 33)
    × ((i : ℕ) → i < 33 → get_or dest i 0 ≡ byte_at counting 0 i)
rng_func-fills_example = rng_func-fills 40 counting 33 (omega arith)
