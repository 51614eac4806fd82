-- ===== src/Random/Fill.antt =====
-- The buffer is filled, with all bytes of the words in their order.
use gik_view.Prelude.{
  ℕ, zero, suc, ◌+◌, ◌-◌, ◌/◌, ◌%◌, ◌^◌, ◌<◌, ◌≤◌, ◌≡◌, refl, ap, ◌∙◌, Option, some, [], ◌∷◌, ◌++◌,
  Bytes, length, take, get_or, arith, ltb, ◌==◌, if◌then◌else◌, ◌>>=◌, Bool-cases, inl, inr,
  length-append, length-take, get_or-take, ==_iff, ltb→lt, ltb→le,
}
use gik_view.Random.{word_bytes, rng_loop, rng_func}

-- The byte `i` of the words, from the word `k` on: the digit `i % 4` in base 256, counted from the
-- lowest, of the word that it falls into.
unfoldable pub byte_at : (ℕ → ℕ) → ℕ → ℕ → ℕ
byte_at words k i = words (k + i / 4) / 256 ^ (i % 4) % 256

digit : (r j : ℕ) → j < 4 → get_or (word_bytes r) j 0 ≡ r / 256 ^ j % 256
unfolding word_bytes
digit r zero h = omega arith
digit r (suc zero) h = omega arith
digit r (suc (suc zero)) h = omega arith
digit r (suc (suc (suc zero))) h = omega arith
digit r (suc (suc (suc (suc j)))) h = absurd (omega arith)

get_or-front : (xs ys : Bytes) (i : ℕ) → i < length xs → get_or (xs ++ ys) i 0 ≡ get_or xs i 0
get_or-front [] ys i h = absurd (omega arith)
get_or-front (x ∷ xs) ys zero h = refl
get_or-front (x ∷ xs) ys (suc i) h = get_or-front xs ys i (omega arith)

get_or-back : (xs ys : Bytes) (i j : ℕ) → i ≡ length xs + j → get_or (xs ++ ys) i 0 ≡ get_or ys j 0
get_or-back [] ys i j e = ap (λ (n : ℕ). get_or ys n 0) (omega arith)
get_or-back (x ∷ xs) ys zero j e = absurd (omega arith)
get_or-back (x ∷ xs) ys (suc i) j e = get_or-back xs ys i j (omega arith)

-- A buffer that is filled from the word `k` on.
record Filled (words : ℕ → ℕ) (k size : ℕ) (r : Option Bytes) : Type 0 where
  dest : Bytes
  ends : r ≡ some dest
  whole : length dest ≡ size
  same : (i : ℕ) → i < size → get_or dest i 0 ≡ byte_at words k i

byte_at-next : (words : ℕ → ℕ) (k i : ℕ) → 4 ≤ i → byte_at words (k + 1) (i - 4) ≡ byte_at words k i
unfolding byte_at
byte_at-next words k i h =
    let word : k + 1 + (i - 4) / 4 ≡ k + i / 4 = omega arith in
    let place : (i - 4) % 4 ≡ i % 4 = omega arith in
    ap (λ (x : ℕ). words x / 256 ^ ((i - 4) % 4) % 256) word
    ∙ ap (λ (x : ℕ). words (k + i / 4) / 256 ^ x % 256) place

byte_at-first :
    (words : ℕ → ℕ) (k i : ℕ) → i < 4 → get_or (word_bytes (words k)) i 0 ≡ byte_at words k i
unfolding byte_at
byte_at-first words k i h =
    let word : k + i / 4 ≡ k = omega arith in
    let place : i % 4 ≡ i = omega arith in rw (word, place) (digit (words k) i h)

length-piece : (n r : ℕ) → n ≤ 4 → length (take n (word_bytes r)) ≡ n
unfolding word_bytes
length-piece n r h = length-take n (word_bytes r) ∙ omega arith

-- A piece of a word, and a buffer filled from the next word on.
joined :
    (words : ℕ → ℕ) (k n size : ℕ) (rest : Bytes)
    → n ≤ 4
    → n ≤ size
    → (n < size → n ≡ 4)
    → length rest ≡ size - n
    → ((i : ℕ) → i < size - n → get_or rest i 0 ≡ byte_at words (k + 1) i)
    → (i : ℕ) → i < size
    → get_or (take n (word_bytes (words k)) ++ rest) i 0 ≡ byte_at words k i
joined words k n size rest four part whole e same i h =
    let piece = take n (word_bytes (words k)) in
    let size_of = length-piece n (words k) four in
    elim (Bool-cases (ltb i n)) [
      | inl lt ↦
          let l = ltb→lt i n lt in
          get_or-front piece rest i (omega (arith, size_of))
          ∙ get_or-take n i (word_bytes (words k)) 0 l
          ∙ byte_at-first words k i (omega arith)
      | inr ge ↦
          let l = ltb→le i n ge in
          let is_four = whole (omega arith) in
          get_or-back piece rest i (i - 4) (omega (arith, size_of, is_four))
          ∙ same (i - 4) (omega (arith, is_four))
          ∙ byte_at-next words k i (omega (arith, is_four))
    ]

rng_loop-Filled :
    (rounds : ℕ) (words : ℕ → ℕ) (k size : ℕ)
    → size < rounds
    → Filled words k size (rng_loop rounds words k size)
unfolding rng_loop
rng_loop-Filled zero words k size h = absurd (omega arith)
rng_loop-Filled (suc rounds) words k size h = elim (Bool-cases (size == 0)) [
  | inl e ↦
      let nothing : size ≡ 0 = (==_iff size 0).0 e in
      rw (e, rng_loop)
        (record {
          dest = [];
          ends = refl;
          whole = omega arith;
          same = λ i l. absurd (omega (arith, nothing));
        })
  | inr e ↦
      let n = if ltb size 4 then size else 4 in
      let four : n ≤ 4 = ground arith in
      let part : n ≤ size = ground arith in
      let whole : n < size → n ≡ 4 = λ l. ground (arith, l) in
      let some_left : 0 < n = ground (arith, e) in
      let f = rng_loop-Filled rounds words (k + 1) (size - n) (omega arith) in
      rw (e, rng_loop, f.ends, ◌>>=◌)
        (record {
          dest = take n (word_bytes (words k)) ++ f.dest;
          ends = refl;
          whole = omega (
            arith,
            f.whole,
            length-piece n (words k) four,
            length-append {0} (take n (word_bytes (words k))) f.dest,
          );
          same = joined words k n size f.dest four part whole f.whole f.same;
        })
]

-- With a round for each byte and one more the loop comes to its end: exactly as many bytes are
-- written as were asked for, they are those of the words read from the register, in their order and
-- the lowest byte of a word first, and 1 is returned.
pub rng_func-fills :
    (rounds : ℕ) (words : ℕ → ℕ) (size : ℕ)
    → size < rounds
    → (dest : Bytes) × (rng_func rounds words size ≡ some (dest, 1))
      × (length dest ≡ size)
      × ((i : ℕ) → i < size → get_or dest i 0 ≡ byte_at words 0 i)
unfolding rng_func
rng_func-fills rounds words size h =
    let f = rng_loop-Filled rounds words 0 size h in
    rw (f.ends, ◌>>=◌) (f.dest, refl, f.whole, f.same)
