-- ===== src/Base64/Alphabet.antt =====
-- The two alphabets against `b64_val`.
use gik_view.Prelude.{
  ℕ, ◌<◌, ◌≡◌, refl, Bool, true, false, Option, none, some, Bytes, get_or, arith, ◌==◌,
}
use gik_view.Prelude.Tables.{all_below, all_below_sound}
use gik_view.Base64.{b64_std, b64_url, b64_val}

abbrev pub is_some_of : ℕ → Option ℕ → Bool
is_some_of n none = false
is_some_of n (some m) = m == n

pub is_some_of_sound : (n : ℕ) (o : Option ℕ) → is_some_of n o ≡ true → o ≡ some n
is_some_of_sound n o h = ground arith

-- An alphabet is read back by `b64_val`, digit by digit.
abbrev pub IsAlphabet : Bytes → Type 0
IsAlphabet abc = (n : ℕ) → n < 64 → b64_val (get_or abc n 0) ≡ some n

std_table : all_below 64 (λ n. is_some_of n (b64_val (get_or b64_std n 0))) ≡ true
unfolding all_below b64_val
std_table = refl

url_table : all_below 64 (λ n. is_some_of n (b64_val (get_or b64_url n 0))) ≡ true
unfolding all_below b64_val
url_table = refl

pub b64_std-IsAlphabet : IsAlphabet b64_std
b64_std-IsAlphabet n h = is_some_of_sound n _ (all_below_sound 64 _ n std_table h)

pub b64_url-IsAlphabet : IsAlphabet b64_url
b64_url-IsAlphabet n h = is_some_of_sound n _ (all_below_sound 64 _ n url_table h)

-- Padding is no digit.
pub pad-no_digit : b64_val b'=' ≡ none
unfolding b64_val
pad-no_digit = refl

-- A digit is a number of six bits.
pub b64_val-lt : (c v : ℕ) → b64_val c ≡ some v → v < 64
unfolding b64_val
b64_val-lt c v h = ground arith
