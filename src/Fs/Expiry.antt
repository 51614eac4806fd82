-- ===== src/Fs/Expiry.antt =====
-- The expiry survives being printed and read.
use gik_view.Prelude.{
  ℕ, zero, suc, ◌+◌, ◌-◌, ◌*◌, ◌/◌, ◌%◌, ◌^◌, ◌≤◌, ◌<◌, ◌≡◌, refl, ◌∙◌, ap, false, some, [], ◌∷◌,
  ◌++◌, Bytes, length, ltb, ◌==◌, All, arith, Bool-cases, inl, inr, ltb→lt, length-snoc,
  length-append,
}
use native.Mathlib.Nat.{pow-suc}
use gik_view.Fs.{
  FileName, dev_exp, LittleFs, IsLittleFs, decimal, print_ulong, digits_value, clamp_ulong,
  signed_value, strtoul, skip_space, is_space, same_file, save_exp, read_exp, read_file,
}

abbrev pub IsDigit : ℕ → Type 0
IsDigit c = (48 ≤ c) × (c ≤ 57)

digits_value-snoc :
    (acc : ℕ) (cs : Bytes) (d : ℕ)
    → All IsDigit cs
    → d < 10
    → digits_value acc (cs ++ ((48 + d) ∷ [])) ≡ digits_value acc cs * 10 + d
unfolding digits_value
digits_value-snoc acc [] d h l = ground arith
digits_value-snoc acc (c ∷ cs) d (hc, h) l =
    ground (arith, digits_value-snoc (acc * 10 + (c - 48)) cs d h l)

All-snoc : (cs : Bytes) (d : ℕ) → All IsDigit cs → d < 10 → All IsDigit (cs ++ ((48 + d) ∷ []))
All-snoc [] d h l = ground arith
All-snoc (c ∷ cs) d (hc, h) l = (hc, All-snoc cs d h l)

pub decimal-IsDigit : (fuel n : ℕ) → All IsDigit (decimal fuel n)
unfolding decimal
decimal-IsDigit zero n = tt
decimal-IsDigit (suc fuel) n = elim (Bool-cases (ltb n 10)) [
  | inl e ↦ rw e (ground (arith, ltb→lt n 10 e))
  | inr e ↦
      rw e (All-snoc (decimal fuel (n / 10)) (n % 10) (decimal-IsDigit fuel (n / 10)) (omega arith))
]

pub digits_value-decimal : (fuel n : ℕ) → n < 10 ^ fuel → digits_value 0 (decimal fuel n) ≡ n
unfolding decimal digits_value
digits_value-decimal zero n h = omega arith
digits_value-decimal (suc fuel) n h = elim (Bool-cases (ltb n 10)) [
  | inl e ↦ rw e (ground (arith, ltb→lt n 10 e))
  | inr e ↦ rw e (
      digits_value-snoc 0 (decimal fuel (n / 10)) (n % 10) (decimal-IsDigit fuel (n / 10))
        (omega arith)
      ∙ omega (arith, digits_value-decimal fuel (n / 10) (omega (arith, pow-suc 10 fuel))))
]

strtoul-digits : (cs : Bytes) → All IsDigit cs → strtoul cs ≡ clamp_ulong (digits_value 0 cs)
unfolding strtoul signed_value skip_space is_space clamp_ulong
strtoul-digits [] h = refl
strtoul-digits (c ∷ cs) (hc, h) = ground (arith, hc)

pub digits_value-print_ulong : (e : ℕ) → e < 2 ^ 32 → digits_value 0 (print_ulong e) ≡ e
unfolding print_ulong
digits_value-print_ulong e h = digits_value-decimal 10 (e % 2 ^ 32) (omega arith) ∙ omega arith

pub print_ulong-IsDigit : (e : ℕ) → All IsDigit (print_ulong e)
unfolding print_ulong
print_ulong-IsDigit e = decimal-IsDigit 10 (e % 2 ^ 32)

pub decimal-shown : (fuel n : ℕ) → (length (decimal (suc fuel) n) == 0) ≡ false
unfolding decimal
decimal-shown fuel n = elim (Bool-cases (ltb n 10)) [
  | inl e ↦ rw e refl
  | inr e ↦ rw (e, length-snoc (decimal fuel (n / 10)) (48 + n % 10)) (ground arith)
]

pub length-decimal : (fuel n : ℕ) → length (decimal fuel n) ≤ fuel
unfolding decimal
length-decimal zero n = omega arith
length-decimal (suc fuel) n = elim (Bool-cases (ltb n 10)) [
  | inl e ↦ rw e (omega arith)
  | inr e ↦ rw e (
      omega (
        arith,
        length-decimal fuel (n / 10),
        length-append {0} (decimal fuel (n / 10)) ((48 + n % 10) ∷ []),
      ))
]

pub length-print_ulong : (e : ℕ) → (length (print_ulong e) == 0) ≡ false
unfolding print_ulong
length-print_ulong e = decimal-shown 9 (e % 2 ^ 32)

clamp_ulong-fits : (v : ℕ) → v < 2 ^ 32 → clamp_ulong v ≡ v
unfolding clamp_ulong
clamp_ulong-fits v h = ground arith

module _ (fs : LittleFs) where
  pub read_file-content :
      (n : FileName) (f : fs.Files) {text : Bytes}
      → fs.content f n ≡ some text
      → read_file fs n f ≡ text
  unfolding read_file
  read_file-content n f e = rw (e, read_file) refl

  module _ (laws : IsLittleFs fs) where
    saved :
        (e : ℕ) (f : fs.Files)
        → fs.stored f dev_exp (print_ulong e) ≡ some (print_ulong e)
        → read_file fs dev_exp (save_exp fs e f) ≡ print_ulong e
    unfolding save_exp same_file
    saved e f kept =
        read_file-content dev_exp (fs.write dev_exp (print_ulong e) f)
          (laws.content-write dev_exp (print_ulong e) f dev_exp ∙ kept)

    -- An expiry below 2 ^ 32, saved to a flash that takes the text, is read back.
    pub read_exp-save_exp :
        (e : ℕ) (f : fs.Files)
        → e < 2 ^ 32
        → fs.stored f dev_exp (print_ulong e) ≡ some (print_ulong e)
        → read_exp fs (save_exp fs e f) ≡ e
    unfolding read_exp
    read_exp-save_exp e f small kept =
        rw (saved e f kept, length-print_ulong e)
          (strtoul-digits (print_ulong e) (print_ulong-IsDigit e)
            ∙ ap clamp_ulong (digits_value-print_ulong e small)
            ∙ clamp_ulong-fits e small)
