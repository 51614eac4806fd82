-- ===== src/Https/Trim.antt =====
-- What trimming leaves of a line of HTTP, and the numbers in it.
use gik_view.Prelude.{
  ℕ, ◌+◌, ◌%◌, ◌^◌, ◌<◌, ◌≡◌, refl, ◌∙◌, and_false, List, All-append, false, [], ◌∷◌, ◌++◌, Bytes,
  codes, length, All, arith, ◌==◌, Bool-cases, inl, inr, length-append, ◌*◌, ◌/◌, some, take, drop,
}
use gik_view.Fs.{is_space, skip_space, print_ulong, digits_value}
use gik_view.Fs.Expiry.{IsDigit, print_ulong-IsDigit, length-print_ulong, digits_value-print_ulong}
use gik_view.CString.{strchr}
use gik_view.CString.Laws.{Lacks, lacks-Lacks}
use gik_view.Https.{trim_end, trim, to_int, to_int_signed, behind, header_length}

-- The carriage return in front of a line end is trimmed.
trim_end-cr : (text : Bytes) → trim_end (text ++ (13 ∷ [])) ≡ trim_end text
unfolding trim_end is_space
trim_end-cr [] = refl
trim_end-cr (c ∷ text) = rw (trim_end-cr text) refl

pub trim-cr : (text : Bytes) → trim (text ++ (13 ∷ [])) ≡ trim text
unfolding trim skip_space
trim-cr [] = unfold is_space trim_end in refl
trim-cr (c ∷ text) = elim (Bool-cases (is_space c)) [
  | inl e ↦ rw (e, skip_space) (trim-cr text)
  | inr e ↦ rw (e, skip_space) (trim_end-cr (c ∷ text))
]

digit_shown : (c : ℕ) → IsDigit c → is_space c ≡ false
unfolding is_space
digit_shown c h = ground (arith, h)

trim_end-digits : (cs : Bytes) → All IsDigit cs → trim_end cs ≡ cs
unfolding trim_end
trim_end-digits [] h = refl
trim_end-digits (c ∷ cs) (hc, h) = rw (trim_end-digits cs h, digit_shown c hc) (ground arith)

pub trim_end-append :
    (front text : Bytes)
    → trim_end text ≡ text
    → (length text == 0) ≡ false
    → trim_end (front ++ text) ≡ front ++ text
unfolding trim_end
trim_end-append [] text e shown = e
trim_end-append (c ∷ front) text e shown =
    rw (trim_end-append front text e shown, length-append front text)
      (ground (arith, shown, length-append {0} front text))

to_int-digits :
    (cs : Bytes)
    → All IsDigit cs
    → digits_value 0 cs < 2 ^ 31
    → to_int (32 ∷ cs) ≡ digits_value 0 cs
unfolding to_int skip_space is_space to_int_signed
to_int-digits [] h l = unfold digits_value in refl
to_int-digits (c ∷ cs) (hc, h) l = ground (arith, hc)

-- A status of three digits.
pub to_int-status :
    (a b c : ℕ)
    → a < 10
    → b < 10
    → c < 10
    → to_int ((48 + a) ∷ (48 + b) ∷ (48 + c) ∷ []) ≡ a * 100 + b * 10 + c
unfolding to_int skip_space is_space to_int_signed digits_value
to_int-status a b c ha hb hc = ground arith

-- The line that gives the length of a body.
abbrev pub length_line : ℕ → Bytes
length_line n = codes "Content-Length: " ++ print_ulong n

length_text : (n : ℕ) → trim (length_line n) ≡ length_line n
unfolding trim
length_text n =
    trim_end-append (codes "Content-Length: ") (print_ulong n)
      (trim_end-digits (print_ulong n) (print_ulong-IsDigit n)) (length-print_ulong n)

pub header_length-length_line :
    (n old : ℕ) → n < 2 ^ 31 → header_length (trim (length_line n)) old ≡ n
unfolding header_length
header_length-length_line n old h = rw (length_text n) (
    unfold behind in
    (to_int-digits (print_ulong n) (print_ulong-IsDigit n)
        (omega (arith, digits_value-print_ulong n (omega arith)))
      ∙ digits_value-print_ulong n (omega arith)))

-- Trimming stops at a character that is not white space.
pub trim_end-keeps :
    (front : Bytes) (d : ℕ) (text : Bytes)
    → is_space d ≡ false
    → trim_end (front ++ d ∷ text) ≡ front ++ d ∷ trim_end text
unfolding trim_end
trim_end-keeps [] d text e = rw (e, and_false (length (trim_end text) == 0)) refl
trim_end-keeps (c ∷ front) d text e =
    rw (trim_end-keeps front d text e, length-append {0} front (d ∷ trim_end text)) (ground arith)

unfoldable pub status_digits : ℕ → Bytes
status_digits s = (48 + s / 100) ∷ (48 + s / 10 % 10) ∷ (48 + s % 10) ∷ []

pub status_of : (s : ℕ) → s < 1000 → to_int (status_digits s) ≡ s
unfolding status_digits
status_of s h =
    to_int-status (s / 100) (s / 10 % 10) (s % 10) (omega arith) (omega arith) (omega arith)
    ∙ omega arith

unfoldable pub status_line : ℕ → Bytes → Bytes
status_line s reason = codes "HTTP/1.1 " ++ (status_digits s ++ reason)

-- The status is found in its line, whatever reason stands behind it.
pub status_line-trimmed :
    (s : ℕ) (reason : Bytes)
    → s < 1000
    → (found : Bytes) × (strchr 32 (trim (status_line s reason)) ≡ some found)
      × (to_int (take 3 (drop 1 found)) ≡ s)
unfolding status_line trim skip_space is_space status_digits
status_line-trimmed s reason h =
    let d : ℕ = 48 + s % 10 in
    let front : Bytes = codes "HTTP/1.1 " ++ ((48 + s / 100) ∷ (48 + s / 10 % 10) ∷ []) in
    let kept = trim_end-keeps front d reason (digit_shown d (omega arith, omega arith)) in
    let found : Bytes = 32 ∷ (status_digits s ++ trim_end reason) in
    let at_space : strchr 32 (front ++ d ∷ trim_end reason) ≡ some found = unfold strchr in refl in
    rw kept (found, at_space, status_of s h)

pub digits-Lacks : (cs : Bytes) → All IsDigit cs → Lacks 10 cs
digits-Lacks [] h = tt
digits-Lacks (c ∷ cs) (hc, h) = ((λ e. ground (arith, hc, e)), digits-Lacks cs h)

pub length_line-Lacks : (n : ℕ) → Lacks 10 (length_line n)
length_line-Lacks n =
    All-append _ (codes "Content-Length: ") (print_ulong n)
      (lacks-Lacks 10 (codes "Content-Length: ") refl)
      (digits-Lacks (print_ulong n) (print_ulong-IsDigit n))

pub length_line-shown : (n : ℕ) → (length (trim (length_line n)) == 0) ≡ false
length_line-shown n = rw (length_text n) (ground arith)

pub status_line-Lacks : (s : ℕ) (reason : Bytes) → Lacks 10 reason → Lacks 10 (status_line s reason)
unfolding status_line status_digits
status_line-Lacks s reason h =
    All-append _ (codes "HTTP/1.1 ") (status_digits s ++ reason)
      (lacks-Lacks 10 (codes "HTTP/1.1 ") refl)
      ((λ e. ground (arith, e)), ((λ e. ground (arith, e)), ((λ e. ground (arith, e)), h)))

-- Lines with their ends, an empty line, and what follows.
abbrev pub lines_text : List Bytes → Bytes → Bytes
lines_text [] rest = 13 ∷ 10 ∷ rest
lines_text (line ∷ lines) rest = (line ++ (13 ∷ [])) ++ 10 ∷ lines_text lines rest

pub with_cr : (line : Bytes) → Lacks 10 line → Lacks 10 (line ++ (13 ∷ []))
with_cr line h = All-append _ line (13 ∷ []) h ((λ e. ground (arith, e)), tt)
