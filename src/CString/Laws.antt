-- ===== src/CString/Laws.antt =====
-- Where `strstr` and `strchr` find what they look for.
use gik_view.Prelude.{
  Bool, false, ◌==◌, if◌then◌else◌, Bool-cases, inl, inr, ◌≡◌, refl, ◌≢◌, true, some, [], ◌∷◌, ◌++◌,
  Bytes, length, All, arith, ℕ, zero, suc, ◌<◌, set, take, ==_refl,
}
use gik_view.CString.{starts_with, strstr, strchr, c_string}

-- The text does not hold the character.
abbrev pub Lacks : ℕ → Bytes → Type 0
Lacks c = All (λ x. x ≢ c)

-- Whether an explicit text is one.
abbrev pub lacks : ℕ → Bytes → Bool
lacks c [] = true
lacks c (x ∷ xs) = if x == c then false else lacks c xs

pub lacks-Lacks : (c : ℕ) (xs : Bytes) → lacks c xs ≡ true → Lacks c xs
lacks-Lacks c [] h = tt
lacks-Lacks c (x ∷ xs) h = elim (Bool-cases (x == c)) [
  | inl e ↦ ground (arith, e, h)
  | inr e ↦ ((λ same. ground (arith, e, same)), lacks-Lacks c xs (ground (arith, e, h)))
]

pub starts_with-append : (needle text : Bytes) → starts_with needle (needle ++ text) ≡ true
unfolding starts_with
starts_with-append [] text = refl
starts_with-append (n ∷ needle) text = rw (==_refl n, starts_with-append needle text)

pub strstr-here : (needle text : Bytes) → strstr needle (needle ++ text) ≡ some (needle ++ text)
unfolding strstr
strstr-here [] [] = unfold starts_with in refl
strstr-here [] (c ∷ text) = unfold starts_with in refl
strstr-here (n ∷ needle) text = rw (starts_with-append (n ∷ needle) text)

-- `strstr` passes over a text that lacks the first character of the needle.
pub strstr-append :
    (n : ℕ) (needle front text : Bytes)
    → Lacks n front
    → strstr (n ∷ needle) (front ++ text) ≡ strstr (n ∷ needle) text
unfolding strstr starts_with
strstr-append n needle [] text h = refl
strstr-append n needle (c ∷ front) text (hc, h) =
    ground (arith, strstr-append n needle front text h)

pub strchr-append :
    (c : ℕ) (front text : Bytes) → Lacks c front → strchr c (front ++ c ∷ text) ≡ some (c ∷ text)
unfolding strchr
strchr-append c [] text h = rw (==_refl c)
strchr-append c (x ∷ front) text (hx, h) = ground (arith, strchr-append c front text h)

-- A NUL written at `i` ends the string there, if no NUL stands before.
pub c_string-set :
    (buf : Bytes) (i : ℕ) → i < length buf → c_string (set buf i 0) ≡ c_string (take i buf)
unfolding c_string
c_string-set [] i h = absurd (omega arith)
c_string-set (c ∷ buf) zero h = refl
c_string-set (c ∷ buf) (suc i) h = ground (arith, c_string-set buf i (omega arith))
