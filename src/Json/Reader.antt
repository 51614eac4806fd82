-- ===== src/Json/Reader.antt =====
-- A reader of JSON objects whose fields are strings, written from RFC 8259 and not from the
-- firmware: it takes the whole text, with its braces, colons and commas, and refuses control
-- characters and unknown escapes. It reads no white space and no \u escape.
use gik_view.Prelude.{
  ℕ, zero, suc, ◌≡◌, ◌≢◌, ◌≤◌, refl, ap, ◌∙◌, true, false, ◌||◌, ◌&&◌, Option, none, some, List, [],
  ◌∷◌, ◌++◌, Bytes, length, ltb, leb, ◌==◌, if◌then◌else◌, ◌>>=◌, arith, All, Bool-cases, inl, inr,
  ==_iff,
}
use gik_view.Json.{append_json_escaped}
use gik_view.Json.Escape.{without_cr}

unfoldable prepend : ℕ → Option (Bytes × Bytes) → Option (Bytes × Bytes)
prepend c none = none
prepend c (some (text, rest)) = some (c ∷ text, rest)

-- The character `n` behind a backslash.
unfoldable escape : ℕ → Option (Bytes × Bytes) → Option (Bytes × Bytes)
unfolding prepend
escape n r =
    if n == b'n'
    then prepend 10 r
    else if n == b'r'
    then prepend 13 r
    else if n == b't'
    then prepend 9 r
    else if n == b'"' || (n == b'\\' || n == b'/')
    then prepend n r
    else none

-- A string behind its opening quote, and what stands behind the closing one.
unfoldable pub read_string : Bytes → Option (Bytes × Bytes)
unfolding escape
read_string [] = none
read_string (c ∷ []) = if c == b'"' then some ([], []) else none
read_string (c ∷ n ∷ text) = elim (c == b'"') [
  | true ↦ some ([], n ∷ text)
  | false ↦ elim (c == b'\\') [
    | true ↦ escape n (read_string text)
    | false ↦ elim (ltb c 32) [ true ↦ none | false ↦ prepend c (read_string (n ∷ text)) ]
  ]
]

-- The given character, and what stands behind it.
unfoldable past : ℕ → Bytes → Option Bytes
past c [] = none
past c (d ∷ text) = if d == c then some text else none

-- The fields from the name of one of them on, up to the brace that ends the text.
unfoldable pub read_fields : ℕ → Bytes → Option (List (Bytes × Bytes))
unfolding read_string past
read_fields zero text = none
read_fields (suc fuel) text = do
  text0 ← past b'"' text
  (key, text1) ← read_string text0
  text2 ← past b':' text1
  text3 ← past b'"' text2
  (value, text4) ← read_string text3
  elim text4 [
    | [] ↦ none
    | ◌∷◌ c rest ↦ elim (c == b',') [
      | true ↦ read_fields fuel rest >>= λ more. some ((key, value) ∷ more)
      | false ↦ if c == b'}' && length rest == 0 then some ((key, value) ∷ []) else none
    ]
  ]

unfoldable pub read_object : Bytes → Option (List (Bytes × Bytes))
unfolding read_fields past
read_object text = past b'{' text >>= read_fields (length text)

-- A character that a string can hold as it is.
abbrev pub IsPlain : ℕ → Type 0
IsPlain c = (32 ≤ c) × (c ≢ b'"') × (c ≢ b'\\')

-- A text without control characters but for line ends.
abbrev pub IsText : ℕ → Type 0
IsText c = (c == 10 || (c == 13 || leb 32 c)) ≡ true

read_string-plain :
    (c : ℕ) (text rest : Bytes)
    → IsPlain c
    → read_string (c ∷ (text ++ (b'"' ∷ rest))) ≡ prepend c (read_string (text ++ (b'"' ∷ rest)))
unfolding read_string
read_string-plain c [] rest (low, quote, slash) = ground (arith, low, quote, slash)
read_string-plain c (d ∷ text) rest (low, quote, slash) = ground (arith, low, quote, slash)

-- A plain text is read as it is.
pub read_string-append :
    (text rest : Bytes) → All IsPlain text → read_string (text ++ (b'"' ∷ rest)) ≡ some (text, rest)
unfolding prepend
read_string-append [] [] h = unfold read_string in refl
read_string-append [] (d ∷ rest) h = unfold read_string in refl
read_string-append (c ∷ text) rest (p, h) =
    read_string-plain c text rest p ∙ ap (prepend c) (read_string-append text rest h)

-- Any other text is read back from its escaped form, without carriage returns.
pub read_string-escaped :
    (text rest : Bytes)
    → All IsText text
    → read_string (append_json_escaped text ++ (b'"' ∷ rest)) ≡ some (without_cr text, rest)
unfolding append_json_escaped without_cr read_string prepend
read_string-escaped [] [] h = refl
read_string-escaped [] (d ∷ rest) h = refl
read_string-escaped (c ∷ text) rest (p, h) =
    let ih = read_string-escaped text rest h in
    elim (Bool-cases (c == 10)) [
      | inl a ↦ rw ((==_iff c 10).0 a) (ap (prepend 10) ih)
      | inr a ↦ elim (Bool-cases (c == 13)) [
        | inl b ↦ rw ((==_iff c 13).0 b) ih
        | inr b ↦ elim (Bool-cases (c == b'"')) [
          | inl d ↦ rw ((==_iff c b'"').0 d) (ap (prepend b'"') ih)
          | inr d ↦ elim (Bool-cases (c == b'\\')) [
            | inl e ↦ rw ((==_iff c b'\\').0 e) (ap (prepend b'\\') ih)
            | inr e ↦
                rw (a, b, d, e)
                  (read_string-plain c (append_json_escaped text) rest (
                    ground (arith, p, a, b),
                    (λ q. ground (arith, d, q)),
                    λ q. ground (arith, e, q),
                  )
                    ∙ ap (prepend c) ih)
          ]
        ]
      ]
    ]
