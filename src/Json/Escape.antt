-- ===== src/Json/Escape.antt =====
-- A JSON string that the device writes is read back by its own reader.
use gik_view.Prelude.{
  ℕ, ◌≡◌, refl, ap, ◌∙◌, false, [], ◌∷◌, ◌++◌, Bytes, ◌==◌, if◌then◌else◌, Bool-cases, inl, inr,
  ==_iff,
}
use gik_view.Json.{append_json_escaped, unescaped, string_value}

-- The text without its carriage returns.
unfoldable pub without_cr : Bytes → Bytes
without_cr [] = []
without_cr (c ∷ text) = let rest = without_cr text in if c == 13 then rest else c ∷ rest

-- A character that stands for itself, in front of at least one other.
string_value-plain :
    (c : ℕ) (text rest : Bytes)
    → (c == b'\\') ≡ false
    → (c == b'"') ≡ false
    → string_value (c ∷ (text ++ (b'"' ∷ rest))) ≡ c ∷ string_value (text ++ (b'"' ∷ rest))
unfolding string_value
string_value-plain c [] rest e h = rw (e, h, string_value) refl
string_value-plain c (t ∷ text) rest e h = rw (e, h, string_value) refl

string_value-quote : (rest : Bytes) → string_value (b'"' ∷ rest) ≡ []
unfolding string_value
string_value-quote [] = refl
string_value-quote (c ∷ rest) = refl

-- Every text that is escaped and quoted comes back without its carriage returns, whatever follows.
pub string_value-append_json_escaped :
    (text rest : Bytes) → string_value (append_json_escaped text ++ (b'"' ∷ rest)) ≡ without_cr text
unfolding append_json_escaped unescaped without_cr string_value
string_value-append_json_escaped [] rest = string_value-quote rest
string_value-append_json_escaped (c ∷ text) rest =
    let ih = string_value-append_json_escaped text rest in
    elim (Bool-cases (c == 10)) [
      | inl a ↦ rw ((==_iff c 10).0 a) (ap (λ t. 10 ∷ t) ih)
      | inr a ↦ elim (Bool-cases (c == 13)) [
        | inl b ↦ rw (a, b) ih
        | inr b ↦ elim (Bool-cases (c == b'"')) [
          | inl d ↦ rw ((==_iff c b'"').0 d) (ap (λ t. b'"' ∷ t) ih)
          | inr d ↦ elim (Bool-cases (c == b'\\')) [
            | inl e ↦ rw ((==_iff c b'\\').0 e) (ap (λ t. b'\\' ∷ t) ih)
            | inr e ↦
                rw (a, b, d, e)
                  (string_value-plain c (append_json_escaped text) rest e d ∙ ap (λ t. c ∷ t) ih)
          ]
        ]
      ]
    ]
