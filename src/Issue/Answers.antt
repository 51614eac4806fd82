-- ===== src/Issue/Answers.antt =====
-- What the requests carry, and what is made of the answers.
use gik_view.Prelude.{
  ℕ, ◌≡◌, ◌≢◌, refl, ap, ◌∙◌, true, false, ◌||◌, none, some, [], ◌∷◌, ◌++◌, Bytes, codes, length,
  ◌==◌, arith, ◌>>=◌, drop-append, ◌⊎◌,
}
use gik_view.CString.{strstr}
use gik_view.CString.Laws.{strstr-here, strstr-append}
use gik_view.Json.{append_json_escaped, json_extract, string_value, needle_of}
use gik_view.Json.Escape.{without_cr, string_value-append_json_escaped}
use gik_view.X509.{parse_leaf_not_after}
use gik_view.Issue.{rekey_body, sign_body, read_answer}

found :
    (key text : Bytes)
    → strstr (needle_of key) (b'{' ∷ (needle_of key ++ text)) ≡ some (needle_of key ++ text)
found key text =
    strstr-append b'"' (key ++ codes "\":\"") (b'{' ∷ []) (needle_of key ++ text)
      ((λ e. ground (arith, e)), tt)
    ∙ strstr-here (needle_of key) text

-- The first field of a JSON object that starts with it is found, whatever follows its closing
-- quote.
first_field :
    (key text rest : Bytes)
    → json_extract (b'{' ∷ (needle_of key ++ (append_json_escaped text ++ (b'"' ∷ rest)))) key
      ≡ without_cr text
unfolding json_extract
first_field key text rest =
    rw (found key (append_json_escaped text ++ (b'"' ∷ rest)), json_extract)
      (ap string_value (
          drop-append (length (needle_of key)) (needle_of key)
            (append_json_escaped text ++ (b'"' ∷ rest)) refl)
        ∙ string_value-append_json_escaped text rest)

-- Both requests carry the CSR: a reader of JSON strings gets the PEM text back from the field
-- `csr`, without carriage returns.
pub requests-carry_csr :
    (csr_pem jwt : Bytes)
    → (json_extract (rekey_body csr_pem) (codes "csr") ≡ without_cr csr_pem)
      × (json_extract (sign_body csr_pem jwt) (codes "csr") ≡ without_cr csr_pem)
unfolding rekey_body sign_body
requests-carry_csr csr_pem jwt = (
  first_field (codes "csr") csr_pem (codes "}"),
  first_field (codes "csr") csr_pem (codes ",\"ott\":\"" ++ (jwt ++ codes "\"}")),
)

-- The answer that a server prints for a certificate, with any fields behind it.
abbrev pub answer_body : Bytes → Bytes → Bytes
answer_body leaf rest =
    b'{' ∷ (needle_of (codes "crt") ++ (append_json_escaped leaf ++ (b'"' ∷ rest)))

status_ok : (n : ℕ) → (n ≡ 200) ⊎ (n ≡ 201) → (n == 200 || n == 201) ≡ true
status_ok n h = ground arith

status_bad : (n : ℕ) → (n ≢ 200) × (n ≢ 201) → (n == 200 || n == 201) ≡ false
status_bad n h = ground arith

-- With the status 200 or 201 the leaf and its expiry are taken from the answer, if the leaf is not
-- empty and its expiry can be read; with another status, an empty leaf or no answer at all nothing
-- is.
pub read_answer-leaf :
    (status : ℕ) (leaf rest : Bytes)
    → (((status ≡ 200) ⊎ (status ≡ 201))
        → (length (without_cr leaf) == 0) ≡ false
        → read_answer (some (status, answer_body leaf rest)) ≡ (
            parse_leaf_not_after (without_cr leaf) >>= λ t. some (record {
              leaf = without_cr leaf;
              inter = json_extract (answer_body leaf rest) (codes "ca");
              not_after = t;
            })))
      × (((status ≢ 200) × (status ≢ 201))
          → read_answer (some (status, answer_body leaf rest)) ≡ none)
      × (read_answer none ≡ none)
unfolding read_answer
read_answer-leaf status leaf rest = (
  (λ ok shown.
      rw (status_ok status ok, ◌>>=◌, first_field (codes "crt") leaf rest, shown, ◌>>=◌) refl),
  (λ bad. rw (status_bad status bad, ◌>>=◌) refl),
  refl,
)
