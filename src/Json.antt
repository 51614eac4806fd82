-- ===== src/Json.antt =====
-- The JSON of step-ca's API, end/arduino/stepca.cpp: `append_json_escaped` and `json_extract`.
pub mod Escape
pub mod Reader
mod Examples
use gik_view.Prelude.{
  ℕ, ◌+◌, Bool, true, false, Option, none, some, List, [], ◌∷◌, ◌++◌, Bytes, codes, length, drop,
  ◌==◌, if◌then◌else◌,
}
use gik_view.CString.{strstr}

-- What `append_json_escaped` appends. A carriage return is dropped.
unfoldable pub append_json_escaped : Bytes → Bytes
append_json_escaped [] = []
append_json_escaped (c ∷ src) =
    let rest = append_json_escaped src in
    if c == 10
    then b'\\' ∷ b'n' ∷ rest
    else if c == 13
    then rest
    else if c == b'"'
    then b'\\' ∷ b'"' ∷ rest
    else if c == b'\\'
    then b'\\' ∷ b'\\' ∷ rest
    else c ∷ rest

-- The character behind a backslash.
unfoldable pub unescaped : ℕ → ℕ
unescaped n = if n == b'n' then 10 else if n == b'r' then 13 else if n == b't' then 9 else n

-- The loop of `json_extract`, up to the closing quote. A backslash at the end of the text stands
-- for itself.
unfoldable pub string_value : Bytes → Bytes
unfolding unescaped
string_value [] = []
string_value (c ∷ []) = if c == b'"' then [] else c ∷ []
string_value (c ∷ n ∷ text) = elim (c == b'\\') [
  | true ↦ unescaped n ∷ string_value text
  | false ↦ elim (c == b'"') [ true ↦ [] | false ↦ c ∷ string_value (n ∷ text) ]
]

abbrev pub needle_of : Bytes → Bytes
needle_of key = b'"' ∷ (key ++ codes "\":\"")

unfoldable pub json_extract : Bytes → Bytes → Bytes
unfolding string_value
json_extract body key = elim (strstr (needle_of key) body) [
  | none ↦ []
  | some found ↦ string_value (drop (length (needle_of key)) found)
]
