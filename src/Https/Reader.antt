-- ===== src/Https/Reader.antt =====
-- A reader of HTTP requests, which a request is read back with.
use gik_view.Prelude.{
  ℕ, zero, suc, ◌<◌, ◌≡◌, refl, ap, false, Option, none, some, List, [], ◌∷◌, ◌++◌, Bytes, codes,
  length, arith, ◌==◌, if◌then◌else◌, ◌>>=◌, take, drop, All,
}
use gik_view.CString.{starts_with}
use gik_view.CString.Split.{split_at, split_at-append}
use gik_view.CString.Laws.{Lacks}
use gik_view.Fs.{digits_value}
use gik_view.Https.Trim.{lines_text, with_cr}

-- A line without the carriage return at its end.
unfoldable pub chop : Bytes → Bytes
chop [] = []
chop (c ∷ []) = if c == 13 then [] else c ∷ []
chop (c ∷ d ∷ cs) = c ∷ chop (d ∷ cs)

-- The header lines up to the empty one, and what stands behind it.
unfoldable pub header_block : ℕ → Bytes → Option (List Bytes × Bytes)
unfolding split_at chop
header_block zero text = none
header_block (suc fuel) text = elim (split_at 10 text) [
  | none ↦ none
  | some (line, rest) ↦ elim (chop line) [
    | [] ↦ some ([], rest)
    | ◌∷◌ c cs ↦ elim (header_block fuel rest) [
      | none ↦ none
      | some (lines, body) ↦ some ((c ∷ cs) ∷ lines, body)
    ]
  ]
]

-- The length that a server takes of the body: that of the field, or 0 without one.
unfoldable pub body_length : List Bytes → ℕ
body_length [] = 0
body_length (line ∷ lines) =
    let rest = body_length lines in
    if starts_with (codes "Content-Length: ") line then digits_value 0 (drop 16 line) else rest

pub record HttpRequest : Type 0 where
  pub method : Bytes
  pub path : Bytes
  pub version : Bytes
  pub fields : List Bytes
  pub body : Bytes

unfoldable pub read_request : Bytes → Option HttpRequest
unfolding header_block body_length
read_request text = do
  (method, text1) ← split_at 32 text
  (path, text2) ← split_at 32 text1
  (version, text3) ← split_at 10 text2
  (fields, rest) ← header_block (length text) text3
  some (record {
    method = method;
    path = path;
    version = chop version;
    fields = fields;
    body = take (body_length fields) rest;
  })

pub chop-cr : (line : Bytes) → chop (line ++ (13 ∷ [])) ≡ line
unfolding chop
chop-cr [] = refl
chop-cr (c ∷ []) = refl
chop-cr (c ∷ d ∷ cs) = ap (◌∷◌ c) (chop-cr (d ∷ cs))

pub header_block-lines :
    (fuel : ℕ) (lines : List Bytes) (rest : Bytes)
    → All (λ (line : Bytes). Lacks 10 line × ((length line == 0) ≡ false)) lines
    → length lines < fuel
    → header_block fuel (lines_text lines rest) ≡ some (lines, rest)
unfolding header_block
header_block-lines zero lines rest h l = absurd (omega arith)
header_block-lines (suc fuel) [] rest h l = unfold split_at chop in refl
header_block-lines (suc fuel) ([] ∷ lines) rest ((one, shown), h) l = absurd (ground (arith, shown))
header_block-lines (suc fuel) ((c ∷ cs) ∷ lines) rest ((one, shown), h) l =
    rw
      (
        split_at-append 10 ((c ∷ cs) ++ (13 ∷ [])) (lines_text lines rest) (with_cr (c ∷ cs) one),
        header_block,
        chop-cr (c ∷ cs),
        header_block-lines fuel lines rest h (omega arith),
      )
      refl

-- The parts of a request, one behind the other.
pub read_parts :
    (method path version text : Bytes) (fields : List Bytes) (body : Bytes)
    → Lacks 32 method
    → Lacks 32 path
    → Lacks 10 version
    → let whole = method ++ 32 ∷ (path ++ 32 ∷ (version ++ 10 ∷ text)) in
      header_block (length whole) text ≡ some (fields, body)
      → read_request whole
        ≡ some (record {
          method = method;
          path = path;
          version = chop version;
          fields = fields;
          body = take (body_length fields) body;
        })
unfolding read_request
read_parts method path version text fields body hm hp hv e =
    rw
      (
        split_at-append 32 method (path ++ 32 ∷ (version ++ 10 ∷ text)) hm,
        ◌>>=◌,
        split_at-append 32 path (version ++ 10 ∷ text) hp,
        ◌>>=◌,
        split_at-append 10 version text hv,
        ◌>>=◌,
        e,
        ◌>>=◌,
      )
      refl
