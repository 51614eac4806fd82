-- ===== src/Https/Request.antt =====
-- The request against a reader of HTTP requests.
use gik_view.Prelude.{
  ℕ, ◌^◌, ◌<◌, ◌≡◌, refl, ap, ◌∙◌, true, false, Option, none, some, List, [], ◌∷◌, ◌++◌, Bytes,
  codes, length, arith, ltb, ◌==◌, if◌then◌else◌, ◌>>=◌, Bool-cases, inl, inr, take, append_assoc,
  All, All-append, take_all, length-append,
}
use gik_view.CString.{starts_with}
use gik_view.Https.Reader.{
  HttpRequest, body_length, read_request, chop-cr, header_block-lines, read_parts,
}
use gik_view.Json.Reader.{
  IsPlain, IsText, read_string, read_fields, read_object, read_string-append, read_string-escaped,
}
use gik_view.Json.Escape.{without_cr}
use gik_view.Issue.{rekey_body, sign_body}
use gik_view.CString.Laws.{Lacks, lacks-Lacks}
use gik_view.Fs.{decimal, print_ulong}
use gik_view.Https.{crlf, body_headers, request_text}
use gik_view.Https.Trim.{length_line, length_line-Lacks, lines_text, digits-Lacks}
use gik_view.Fs.Expiry.{decimal-IsDigit, digits_value-print_ulong}

-- The header fields of a request of the firmware.
pub body_fields : Bytes → List Bytes
body_fields body =
    if ltb 0 (length body)
    then codes "Content-Type: application/json" ∷ length_line (length body) ∷ []
    else []

pub request_fields : Bytes → ℕ → Bytes → List Bytes
unfolding body_fields
request_fields host port body =
    (codes "Host: " ++ (host ++ (58 ∷ decimal 10 port)))
    ∷ codes "Connection: close"
    ∷ body_fields body

ended : (line rest : Bytes) → (line ++ (13 ∷ [])) ++ 10 ∷ rest ≡ line ++ 13 ∷ 10 ∷ rest
ended line rest = append_assoc line (13 ∷ []) (10 ∷ rest)

body_headers-lines :
    (body rest : Bytes) → body_headers body ++ (crlf ++ rest) ≡ lines_text (body_fields body) rest
unfolding body_headers body_fields
body_headers-lines body rest = elim (Bool-cases (ltb 0 (length body))) [
  | inr e ↦ rw e refl
  | inl e ↦ rw e (numbered (print_ulong (length body)))
]
  where
    numbered :
        (n : Bytes)
        → (codes "Content-Type: application/json\r\nContent-Length: " ++ (n ++ crlf))
            ++ (crlf ++ rest)
          ≡ (codes "Content-Type: application/json" ++ (13 ∷ []))
            ++ 10 ∷ (((codes "Content-Length: " ++ n) ++ (13 ∷ [])) ++ 10 ∷ (13 ∷ 10 ∷ rest))
    numbered n = rw (ended n (13 ∷ 10 ∷ rest), append_assoc n crlf (13 ∷ 10 ∷ rest)) refl

-- The printed text, line by line.
request_text-lines :
    (host : Bytes) (port : ℕ) (method path body : Bytes)
    → request_text host port method path body
      ≡ method
        ++ 32
          ∷ (path
              ++ 32
                ∷ ((codes "HTTP/1.1" ++ (13 ∷ []))
                    ++ 10 ∷ lines_text (request_fields host port body) body))
unfolding request_text request_fields
request_text-lines host port method path body =
    rw (body_headers-lines body body)
      (addressed (decimal 10 port) (lines_text (body_fields body) body))
  where
    addressed :
        (n rest : Bytes)
        → method
            ++ (32
                ∷ (path
                    ++ (codes " HTTP/1.1\r\nHost: "
                        ++ (host ++ (58 ∷ (n ++ (codes "\r\nConnection: close\r\n" ++ rest)))))))
          ≡ method
            ++ 32
              ∷ (path
                  ++ 32
                    ∷ ((codes "HTTP/1.1" ++ (13 ∷ []))
                        ++ 10
                          ∷ (((codes "Host: " ++ (host ++ (58 ∷ n))) ++ (13 ∷ []))
                              ++ 10 ∷ ((codes "Connection: close" ++ (13 ∷ [])) ++ 10 ∷ rest))))
    addressed n rest =
        rw
          (
            ended (host ++ (58 ∷ n)) (codes "Connection: close" ++ 13 ∷ 10 ∷ rest),
            append_assoc host (58 ∷ n) (13 ∷ 10 ∷ (codes "Connection: close" ++ 13 ∷ 10 ∷ rest)),
          )
          refl

length-lines_text :
    (lines : List Bytes) (rest : Bytes) → length lines < length (lines_text lines rest)
length-lines_text [] rest = omega arith
length-lines_text (line ∷ lines) rest = omega (
  arith,
  length-append {0} (line ++ (13 ∷ [])) (10 ∷ lines_text lines rest),
  length-lines_text lines rest,
)

abbrev IsField : Bytes → Type 0
IsField line = Lacks 10 line × ((length line == 0) ≡ false)

body_fields-IsField : (body : Bytes) → All IsField (body_fields body)
unfolding body_fields
body_fields-IsField body = elim (Bool-cases (ltb 0 (length body))) [
  | inr e ↦ rw e tt
  | inl e ↦ rw e (
    (lacks-Lacks 10 (codes "Content-Type: application/json") refl, refl),
    ((length_line-Lacks (length body), ground arith), tt),
  )
]

request_fields-IsField :
    (host : Bytes) (port : ℕ) (body : Bytes)
    → Lacks 10 host
    → All IsField (request_fields host port body)
unfolding request_fields
request_fields-IsField host port body h = (
  (
    All-append _ (codes "Host: ") (host ++ (58 ∷ decimal 10 port))
        (lacks-Lacks 10 (codes "Host: ") refl)
        (All-append _ host (58 ∷ decimal 10 port) h
          ((λ e. ground (arith, e)), digits-Lacks (decimal 10 port) (decimal-IsDigit 10 port))),
    ground arith,
  ),
  ((lacks-Lacks 10 (codes "Connection: close") refl, refl), body_fields-IsField body),
)

whole_body :
    (host : Bytes) (port : ℕ) (body : Bytes)
    → length body < 2 ^ 32
    → take (body_length (request_fields host port body)) body ≡ body
unfolding request_fields body_fields body_length starts_with
whole_body host port [] h = refl
whole_body host port (b ∷ body) h =
    let shown : ltb 0 (length (b ∷ body)) ≡ true = ground arith in
    let value = digits_value-print_ulong (length (b ∷ body)) h in
    rw (shown, value) (take_all (length (b ∷ body)) (b ∷ body) (omega arith))

-- A reader of HTTP finds in a printed request its method, its path, the fields, with the host and,
-- for a body, its type and length, and the whole body; for a method and a path without spaces, a
-- host on one line, and a body shorter than 2 ^ 32.
pub read_request-request_text :
    (host : Bytes) (port : ℕ) (method path body : Bytes)
    → Lacks 10 host
    → Lacks 32 method
    → Lacks 32 path
    → length body < 2 ^ 32
    → read_request (request_text host port method path body)
      ≡ some (record {
        method = method;
        path = path;
        version = codes "HTTP/1.1";
        fields = request_fields host port body;
        body = body;
      })
read_request-request_text host port method path body h hm hp l =
    let fields = request_fields host port body in
    let version = codes "HTTP/1.1" ++ (13 ∷ []) in
    let text3 = lines_text fields body in
    let text2 = version ++ 10 ∷ text3 in
    let text1 = path ++ 32 ∷ text2 in
    let size : length fields < length (method ++ 32 ∷ text1) = omega (
      arith,
      length-lines_text fields body,
      length-append {0} method (32 ∷ text1),
      length-append {0} path (32 ∷ text2),
      length-append {0} version (10 ∷ text3),
    ) in
    let block =
      header_block-lines (length (method ++ 32 ∷ text1)) fields body
        (request_fields-IsField host port body h) size in
    ap read_request (request_text-lines host port method path body)
    ∙ read_parts method path version text3 fields body hm hp (lacks-Lacks 10 version refl) block
    ∙ rw (chop-cr (codes "HTTP/1.1"), whole_body host port body l) refl

abbrev csr_field : Bytes → Bytes × Bytes
csr_field csr_pem = (codes "csr", without_cr csr_pem)

read_object-rekey_body :
    (csr_pem : Bytes)
    → All IsText csr_pem
    → read_object (rekey_body csr_pem) ≡ some (csr_field csr_pem ∷ [])
unfolding read_object read_fields read_string rekey_body
read_object-rekey_body csr_pem h = rw (read_string-escaped csr_pem (codes "}") h, ◌>>=◌) refl

read_object-sign_body :
    (csr_pem jwt : Bytes)
    → All IsText csr_pem
    → All IsPlain jwt
    → read_object (sign_body csr_pem jwt) ≡ some (csr_field csr_pem ∷ (codes "ott", jwt) ∷ [])
unfolding read_object read_fields read_string sign_body
read_object-sign_body csr_pem jwt h plain =
    rw
      (
        read_string-escaped csr_pem (codes ",\"ott\":\"" ++ (jwt ++ codes "\"}")) h,
        ◌>>=◌,
        read_string-append jwt (codes "}") plain,
        ◌>>=◌,
      )
      refl

-- What a server gets: the method, the path and the fields of the JSON object in the body.
pub record Received : Type 0 where
  pub method : Bytes
  pub path : Bytes
  pub fields : List (Bytes × Bytes)

abbrev received_body : HttpRequest → Option Received
received_body q = elim (read_object q.body) [
  | none ↦ none
  | some fields ↦ some (record { method = q.method; path = q.path; fields = fields })
]

abbrev pub received : Bytes → Option Received
received text = read_request text >>= received_body

sent :
    (host path body : Bytes) (port : ℕ) (fields : List (Bytes × Bytes))
    → Lacks 10 host
    → Lacks 32 path
    → length body < 2 ^ 32
    → read_object body ≡ some fields
    → received (request_text host port (codes "POST") path body)
      ≡ some (record { method = codes "POST"; path = path; fields = fields })
sent host path body port fields h hp small e =
    ap (λ (r : Option HttpRequest). r >>= received_body)
      (read_request-request_text host port (codes "POST") path body h
        (lacks-Lacks 32 (codes "POST") refl) hp small)
    ∙ rw (◌>>=◌, received_body, e) refl

-- A server gets both requests as they are meant. For a host on one line, bodies shorter than 2 ^
-- 32, a CSR without control characters but for line ends, and a token of characters that a JSON
-- string can hold as they are: a reader of HTTP finds the method POST and the path, and a strict
-- reader of JSON finds the body to be an object of the field csr, which is the CSR without carriage
-- returns, and, in the request with a token, the field ott, which is the token.
pub requests-received :
    (host : Bytes) (port : ℕ) (csr_pem jwt : Bytes)
    → Lacks 10 host
    → All IsText csr_pem
    → All IsPlain jwt
    → length (rekey_body csr_pem) < 2 ^ 32
    → length (sign_body csr_pem jwt) < 2 ^ 32
    → (received (request_text host port (codes "POST") (codes "/1.0/rekey") (rekey_body csr_pem))
        ≡ some (record {
          method = codes "POST";
          path = codes "/1.0/rekey";
          fields = (codes "csr", without_cr csr_pem) ∷ [];
        }))
      × (received
            (request_text host port (codes "POST") (codes "/1.0/sign") (sign_body csr_pem jwt))
          ≡ some (record {
            method = codes "POST";
            path = codes "/1.0/sign";
            fields = (codes "csr", without_cr csr_pem) ∷ (codes "ott", jwt) ∷ [];
          }))
requests-received host port csr_pem jwt h text plain small small' = (
  sent host (codes "/1.0/rekey") (rekey_body csr_pem) port _ h
      (lacks-Lacks 32 (codes "/1.0/rekey") refl) small (read_object-rekey_body csr_pem text),
  sent host (codes "/1.0/sign") (sign_body csr_pem jwt) port _ h
      (lacks-Lacks 32 (codes "/1.0/sign") refl) small'
      (read_object-sign_body csr_pem jwt text plain),
)
