-- ===== src/Https.antt =====
-- The HTTP client of the firmware, `stepca_https` in end/arduino/stepca.cpp: the request that is
-- printed, and the reading of the response. The TLS client is a parameter. The log and the sizes of
-- the TLS buffers are left out.
pub mod Reader
pub mod Request
pub mod Trim
pub mod Delivery
pub mod Response
pub mod Answer
pub mod Stall
pub mod Limit
pub mod Script
mod Examples
use gik_view.Prelude.{
  ℕ, zero, suc, ◌+◌, ◌-◌, ◌%◌, ◌^◌, Bool, true, false, ◌&&◌, ◌||◌, not, Option, none, some, List,
  [], ◌∷◌, ◌++◌, Bytes, codes, length, take, drop, ltb, ◌==◌, if◌then◌else◌, ◌>>=◌,
}
use gik_view.Prelude.Bits.{elapsed}
use gik_view.CString.{starts_with, strchr}
use gik_view.Issue.{Https}
use gik_view.Fs.{
  LittleFs, ca_cert, read_file, decimal, print_ulong, is_space, skip_space, digits_value,
}

-- The String functions: `trim` drops white space at both ends.
unfoldable pub trim_end : Bytes → Bytes
unfolding is_space
trim_end [] = []
trim_end (c ∷ cs) =
    let rest = trim_end cs in if length rest == 0 && is_space c then [] else c ∷ rest

unfoldable pub trim : Bytes → Bytes
unfolding trim_end skip_space
trim text = trim_end (skip_space text)

-- A long that does not fit is the nearest one that does.
abbrev pub clamp_below : ℕ → ℕ → ℕ
clamp_below limit v = if ltb v limit then v else limit

-- `toInt`: the 32 bits of a long, in two's complement.
unfoldable pub to_int_signed : Bytes → ℕ
unfolding digits_value
to_int_signed [] = 0
to_int_signed (c ∷ cs) =
    if c == b'-'
    then (2 ^ 32 - clamp_below (2 ^ 31) (digits_value 0 cs)) % 2 ^ 32
    else if c == b'+'
    then clamp_below (2 ^ 31 - 1) (digits_value 0 cs)
    else clamp_below (2 ^ 31 - 1) (digits_value 0 (c ∷ cs))

unfoldable pub to_int : Bytes → ℕ
unfolding to_int_signed skip_space
to_int text = to_int_signed (skip_space text)

-- `substring(indexOf(c) + 1)`
unfoldable pub behind : ℕ → Bytes → Bytes
unfolding strchr
behind c text = elim (strchr c text) [ none ↦ text | some found ↦ drop 1 found ]

abbrev pub crlf : Bytes
crlf = 13 ∷ 10 ∷ []

-- What is printed to the connection. The address and the port are those of the configuration.
unfoldable pub body_headers : Bytes → Bytes
unfolding print_ulong
body_headers body =
    if ltb 0 (length body)
    then codes "Content-Type: application/json\r\nContent-Length: "
      ++ (print_ulong (length body) ++ crlf)
    else []

unfoldable pub request_text : Bytes → ℕ → Bytes → Bytes → Bytes → Bytes
unfolding body_headers decimal
request_text host port method path body =
    method
    ++ (32
        ∷ (path
            ++ (codes " HTTP/1.1\r\nHost: "
                ++ (host
                    ++ (58
                        ∷ (decimal 10 port
                            ++ (codes "\r\nConnection: close\r\n"
                                ++ (body_headers body ++ (crlf ++ body)))))))))

-- `WiFiClientSecure` with the clock: a connection is made to an address and a port, with the
-- trusted certificate and the client's chain and key. `read_line` is `readStringUntil('\n')`, and
-- `pause` a delay of so many milliseconds.
pub record TlsClient : Type 1 where
  pub Conn : Type 0
  pub from_string : Bytes → Option ℕ
  pub connect : Bytes → Option (Bytes × Bytes) → ℕ → ℕ → Option Conn
  pub print : Bytes → Conn → Conn
  pub available : Conn → Bool
  pub connected : Conn → Bool
  pub read : Conn → ℕ × Conn
  pub read_line : Conn → Bytes × Conn
  pub pause : ℕ → Conn → Conn
  pub millis : Conn → ℕ

-- The return value, `out_status` and `out_resp_body`.
pub record Reply : Type 0 where
  pub returned : Bool
  pub out_status : ℕ
  pub out_resp_body : Bytes

abbrev pub unanswered : Reply
unanswered = record { returned = false; out_status = 0; out_resp_body = [] }

-- What the callers see of a request: nothing, or the status and the body.
unfoldable pub seen : Option Reply → Option (ℕ × Bytes)
seen none = none
seen (some reply) = if reply.returned then some (reply.out_status, reply.out_resp_body) else none

-- A header line, on the length that is known so far.
unfoldable pub header_length : Bytes → ℕ → ℕ
unfolding starts_with to_int behind
header_length line content_length =
    if starts_with (codes "Content-Length:") line || starts_with (codes "content-length:") line
    then to_int (behind 58 line)
    else content_length

-- The loops run for at most `rounds` rounds; `none` is a loop that has not come to its end by then.
module _ (t : TlsClient) where
  unfoldable pub wait_answer : ℕ → ℕ → t.Conn → Option t.Conn
  wait_answer zero t_resp c = none
  wait_answer (suc rounds) t_resp c =
      elim (not (t.available c) && (t.connected c && ltb (elapsed (t.millis c) t_resp) 10000)) [
        | true ↦ wait_answer rounds t_resp (t.pause 10 c)
        | false ↦ some c
      ]

  unfoldable pub read_headers : ℕ → ℕ → t.Conn → Option (ℕ × t.Conn)
  unfolding header_length trim
  read_headers zero content_length c = none
  read_headers (suc rounds) content_length c = elim (t.connected c || t.available c) [
    | false ↦ some (content_length, c)
    | true ↦ elim (length (trim (t.read_line c).0) == 0) [
      | true ↦ some (content_length, (t.read_line c).1)
      | false ↦
          read_headers rounds (header_length (trim (t.read_line c).0) content_length)
            (t.read_line c).1
    ]
  ]

  unfoldable pub read_body : ℕ → ℕ → Bytes → t.Conn → Option (Bytes × t.Conn)
  read_body zero content_length body c = none
  read_body (suc rounds) content_length body c = elim (ltb (length body) content_length) [
    | false ↦ some (body, c)
    | true ↦ elim (t.available c) [
      | true ↦ read_body rounds content_length (body ++ ((t.read c).0 ∷ [])) (t.read c).1
      | false ↦ elim (t.connected c) [
        | false ↦ some (body, c)
        | true ↦ read_body rounds content_length body (t.pause 5 c)
      ]
    ]
  ]

  -- `while (cli.available())`
  unfoldable pub drain : ℕ → Bytes → t.Conn → Option (Bytes × t.Conn)
  drain zero body c = none
  drain (suc rounds) body c = elim (t.available c) [
    | false ↦ some (body, c)
    | true ↦ drain rounds (body ++ ((t.read c).0 ∷ [])) (t.read c).1
  ]

  -- Without a length: what comes until the connection is closed, or for 10 s.
  unfoldable pub read_to_end : ℕ → ℕ → Bytes → t.Conn → Option (Bytes × t.Conn)
  unfolding drain
  read_to_end zero t_b body c = none
  read_to_end (suc rounds) t_b body c =
      elim ((t.connected c || t.available c) && ltb (elapsed (t.millis c) t_b) 10000) [
        | false ↦ some (body, c)
        | true ↦ elim (drain rounds body c) [
          | none ↦ none
          | some (more, c') ↦ read_to_end rounds t_b more (t.pause 5 c')
        ]
      ]

  -- Behind the status line.
  unfoldable pub read_rest : ℕ → ℕ → t.Conn → Option Reply
  unfolding read_headers read_body read_to_end
  read_rest rounds status c = do
    (content_length, c1) ← read_headers rounds 0 c
    (body, c2) ←
        if ltb 0 content_length
        then read_body rounds content_length [] c1
        else read_to_end rounds (t.millis c1) [] c1
    some (record { returned = true; out_status = status; out_resp_body = body })

  unfoldable pub read_status : ℕ → Bytes → t.Conn → Option Reply
  unfolding read_rest to_int strchr
  read_status rounds status_line c = elim (strchr 32 status_line) [
    | none ↦ some unanswered
    | some found ↦ read_rest rounds (to_int (take 3 (drop 1 found))) c
  ]

  -- Behind the wait for the first byte.
  unfoldable pub read_reply : ℕ → t.Conn → Option Reply
  unfolding read_status trim
  read_reply rounds c =
      if t.available c
      then read_status rounds (trim (t.read_line c).0) (t.read_line c).1
      else some unanswered

  unfoldable pub read_response : ℕ → t.Conn → Option Reply
  unfolding wait_answer read_reply
  read_response rounds c = wait_answer rounds (t.millis c) c >>= read_reply rounds

  module _ (fs : LittleFs) (host : Bytes) (port : ℕ) where
    unfoldable pub send_request :
        ℕ → Bytes → Bytes → Bytes → Option (Bytes × Bytes) → Bytes → ℕ → Option Reply
    unfolding read_response request_text
    send_request rounds method path body client ca ip = elim (t.connect ca client ip port) [
      | none ↦ some unanswered
      | some c ↦ read_response rounds (t.print (request_text host port method path body) c)
    ]

    unfoldable pub stepca_https :
        ℕ → fs.Files → Bytes → Bytes → Bytes → Option (Bytes × Bytes) → Option Reply
    unfolding send_request read_file
    stepca_https rounds f method path body client =
        let ca = read_file fs ca_cert f in
        if length ca == 0 then some unanswered else elim (t.from_string host) [
          | none ↦ some unanswered
          | some ip ↦ send_request rounds method path body client ca ip
        ]

    -- The diagnosis `probe_stepca_chain_only`, which returns whether the status is 200.
    unfoldable pub probe_stepca_chain_only : ℕ → fs.Files → Option Bool
    unfolding stepca_https
    probe_stepca_chain_only rounds f = do
      reply ← stepca_https rounds f (codes "GET") (codes "/health") [] none
      some (reply.returned && reply.out_status == 200)

    unfoldable pub post : ℕ → fs.Files → Https
    unfolding stepca_https seen
    post rounds f path body client = seen (stepca_https rounds f (codes "POST") path body client)
