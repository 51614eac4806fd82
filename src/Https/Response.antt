-- ===== src/Https/Response.antt =====
-- The reading of a response against a printer of responses.
use gik_view.Prelude.{
  ℕ, zero, suc, ◌+◌, ◌^◌, ◌≤◌, ◌<◌, ◌≡◌, refl, ap, ◌∙◌, Bool, true, false, ◌||◌, Option, some, List,
  [], ◌∷◌, ◌++◌, Bytes, codes, length, arith, ◌==◌, ◌>>=◌, lt→ltb, Bool-cases, inl, inr, take,
  append-nil, sym, All, All-append,
}
use gik_view.CString.{starts_with}
use gik_view.CString.Laws.{Lacks}
use gik_view.Fs.{LittleFs, read_file, ca_cert}
use gik_view.Https.{
  TlsClient, trim, header_length, read_headers, read_rest, read_status, read_reply, read_response,
  send_request, stepca_https, request_text,
}
use gik_view.Https.Trim.{
  trim-cr, lines_text, with_cr, length_line, header_length-length_line, length_line-Lacks,
  length_line-shown, status_line, status_line-trimmed, status_line-Lacks,
}
use gik_view.Https.Delivery.{IsDelivery, InTime, wait_answer-Delivers, read_body-Delivers}

-- A header line is on one line and is not blank.
abbrev pub IsHeader : Bytes → Type 0
IsHeader line = Lacks 10 line × ((length (trim line) == 0) ≡ false)

-- The last length that the lines give.
unfoldable pub declared : ℕ → List Bytes → ℕ
declared n [] = n
declared n (line ∷ lines) = declared (header_length (trim line) n) lines

-- Any other header line.
abbrev pub IsOther : Bytes → Type 0
IsOther line =
    IsHeader line
    × ((starts_with (codes "Content-Length:") (trim line) ≡ false)
        × (starts_with (codes "content-length:") (trim line) ≡ false))

pub declared-other :
    (n : ℕ) (lines more : List Bytes)
    → All IsOther lines
    → declared n (lines ++ more) ≡ declared n more
unfolding declared
declared-other n [] more h = refl
declared-other n (line ∷ lines) more ((_, (upper, lower)), h) =
    let same : header_length (trim line) n ≡ n = unfold header_length in rw (upper, lower) refl in
    ap (λ (k : ℕ). declared k (lines ++ more)) same ∙ declared-other n lines more h

-- The header lines of a response around that of its length.
abbrev pub header_lines : List Bytes → ℕ → List Bytes → List Bytes
header_lines front n back = front ++ length_line n ∷ back

pub other-IsHeader : (lines : List Bytes) → All IsOther lines → All IsHeader lines
other-IsHeader [] h = tt
other-IsHeader (line ∷ lines) ((one, _), h) = (one, other-IsHeader lines h)

pub header_lines-IsHeader :
    (front : List Bytes) (n : ℕ) (back : List Bytes)
    → All IsOther front
    → All IsOther back
    → All IsHeader (header_lines front n back)
header_lines-IsHeader front n back f b =
    All-append IsHeader front (length_line n ∷ back) (other-IsHeader front f)
      ((length_line-Lacks n, length_line-shown n), other-IsHeader back b)

pub declared-header_lines :
    (front : List Bytes) (n : ℕ) (back : List Bytes)
    → All IsOther front
    → All IsOther back
    → n < 2 ^ 31
    → declared 0 (header_lines front n back) ≡ n
declared-header_lines front n back f b l =
    declared-other 0 front (length_line n ∷ back) f
    ∙ unfold declared in
      (ap (λ (k : ℕ). declared k back) (header_length-length_line n 0 l)
        ∙ (ap (declared n) (sym (append-nil back)) ∙ declared-other n back [] b))

-- A connection to the configured address, made with the trusted certificate of the file store.
pub record Connects (t : TlsClient) (fs : LittleFs) (host : Bytes) (port : ℕ) (f : fs.Files)
    (client : Option (Bytes × Bytes)) (c : t.Conn) : Type 0 where
  pub trusted : (length (read_file fs ca_cert f) == 0) ≡ false
  pub ip : ℕ
  pub addressed : t.from_string host ≡ some ip
  pub made : t.connect (read_file fs ca_cert f) client ip port ≡ some c

module _ (t : TlsClient) where
  pub next_header :
      (rounds n : ℕ) (c : t.Conn) (line : Bytes)
      → (t.connected c || t.available c) ≡ true
      → (t.read_line c).0 ≡ line ++ (13 ∷ [])
      → (length (trim line) == 0) ≡ false
      → read_headers t (suc rounds) n c
        ≡ read_headers t rounds (header_length (trim line) n) (t.read_line c).1
  unfolding read_headers
  next_header rounds n c line up eq shown =
      let same = ap trim eq ∙ trim-cr line in
      let kept : (length (trim (t.read_line c).0) == 0) ≡ false =
        ap (λ (x : Bytes). length x == 0) same ∙ shown in
      rw (up, read_headers, kept)
        (ap (λ (x : Bytes). read_headers t rounds (header_length x n) (t.read_line c).1) same)

module _ (t : TlsClient) (Delivers : t.Conn → Bytes → Type 0) (lag : t.Conn → ℕ)
    (laws : IsDelivery t Delivers lag) where
  still_open :
      (c : t.Conn) (b : ℕ) (text : Bytes)
      → Delivers c (b ∷ text)
      → (t.connected c || t.available c) ≡ true
  still_open c b text h = elim (Bool-cases (t.available c)) [
    | inl e ↦ rw e (or_true (t.connected c))
    | inr e ↦ rw (laws.not_closed c b text h e) refl
  ]
    where
      or_true : (b : Bool) → (b || true) ≡ true
      or_true true = refl
      or_true false = refl

  open_line :
      (c : t.Conn) (line text : Bytes)
      → Delivers c (line ++ 10 ∷ text)
      → (t.connected c || t.available c) ≡ true
  open_line c [] text h = still_open c 10 text h
  open_line c (b ∷ line) text h = still_open c b (line ++ 10 ∷ text) h

  read_headers-Delivers :
      (rounds n : ℕ) (lines : List Bytes) (rest : Bytes) (c : t.Conn)
      → Delivers c (lines_text lines rest)
      → All IsHeader lines
      → length lines < rounds
      → (c' : t.Conn) × (read_headers t rounds n c ≡ some (declared n lines, c'))
        × Delivers c' rest
        × (lag c' ≤ lag c)
  unfolding read_headers declared
  read_headers-Delivers zero n lines rest c h v l = absurd (omega arith)
  read_headers-Delivers (suc rounds) n [] rest c h v l =
      let up = open_line c (13 ∷ []) rest h in
      let (eq, h', l') = laws.next_line c (13 ∷ []) rest h ((λ e. ground (arith, e)), tt) in
      rw (up, read_headers, eq) ((t.read_line c).1, (unfold trim in refl), h', l')
  read_headers-Delivers (suc rounds) n (line ∷ lines) rest c h ((one, shown), v) l =
      let up = open_line c (line ++ (13 ∷ [])) (lines_text lines rest) h in
      let (eq, h', l') =
        laws.next_line c (line ++ (13 ∷ [])) (lines_text lines rest) h (with_cr line one) in
      let (c', r, h'', l'') =
        read_headers-Delivers rounds (header_length (trim line) n) lines rest (t.read_line c).1 h' v
          (omega arith) in
      (c', next_header t rounds n c line up eq shown ∙ r, h'', omega (arith, l', l''))

  read_rest-Delivers :
      (rounds status n : ℕ) (lines : List Bytes) (text : Bytes) (c : t.Conn)
      → Delivers c (lines_text lines text)
      → All IsHeader lines
      → declared 0 lines ≡ n
      → 0 < n
      → length lines + length text + lag c < rounds
      → read_rest t rounds status c
        ≡ some (record { returned = true; out_status = status; out_resp_body = take n text })
  unfolding read_rest
  read_rest-Delivers rounds status n lines text c h v e pos l =
      let (c1, r, h1, l1) = read_headers-Delivers rounds 0 lines text c h v (omega arith) in
      let (c2, b) =
        read_body-Delivers t Delivers lag laws rounds n [] text c1 h1 (omega (arith, l1)) n
          (omega arith) in
      rw (r, ◌>>=◌, e, lt→ltb 0 n pos, b, ◌>>=◌) refl

  read_reply-Delivers :
      (rounds status n : ℕ) (reason : Bytes) (front back : List Bytes) (text : Bytes) (c : t.Conn)
      → Delivers c (lines_text (status_line status reason ∷ header_lines front n back) text)
      → t.available c ≡ true
      → status < 1000
      → Lacks 10 reason
      → All IsOther front
      → All IsOther back
      → 0 < n
      → n < 2 ^ 31
      → length (header_lines front n back) + length text + lag c < rounds
      → read_reply t rounds c
        ≡ some (record { returned = true; out_status = status; out_resp_body = take n text })
  unfolding read_reply read_status
  read_reply-Delivers rounds status n reason front back text c h ready s one f b pos small l =
      let line = status_line status reason in
      let (eq, h', l') =
        laws.next_line c (line ++ (13 ∷ [])) _ h
          (with_cr line (status_line-Lacks status reason one)) in
      let (found, at_space, value) = status_line-trimmed status reason s in
      rw (ready, eq, trim-cr line, read_status, at_space, value)
        (read_rest-Delivers rounds status n (header_lines front n back) text (t.read_line c).1 h'
          (header_lines-IsHeader front n back f b) (declared-header_lines front n back f b small)
          pos (omega (arith, l')))

  module _ (fs : LittleFs) (host : Bytes) (port rounds : ℕ) (f : fs.Files)
      (method path body : Bytes) (client : Option (Bytes × Bytes)) where
    -- If the server, to which a connection is made, answers the printed request with a status line
    -- of a status below 1000, header lines with one length from 1 to 2 ^ 31 - 1 among them, and a
    -- text, in any pieces of which the first comes within 10 s, and closes the connection: the call
    -- returns true with that status and the text up to the length. The rounds that are enough are
    -- given.
    pub stepca_https-response :
        (c : t.Conn) (status n : ℕ) (reason : Bytes) (front back : List Bytes) (text : Bytes)
        → Connects t fs host port f client c
        → let sent = t.print (request_text host port method path body) c in
          Delivers sent (lines_text (status_line status reason ∷ header_lines front n back) text)
          → InTime t lag (t.millis sent) sent
          → status < 1000
          → Lacks 10 reason
          → All IsOther front
          → All IsOther back
          → 0 < n
          → n < 2 ^ 31
          → length (header_lines front n back) + length text + lag sent < rounds
          → stepca_https t fs host port rounds f method path body client
            ≡ some (record { returned = true; out_status = status; out_resp_body = take n text })
    unfolding stepca_https send_request read_response status_line
    stepca_https-response c status n reason front back text v h fast s one a b pos small l =
        let sent = t.print (request_text host port method path body) c in
        let (c1, w, ready, h1, l1) =
          wait_answer-Delivers t Delivers lag laws rounds (t.millis sent) sent 72 _ h fast
            (omega arith) in
        rw (v.trusted, v.addressed, send_request, v.made, w, ◌>>=◌)
          (read_reply-Delivers rounds status n reason front back text c1 h1 ready s one a b pos
            small (omega (arith, l1)))
