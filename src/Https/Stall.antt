-- ===== src/Https/Stall.antt =====
-- What bounds the waits of the client: the wait for the first byte has a time limit, that for the
-- body has none.
use gik_view.Prelude.{
  ℕ, zero, suc, ◌+◌, ◌*◌, ◌^◌, ◌≤◌, ◌<◌, ◌≡◌, refl, sym, true, false, ◌⊎◌, Option, none, some, List,
  [], ◌∷◌, ◌++◌, Bytes, length, arith, ltb, ◌>>=◌, lt→ltb, ltb→le, Bool-cases, inl, inr, All,
  length-snoc, ltb→lt,
}
use mathlib.Core.Path.{subst}
use gik_view.Prelude.Bits.{elapsed}
use gik_view.CString.Laws.{Lacks}
use gik_view.Https.{
  TlsClient, trim, header_length, wait_answer, read_headers, read_body, read_rest, read_status,
  read_reply,
}
use gik_view.Https.Trim.{
  trim-cr, lines_text, with_cr, status_line, status_line-trimmed, status_line-Lacks,
}
use gik_view.Https.Delivery.{pauses}
use gik_view.Https.Response.{
  IsHeader, IsOther, header_lines, header_lines-IsHeader, declared, declared-header_lines,
  next_header,
}

-- From `c` on the connection gives `text`, and then stays open without another byte.
pub record IsStall (t : TlsClient) (Stalls : t.Conn → Bytes → Type 0) : Type 0 where
  pub none_left : (c : t.Conn) → Stalls c [] → t.available c ≡ false
  pub still_open : (c : t.Conn) (text : Bytes) → Stalls c text → t.connected c ≡ true
  pub next_byte :
      (c : t.Conn) (b : ℕ) (text : Bytes)
      → Stalls c (b ∷ text)
      → t.available c ≡ true
      → ((t.read c).0 ≡ b) × Stalls (t.read c).1 text
  pub next_line :
      (c : t.Conn) (line text : Bytes)
      → Stalls c (line ++ 10 ∷ text)
      → Lacks 10 line
      → ((t.read_line c).0 ≡ line) × Stalls (t.read_line c).1 text
  pub later :
      (c : t.Conn) (text : Bytes) (ms : ℕ)
      → Stalls c text
      → t.available c ≡ false
      → Stalls (t.pause ms c) text

module _ (t : TlsClient) where
  -- The wait goes on no longer than 10 s.
  pub data WaitEnd (since : ℕ) : Option t.Conn → Type 0 where
    arrived : (c : t.Conn) → t.available c ≡ true → WaitEnd since (some c)
    closed : (c : t.Conn) → t.connected c ≡ false → WaitEnd since (some c)
    timed_out : (c : t.Conn) → 10000 ≤ elapsed (t.millis c) since → WaitEnd since (some c)

  wait_from :
      (rounds k since : ℕ) (c : t.Conn)
      → ((j : ℕ) → k + j ≤ 1000 → 10 * (k + j) ≤ elapsed (t.millis (pauses t j c)) since)
      → k ≤ 1000
      → 1000 < rounds + k
      → WaitEnd since (wait_answer t rounds since c)
  unfolding wait_answer pauses
  wait_from zero k since c clock b l = absurd (omega arith)
  wait_from (suc rounds) k since c clock b l = elim (Bool-cases (t.available c)) [
    | inl e ↦ rw (e, wait_answer) (arrived c e)
    | inr e ↦ elim (Bool-cases (t.connected c)) [
      | inr d ↦ rw (e, d, wait_answer) (closed c d)
      | inl d ↦ elim (Bool-cases (ltb (elapsed (t.millis c) since) 10000)) [
        | inr over ↦ rw (e, d, over, wait_answer) (timed_out c (ltb→le _ _ over))
        | inl under ↦
            rw (e, d, under, wait_answer)
              (wait_from rounds (k + 1) since (t.pause 10 c)
                (λ j lj. omega (arith, clock (suc j) (omega arith)))
                (omega (arith, clock 0 (omega arith), ltb→lt _ _ under)) (omega arith))
      ]
    ]
  ]

  -- On every connection whose clock moves on by 10 ms or more a pause, from pause to pause for the
  -- first 1000 of them, 1001 rounds are enough for the wait for the first byte: it ends with a byte
  -- there, with the connection closed, or after 10 s.
  pub wait_answer_ends :
      (rounds since : ℕ) (c : t.Conn)
      → ((j : ℕ) → j ≤ 1000 → 10 * j ≤ elapsed (t.millis (pauses t j c)) since)
      → 1000 < rounds
      → WaitEnd since (wait_answer t rounds since c)
  wait_answer_ends rounds since c clock l =
      wait_from rounds 0 since c (λ j lj. omega (arith, clock j (omega arith))) (omega arith)
        (omega arith)

  module _ (Stalls : t.Conn → Bytes → Type 0) (laws : IsStall t Stalls) where
    read_body-Stalls :
        (rounds n : ℕ) (body text : Bytes) (c : t.Conn)
        → Stalls c text
        → length body + length text < n
        → read_body t rounds n body c ≡ none
    unfolding read_body
    read_body-Stalls zero n body text c h l = refl
    read_body-Stalls (suc rounds) n body [] c h l =
        rw
          (
            lt→ltb (length body) n (omega arith),
            read_body,
            laws.none_left c h,
            laws.still_open c [] h,
          )
          (read_body-Stalls rounds n body [] (t.pause 5 c)
            (laws.later c [] 5 h (laws.none_left c h)) l)
    read_body-Stalls (suc rounds) n body (b ∷ text) c h l =
        let more = lt→ltb (length body) n (omega arith) in
        elim (Bool-cases (t.available c)) [
          | inr e ↦
              rw (more, read_body, e, laws.still_open c (b ∷ text) h)
                (read_body-Stalls rounds n body (b ∷ text) (t.pause 5 c)
                  (laws.later c (b ∷ text) 5 h e) l)
          | inl e ↦
              rw (more, read_body, e)
                (read_body-Stalls rounds n (body ++ ((t.read c).0 ∷ [])) text (t.read c).1
                  (laws.next_byte c b text h e).1
                  (omega (arith, length-snoc {0} body (t.read c).0)))
        ]

    -- The header lines are read, or the rounds do not reach behind them.
    HeadersRead : ℕ → Bytes → Option (ℕ × t.Conn) → Type 0
    HeadersRead n text r = (r ≡ none) ⊎ ((c' : t.Conn) × (r ≡ some (n, c')) × Stalls c' text)

    read_headers-Stalls :
        (rounds n : ℕ) (lines : List Bytes) (text : Bytes) (c : t.Conn)
        → Stalls c (lines_text lines text)
        → All IsHeader lines
        → HeadersRead (declared n lines) text (read_headers t rounds n c)
    unfolding read_headers declared HeadersRead
    read_headers-Stalls zero n lines text c h v = inl refl
    read_headers-Stalls (suc rounds) n [] text c h v =
        let (eq, h') = laws.next_line c (13 ∷ []) text h ((λ e. ground (arith, e)), tt) in
        rw (laws.still_open c _ h, read_headers, eq)
          (inr ((t.read_line c).1, (unfold trim in refl), h'))
    read_headers-Stalls (suc rounds) n (line ∷ lines) text c h ((one, shown), v) =
        let (eq, h') =
          laws.next_line c (line ++ (13 ∷ [])) (lines_text lines text) h (with_cr line one) in
        let step = next_header t rounds n c line (rw (laws.still_open c _ h) refl) eq shown in
        subst (HeadersRead (declared (header_length (trim line) n) lines) text) (sym step) (
          read_headers-Stalls rounds (header_length (trim line) n) lines text (t.read_line c).1 h'
            v)

    -- If the server sends a status line, header lines with one length from 1 to 2 ^ 31 - 1 among
    -- them, and a text shorter than that length, and then keeps the connection open in silence: no
    -- number of rounds is enough, the call never returns.
    pub read_reply-Stalls :
        (rounds status n : ℕ) (reason : Bytes) (front back : List Bytes) (text : Bytes) (c : t.Conn)
        → Stalls c (lines_text (status_line status reason ∷ header_lines front n back) text)
        → t.available c ≡ true
        → status < 1000
        → Lacks 10 reason
        → All IsOther front
        → All IsOther back
        → length text < n
        → n < 2 ^ 31
        → read_reply t rounds c ≡ none
    unfolding read_reply read_status read_rest HeadersRead
    read_reply-Stalls rounds status n reason front back text c h ready s one f b short small =
        let line = status_line status reason in
        let (eq, h') =
          laws.next_line c (line ++ (13 ∷ [])) _ h
            (with_cr line (status_line-Lacks status reason one)) in
        let (found, at_space, value) = status_line-trimmed status reason s in
        let c1 = (t.read_line c).1 in
        rw (ready, eq, trim-cr line, read_status, at_space)
          (elim (read_headers-Stalls rounds 0 (header_lines front n back) text c1 h'
            (header_lines-IsHeader front n back f b)) [
              | inl e ↦ rw (e, ◌>>=◌) refl
              | inr (c2, e, h2) ↦
                  rw
                    (
                      e,
                      ◌>>=◌,
                      declared-header_lines front n back f b small,
                      lt→ltb 0 n (omega arith),
                      read_body-Stalls rounds n [] text c2 h2 (omega arith),
                      ◌>>=◌,
                    )
                    refl
            ])
