-- ===== src/Https/Limit.antt =====
-- The wait for a body without a length has a time limit, on a server that never closes.
use gik_view.Prelude.{
  ℕ, zero, suc, ◌+◌, ◌-◌, ◌*◌, ◌%◌, ◌^◌, ◌≤◌, ◌<◌, ◌≡◌, refl, ap, sym, ◌∙◌, true, false, some, [],
  ◌∷◌, ◌++◌, Bytes, Option, length, length-append, arith, ltb, ltb→lt, ltb→le, Bool-cases, inl, inr,
  append_assoc, append-nil, List, All, ◌>>=◌,
}
use gik_view.Prelude.Bits.{elapsed}
use mathlib.Core.Path.{subst}
use gik_view.CString.Laws.{Lacks}
use gik_view.Https.{
  TlsClient, trim, header_length, drain, read_headers, read_to_end, read_rest, read_status,
  read_reply,
}
use gik_view.Https.Trim.{
  trim-cr, lines_text, with_cr, status_line, status_line-trimmed, status_line-Lacks,
}
use gik_view.Https.Response.{
  IsHeader, IsOther, other-IsHeader, declared, declared-other, next_header,
}
use gik_view.Https.Stall.{IsStall}

-- `millis()` counts milliseconds in 32 bits. `ticks` is the same count without a bound: reading a
-- byte and a pause of 5 ms move it on, the pause by as much at least, and each by 1 s at most.
pub record IsClock (t : TlsClient) (ticks : t.Conn → ℕ) : Type 0 where
  pub counts : (c : t.Conn) → t.millis c ≡ ticks c % 2 ^ 32
  pub reading :
      (c : t.Conn) → (ticks c ≤ ticks (t.read c).1) × (ticks (t.read c).1 ≤ ticks c + 1000)
  pub pausing :
      (c : t.Conn) → (ticks c + 5 ≤ ticks (t.pause 5 c)) × (ticks (t.pause 5 c) ≤ ticks c + 1000)

-- Below the 49 days of `millis()`, the difference of two readings is the time between them.
elapsed_ticks :
    (x start : ℕ)
    → start ≤ x
    → x < start + 2 ^ 32
    → elapsed (x % 2 ^ 32) (start % 2 ^ 32) ≡ x - start
elapsed_ticks x start h l = omega arith

module _ (t : TlsClient) (ticks : t.Conn → ℕ) (clock : IsClock t ticks) (start : ℕ) where
  time :
      (c : t.Conn)
      → start ≤ ticks c
      → ticks c < start + 2 ^ 32
      → elapsed (t.millis c) (start % 2 ^ 32) ≡ ticks c - start
  time c h l = rw (clock.counts c) (elapsed_ticks (ticks c) start h l)

  module _ (Stalls : t.Conn → Bytes → Type 0) (laws : IsStall t Stalls) where
    -- What a drain gives: a front of the text, in 1 s for each byte at most.
    record Drained (text body : Bytes) (c : t.Conn) (o : Option (Bytes × t.Conn)) : Type 0 where
      front : Bytes
      back : Bytes
      end : t.Conn
      parts : text ≡ front ++ back
      result : o ≡ some (body ++ front, end)
      left : Stalls end back
      not_before : ticks c ≤ ticks end
      not_late : ticks end ≤ ticks c + 1000 * length front
      nothing : t.available end ≡ false

    drain-Drained :
        (rounds : ℕ) (body text : Bytes) (c : t.Conn)
        → Stalls c text
        → length text < rounds
        → Drained text body c (drain t rounds body c)
    unfolding drain
    drain-Drained zero body text c h l = absurd (omega arith)
    drain-Drained (suc rounds) body [] c h l =
        let e = laws.none_left c h in
        record {
          front = [];
          back = [];
          end = c;
          parts = refl;
          result = rw (drain, e, append-nil) refl;
          left = h;
          not_before = omega arith;
          not_late = omega arith;
          nothing = e;
        }
    drain-Drained (suc rounds) body (b ∷ text) c h l = elim (Bool-cases (t.available c)) [
      | inr e ↦ record {
        front = [];
        back = b ∷ text;
        end = c;
        parts = refl;
        result = rw (drain, e, append-nil) refl;
        left = h;
        not_before = omega arith;
        not_late = omega arith;
        nothing = e;
      }
      | inl e ↦
          let (eq, h') = laws.next_byte c b text h e in
          let r =
            drain-Drained rounds (body ++ ((t.read c).0 ∷ [])) text (t.read c).1 h' (omega arith) in
          record {
            front = b ∷ r.front;
            back = r.back;
            end = r.end;
            parts = ap (◌∷◌ b) r.parts;
            result = rw (drain, e, r.result, eq, append_assoc) refl;
            left = r.left;
            not_before = omega (arith, r.not_before, clock.reading c);
            not_late = omega (arith, r.not_late, clock.reading c);
            nothing = r.nothing;
          }
    ]

    -- The wait is over after 10 s, with as much of the text as came by then.
    pub record Ended (text body : Bytes) (o : Option (Bytes × t.Conn)) : Type 0 where
      pub front : Bytes
      pub back : Bytes
      pub end : t.Conn
      pub parts : text ≡ front ++ back
      pub result : o ≡ some (body ++ front, end)
      pub over : start + 10000 ≤ ticks end

    behind :
        (body front : Bytes) {text back : Bytes} {o : Option (Bytes × t.Conn)}
        → text ≡ front ++ back
        → Ended back (body ++ front) o
        → Ended text body o
    behind body front parts r = record {
      front = front ++ r.front;
      back = r.back;
      end = r.end;
      parts = parts ∙ ap (◌++◌ front) r.parts ∙ sym (append_assoc front r.front r.back);
      result = r.result ∙ rw (append_assoc body front r.front) refl;
      over = r.over;
    }

    read_to_end-Ended :
        (rounds m : ℕ) (body text : Bytes) (c : t.Conn)
        → Stalls c text
        → start ≤ ticks c
        → ticks c < start + 2 ^ 32
        → start + 10000 ≤ ticks c + 5 * m
        → length text ≤ 2 ^ 21
        → length text + m < rounds
        → Ended text body (read_to_end t rounds (start % 2 ^ 32) body c)
    unfolding read_to_end
    read_to_end-Ended zero m body text c h from bound due small l = absurd (omega arith)
    read_to_end-Ended (suc rounds) m body text c h from bound due small l =
        let passed = time c from bound in
        elim (Bool-cases (ltb (elapsed (t.millis c) (start % 2 ^ 32)) 10000)) [
          | inr e ↦ record {
            front = [];
            back = text;
            end = c;
            parts = refl;
            result = rw (read_to_end, laws.still_open c text h, e, append-nil) refl;
            over = omega (arith, ltb→le _ _ e, passed);
          }
          | inl e ↦
              let early = ltb→lt _ _ e in
              let d = drain-Drained rounds body text c h (omega arith) in
              let (pause_min, pause_max) = clock.pausing d.end in
              let sizes : length text ≡ length d.front + length d.back =
                omega (arith, ap length d.parts, length-append {0} d.front d.back) in
              rw (read_to_end, laws.still_open c text h, e, d.result)
                (behind body d.front d.parts (
                  read_to_end-Ended rounds (m - 1) (body ++ d.front) d.back (t.pause 5 d.end)
                    (laws.later d.end d.back 5 d.left d.nothing)
                    (omega (arith, d.not_before, pause_min))
                    (omega (arith, d.not_late, pause_max, sizes, early, passed))
                    (omega (arith, d.not_before, pause_min)) (omega (arith, sizes))
                    (omega (arith, sizes))))
        ]

module _ (t : TlsClient) (Stalls : t.Conn → Bytes → Type 0) (laws : IsStall t Stalls) where
  HeadersRead : ℕ → Bytes → Option (ℕ × t.Conn) → Type 0
  HeadersRead n text r = (c' : t.Conn) × (r ≡ some (n, c')) × Stalls c' text

  read_headers-Read :
      (rounds n : ℕ) (lines : List Bytes) (text : Bytes) (c : t.Conn)
      → Stalls c (lines_text lines text)
      → All IsHeader lines
      → length lines < rounds
      → HeadersRead (declared n lines) text (read_headers t rounds n c)
  unfolding read_headers declared HeadersRead
  read_headers-Read zero n lines text c h v l = absurd (omega arith)
  read_headers-Read (suc rounds) n [] text c h v l =
      let (eq, h') = laws.next_line c (13 ∷ []) text h ((λ e. ground (arith, e)), tt) in
      rw (laws.still_open c _ h, read_headers, eq) ((t.read_line c).1, (unfold trim in refl), h')
  read_headers-Read (suc rounds) n (line ∷ lines) text c h ((one, shown), v) l =
      let (eq, h') =
        laws.next_line c (line ++ (13 ∷ [])) (lines_text lines text) h (with_cr line one) in
      let step = next_header t rounds n c line (rw (laws.still_open c _ h) refl) eq shown in
      subst (HeadersRead (declared (header_length (trim line) n) lines) text) (sym step) (
        read_headers-Read rounds (header_length (trim line) n) lines text (t.read_line c).1 h' v
          (omega arith))

  none_declared : (lines : List Bytes) → All IsOther lines → declared 0 lines ≡ 0
  none_declared lines h =
      ap (declared 0) (sym (append-nil lines))
      ∙ declared-other 0 lines [] h
      ∙ unfold declared in refl

  ended_from :
      (ticks : t.Conn → ℕ) (clock : IsClock t ticks) (rounds : ℕ) (text : Bytes) (c : t.Conn)
      → Stalls c text
      → length text ≤ 2 ^ 21
      → length text + 2000 < rounds
      → Ended t ticks clock (ticks c) Stalls laws text [] (read_to_end t rounds (t.millis c) [] c)
  ended_from ticks clock rounds text c h small l =
      subst (λ m. Ended t ticks clock (ticks c) Stalls laws text [] (read_to_end t rounds m [] c))
        (sym (clock.counts c))
        (read_to_end-Ended t ticks clock (ticks c) Stalls laws rounds 2000 [] text c h (omega arith)
          (omega arith) (omega arith) small l)

  -- If the server sends a status line with a status below 1000, header lines without a length, and
  -- a text of at most 2 ^ 21 bytes, and then keeps the connection open in silence, the call returns
  -- true with the status and a front of the text, if it has one round for each header line and each
  -- byte and 2001 more; on a clock on which reading a byte and a pause of 5 ms take 1 s at most,
  -- and the pause 5 ms at least.
  pub read_reply-Ends :
      (ticks : t.Conn → ℕ) (clock : IsClock t ticks) (rounds status : ℕ) (reason : Bytes)
      (lines : List Bytes) (text : Bytes) (c : t.Conn)
      → Stalls c (lines_text (status_line status reason ∷ lines) text)
      → t.available c ≡ true
      → status < 1000
      → Lacks 10 reason
      → All IsOther lines
      → length text ≤ 2 ^ 21
      → length lines + length text + 2000 < rounds
      → (front : Bytes) × (back : Bytes) × (text ≡ front ++ back)
        × (read_reply t rounds c
            ≡ some (record { returned = true; out_status = status; out_resp_body = front }))
  unfolding read_reply read_status read_rest HeadersRead
  read_reply-Ends ticks clock rounds status reason lines text c h ready s one others small l =
      let line = status_line status reason in
      let (eq, h') =
        laws.next_line c (line ++ (13 ∷ [])) _ h
          (with_cr line (status_line-Lacks status reason one)) in
      let (found, at_space, value) = status_line-trimmed status reason s in
      let (c2, e, h2) =
        read_headers-Read rounds 0 lines text (t.read_line c).1 h' (other-IsHeader lines others)
          (omega arith) in
      let r = ended_from ticks clock rounds text c2 h2 small (omega arith) in
      (
        r.front,
        r.back,
        r.parts,
        rw
            (
              ready,
              eq,
              trim-cr line,
              read_status,
              at_space,
              e,
              ◌>>=◌,
              none_declared lines others,
              r.result,
              ◌>>=◌,
              value,
            )
            refl,
      )
