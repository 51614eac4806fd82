-- ===== src/Https/Delivery.antt =====
-- A server's side of a connection: a text that arrives in pieces, and then the end of the stream.
use gik_view.Prelude.{
  ℕ, zero, suc, ◌+◌, ◌≤◌, ◌<◌, ◌≡◌, refl, true, false, some, [], ◌∷◌, ◌++◌, Bytes, length, arith,
  ltb, lt→ltb, Bool-cases, inl, inr, take, append_assoc, append-nil, ◌∙◌, ap, length-snoc,
}
use gik_view.Prelude.Bits.{elapsed}
use gik_view.CString.Laws.{Lacks}
use gik_view.Https.{TlsClient, wait_answer, read_body}

-- `Delivers c text`: from `c` on the connection gives exactly `text` and is closed then. `lag c` is
-- a number of pauses after which all of it has come. A line is read whole, without its line end.
pub record IsDelivery (t : TlsClient) (Delivers : t.Conn → Bytes → Type 0) (lag : t.Conn → ℕ)
    : Type 0 where
  pub none_left : (c : t.Conn) → Delivers c [] → t.available c ≡ false
  pub not_closed :
      (c : t.Conn) (b : ℕ) (text : Bytes)
      → Delivers c (b ∷ text)
      → t.available c ≡ false
      → t.connected c ≡ true
  pub next_byte :
      (c : t.Conn) (b : ℕ) (text : Bytes)
      → Delivers c (b ∷ text)
      → t.available c ≡ true
      → ((t.read c).0 ≡ b) × Delivers (t.read c).1 text × (lag (t.read c).1 ≤ lag c)
  pub next_line :
      (c : t.Conn) (line text : Bytes)
      → Delivers c (line ++ 10 ∷ text)
      → Lacks 10 line
      → ((t.read_line c).0 ≡ line)
        × Delivers (t.read_line c).1 text
        × (lag (t.read_line c).1 ≤ lag c)
  pub later :
      (c : t.Conn) (text : Bytes) (ms : ℕ)
      → Delivers c text
      → t.available c ≡ false
      → t.connected c ≡ true
      → Delivers (t.pause ms c) text × (lag (t.pause ms c) < lag c)

-- So many pauses of the wait for the first byte.
unfoldable pub pauses : (t : TlsClient) → ℕ → t.Conn → t.Conn
pauses t zero c = c
pauses t (suc k) c = pauses t k (t.pause 10 c)

-- The waits that the first byte takes are over in less than 10 s from `since` on.
abbrev pub InTime : (t : TlsClient) → (t.Conn → ℕ) → ℕ → t.Conn → Type 0
InTime t lag since c = (k : ℕ) → k < lag c → elapsed (t.millis (pauses t k c)) since < 10000

module _ (t : TlsClient) (Delivers : t.Conn → Bytes → Type 0) (lag : t.Conn → ℕ)
    (laws : IsDelivery t Delivers lag) where
  -- The wait ends with the first byte.
  pub wait_answer-Delivers :
      (rounds since : ℕ) (c : t.Conn) (b : ℕ) (text : Bytes)
      → Delivers c (b ∷ text)
      → InTime t lag since c
      → lag c < rounds
      → (c' : t.Conn) × (wait_answer t rounds since c ≡ some c')
        × (t.available c' ≡ true)
        × Delivers c' (b ∷ text)
        × (lag c' ≤ lag c)
  unfolding wait_answer pauses
  wait_answer-Delivers zero since c b text h fast l = absurd (omega arith)
  wait_answer-Delivers (suc rounds) since c b text h fast l = elim (Bool-cases (t.available c)) [
    | inl e ↦ rw (e, wait_answer) (c, refl, e, h, omega arith)
    | inr e ↦
        let up = laws.not_closed c b text h e in
        let (h', l') = laws.later c (b ∷ text) 10 h e up in
        let in_time : ltb (elapsed (t.millis c) since) 10000 ≡ true =
          lt→ltb _ _ (fast 0 (omega (arith, l'))) in
        let (c', eq, ready, h'', l'') =
          wait_answer-Delivers rounds since (t.pause 10 c) b text h'
            (λ k lk. fast (suc k) (omega (arith, l', lk))) (omega (arith, l')) in
        rw (e, up, in_time, wait_answer) (c', eq, ready, h'', omega (arith, l', l''))
  ]

  -- The body's loop reads up to the length, or all there is.
  pub read_body-Delivers :
      (rounds n : ℕ) (body text : Bytes) (c : t.Conn)
      → Delivers c text
      → length text + lag c < rounds
      → (k : ℕ) → length body + k ≡ n
      → (c' : t.Conn) × (read_body t rounds n body c ≡ some (body ++ take k text, c'))
  unfolding read_body
  read_body-Delivers zero n body text c h l k e = absurd (omega arith)
  read_body-Delivers (suc rounds) n body text c h l zero e =
      let full : ltb (length body) n ≡ false = ground arith in
      rw (full, read_body, append-nil) (c, refl)
  read_body-Delivers (suc rounds) n body [] c h l (suc k) e =
      let more : ltb (length body) n ≡ true = ground arith in
      let empty = laws.none_left c h in
      elim (Bool-cases (t.connected c)) [
        | inr down ↦ rw (more, read_body, empty, down, append-nil) (c, refl)
        | inl up ↦
            let (h', l') = laws.later c [] 5 h empty up in
            rw (more, read_body, empty, up)
              (read_body-Delivers rounds n body [] (t.pause 5 c) h' (omega (arith, l')) (suc k) e)
      ]
  read_body-Delivers (suc rounds) n body (b ∷ text) c h l (suc k) e =
      let more : ltb (length body) n ≡ true = ground arith in
      elim (Bool-cases (t.available c)) [
        | inl ready ↦
            let (eq, h', l') = laws.next_byte c b text h ready in
            let (c', r) =
              read_body-Delivers rounds n (body ++ (b ∷ [])) text (t.read c).1 h'
                (omega (arith, l')) k (omega (arith, length-snoc body b)) in
            rw (more, read_body, ready, eq)
              (c', r ∙ ap (λ (x : Bytes). some (x, c')) (append_assoc body (b ∷ []) (take k text)))
        | inr empty ↦
            let up = laws.not_closed c b text h empty in
            let (h', l') = laws.later c (b ∷ text) 5 h empty up in
            rw (more, read_body, empty, up)
              (read_body-Delivers rounds n body (b ∷ text) (t.pause 5 c) h' (omega (arith, l'))
                (suc k) e)
      ]
