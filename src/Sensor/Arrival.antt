-- ===== src/Sensor/Arrival.antt =====
-- A frame that arrives on the serial line.
use gik_view.Prelude.{
  ℕ, ◌+◌, ◌-◌, ◌<◌, ◌≡◌, ◌≢◌, refl, ap, ◌∙◌, true, [], ◌∷◌, ◌++◌, Bytes, codes, length, get_or,
  take, arith, ltb, append-nil, All, All-append, append_assoc, take_all, take-append, length-snoc,
}
use gik_view.CString.{starts_with, c_string}
use gik_view.CString.Laws.{Lacks, lacks-Lacks, starts_with-append}
use gik_view.Sensor.{Sensor, parse_sensor_string, receive, read_occupancy}
use gik_view.Sensor.Frame.{parse_sensor_string-frame}
use gik_view.Sensor.Lines.{Reader, Refines, read_char, read_all, receive-Refines, line_text}

-- The characters of a line are collected up to its end.
read_all-line :
    (line seen : Bytes) (occupancy : ℕ)
    → Lacks 10 line
    → read_all (line ++ 10 ∷ []) (record { seen = seen; occupancy = occupancy })
      ≡ read_char 10 (record { seen = seen ++ line; occupancy = occupancy })
unfolding read_all
read_all-line [] seen occupancy h = rw (append-nil seen) refl
read_all-line (c ∷ line) seen occupancy (hc, h) =
    let other : read_char c (record { seen = seen; occupancy = occupancy })
        ≡ record { seen = seen ++ (c ∷ []); occupancy = occupancy } =
      unfold read_char in ground (arith, hc) in
    ap (read_all (line ++ 10 ∷ [])) other
    ∙ read_all-line line (seen ++ (c ∷ [])) occupancy h
    ∙ ap (λ (x : Bytes). read_char 10 (record { seen = x; occupancy = occupancy }))
        (append_assoc seen (c ∷ []) line)

c_string-whole : (text : Bytes) → Lacks 0 text → c_string text ≡ text
unfolding c_string
c_string-whole [] h = refl
c_string-whole (c ∷ text) (hc, h) = ground (arith, hc, c_string-whole text h)

last_cr : (line : Bytes) → get_or (line ++ (13 ∷ [])) (length line) 0 ≡ 13
last_cr [] = refl
last_cr (c ∷ line) = last_cr line

line_text-cr :
    (line : Bytes) → Lacks 0 line → length line < 63 → line_text (line ++ (13 ∷ [])) ≡ line
line_text-cr line h l =
    let size = length-snoc {0} line 13 in
    let all : take 63 (line ++ (13 ∷ [])) ≡ line ++ (13 ∷ []) =
      take_all 63 (line ++ (13 ∷ [])) (omega (arith, size)) in
    let last : length line + 1 - 1 ≡ length line = omega arith in
    let shown : ltb 0 (length line + 1) ≡ true = ground arith in
    rw (all, size, last, shown, last_cr line, take-append (length line) line (13 ∷ []) refl)
      (c_string-whole line h)

read_frame :
    (frame : Bytes) (occupancy v : ℕ)
    → line_text (frame ++ (13 ∷ [])) ≡ frame
    → starts_with (codes "$DFHPD") frame ≡ true
    → parse_sensor_string frame occupancy ≡ v
    → (read_char 10 (record { seen = frame ++ (13 ∷ []); occupancy = occupancy })).occupancy ≡ v
unfolding read_char
read_frame frame occupancy v text shown value = rw (text, shown, value) refl

-- A frame with any text without a comma, a NUL or a line end in its first field behind the name,
-- and a 0 or 1 in its second, in a line of at most 62 characters: received by a sensor that is
-- between two lines, it sets the occupancy to it, whatever the buffer held before.
pub receive-frame :
    (name pad : Bytes) (v : ℕ) (after rest : Bytes) (occupancy : ℕ) {s : Sensor}
    → Refines s (record { seen = []; occupancy = occupancy })
    → let frame =
        codes "$DFHPD" ++ (name ++ (b',' ∷ ((pad ++ ((b'0' + v) ∷ after)) ++ (b',' ∷ rest)))) in
      Lacks 0 frame
      → Lacks 10 frame
      → length frame < 63
      → Lacks b',' name
      → Lacks b',' (pad ++ ((b'0' + v) ∷ after))
      → All (λ c. (c ≢ b'0') × (c ≢ b'1')) pad
      → v < 2
      → read_occupancy (receive ((frame ++ (13 ∷ [])) ++ 10 ∷ []) s) ≡ v
unfolding read_occupancy
receive-frame name pad v after rest occupancy {s} r zero one short hn hd hp hv =
    let field = pad ++ ((b'0' + v) ∷ after) in
    let front = codes "$DFHPD" ++ name in
    let frame = codes "$DFHPD" ++ (name ++ (b',' ∷ (field ++ (b',' ∷ rest)))) in
    let line = frame ++ (13 ∷ []) in
    let no_end : Lacks 10 line = All-append _ frame (13 ∷ []) one ((λ e. ground (arith, e)), tt) in
    let read = read_all-line line [] occupancy no_end in
    let is_frame =
      starts_with-append (codes "$DFHPD") (name ++ (b',' ∷ (field ++ (b',' ∷ rest)))) in
    let value =
      parse_sensor_string-frame front pad v after rest occupancy
        (All-append _ (codes "$DFHPD") name (lacks-Lacks b',' (codes "$DFHPD") refl) hn) hd hp hv in
    (receive-Refines (line ++ 10 ∷ []) r).same
    ∙ ap (λ (x : Reader). x.occupancy) read
    ∙ read_frame frame occupancy v (line_text-cr frame zero short) is_frame value
