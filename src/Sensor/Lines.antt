-- ===== src/Sensor/Lines.antt =====
-- The receive buffer against a reader of whole lines, which has no buffer and no index.
use gik_view.Prelude.{
  ℕ, ◌+◌, ◌-◌, ◌≤◌, ◌<◌, ◌≡◌, refl, ap, sym, ◌∙◌, Bool, true, false, ◌&&◌, [], ◌∷◌, ◌++◌, Bytes,
  codes, length, get_or, set, take, arith, ltb, ◌==◌, if◌then◌else◌, Bool-cases, inl, inr, ltb→lt,
  length-snoc, length-take, length-set, take-set, take-set-suc, get_or-take, take-take,
  take-append_le, take_all, replicate,
}
use native.Mathlib.Numerals.{add-one}
use gik_view.CString.{starts_with, c_string}
use gik_view.CString.Laws.{c_string-set}
use gik_view.Sensor.{
  rx_buf_size, Sensor, parse_sensor_string, end_line, store_char, receive_char, receive,
}

-- The line that is being received, and the occupancy.
pub record Reader : Type 0 where
  pub seen : Bytes
  pub occupancy : ℕ

-- One carriage return at the end of a line is dropped.
abbrev pub chomp : Bytes → Bytes
chomp line =
    if ltb 0 (length line) && get_or line (length line - 1) 0 == 13
    then take (length line - 1) line
    else line

-- A line counts up to its 63rd character, and up to its first NUL.
abbrev pub line_text : Bytes → Bytes
line_text line = c_string (chomp (take 63 line))

unfoldable pub read_char : ℕ → Reader → Reader
read_char c r =
    if c == 10
    then record {
      seen = [];
      occupancy =
          if starts_with (codes "$DFHPD") (line_text r.seen)
          then parse_sensor_string (line_text r.seen) r.occupancy
          else r.occupancy;
    }
    else record r { seen = r.seen ++ (c ∷ []) }

unfoldable pub read_all : Bytes → Reader → Reader
read_all [] r = r
read_all (c ∷ cs) r = read_all cs (read_char c r)

-- The buffer holds what the line has so far, cut off at 63 characters. What stands behind the
-- index, from lines before, does not matter.
pub record Refines (s : Sensor) (r : Reader) : Type 0 where
  pub size : length s.rx_buffer ≡ rx_buf_size
  pub index : s.rx_index ≤ 63
  pub line : take s.rx_index s.rx_buffer ≡ take 63 r.seen
  pub grows : (s.rx_index < 63) → s.rx_index ≡ length r.seen
  pub full : (s.rx_index ≡ 63) → 63 ≤ length r.seen
  pub same : s.current_occupancy ≡ r.occupancy

module _ {s : Sensor} {r : Reader} (v : Refines s r) where
  open s use {rx_buffer, rx_index}

  line_length : length (take 63 r.seen) ≡ rx_index
  line_length = omega (arith, ap length v.line, length-take {0} rx_index rx_buffer, v.size)

  abbrev closed : Bytes
  closed = set rx_buffer rx_index 0

  closed_line : take rx_index closed ≡ take 63 r.seen
  closed_line = take-set rx_buffer rx_index 0 ∙ v.line

  whole_text : c_string closed ≡ c_string (take 63 r.seen)
  whole_text = c_string-set rx_buffer rx_index (omega (arith, v.size, v.index)) ∙ ap c_string v.line

  last_char :
      0 < rx_index → get_or closed (rx_index - 1) 0 ≡ get_or (take 63 r.seen) (rx_index - 1) 0
  last_char h =
      sym (get_or-take rx_index (rx_index - 1) closed 0 (omega arith))
      ∙ ap (λ (t : Bytes). get_or t (rx_index - 1) 0) closed_line

  short_text :
      0 < rx_index
      → c_string (set closed (rx_index - 1) 0) ≡ c_string (take (rx_index - 1) (take 63 r.seen))
  short_text h =
      c_string-set closed (rx_index - 1)
        (omega (arith, length-set {0} rx_buffer rx_index 0, v.size, v.index))
      ∙ ap c_string (
          sym (take-take (rx_index - 1) rx_index closed (omega arith))
          ∙ ap (take (rx_index - 1)) closed_line)

  -- The string in the buffer when a line ends is the text of the line.
  buffer_text :
      c_string (
        if ltb 0 rx_index && get_or closed (rx_index - 1) 0 == 13
        then set closed (rx_index - 1) 0
        else closed)
      ≡ line_text r.seen
  buffer_text = rw line_length (elim (Bool-cases (ltb 0 rx_index)) [
    | inr e ↦ rw e whole_text
    | inl e ↦
        rw (e, last_char (ltb→lt 0 rx_index e))
          (by_last (get_or (take 63 r.seen) (rx_index - 1) 0 == 13) (ltb→lt 0 rx_index e))
  ])
    where
      by_last :
          (b : Bool)
          → 0 < rx_index
          → c_string (if b then set closed (rx_index - 1) 0 else closed)
            ≡ c_string (if b then take (rx_index - 1) (take 63 r.seen) else take 63 r.seen)
      by_last true h = short_text h
      by_last false h = whole_text

  length-buffer :
      length (
        if ltb 0 rx_index && get_or closed (rx_index - 1) 0 == 13
        then set closed (rx_index - 1) 0
        else closed)
      ≡ rx_buf_size
  length-buffer =
      ground (arith, v.size, length-set rx_buffer rx_index 0, length-set closed (rx_index - 1) 0)

  end_line-Refines : Refines (end_line s) (read_char 10 r)
  unfolding end_line read_char
  end_line-Refines = record {
    size = length-buffer;
    index = omega arith;
    line = refl;
    grows = λ _. refl;
    full = λ e. absurd (omega arith);
    same = rw (buffer_text, v.same);
  }

  store_char-Refines : (c : ℕ) → Refines (store_char c s) (record r { seen = r.seen ++ (c ∷ []) })
  unfolding store_char
  store_char-Refines c = elim (Bool-cases (ltb rx_index 63)) [
    | inl e ↦ rw e (stored (ltb→lt rx_index 63 e))
    | inr e ↦ rw e (dropped (ground arith))
  ]
    where
      stored :
          rx_index < 63
          → Refines
              (record s { rx_buffer = set rx_buffer rx_index c; rx_index = rx_index + 1 })
              (record r { seen = r.seen ++ (c ∷ []) })
      stored h = record {
        size = length-set rx_buffer rx_index c ∙ v.size;
        index = omega arith;
        line = rw add-one (
            take-set-suc rx_buffer rx_index c (omega (arith, v.size))
            ∙ rw (v.line, take_all 63 r.seen (omega (arith, v.grows h)))
                (sym (
                  take_all 63 (r.seen ++ (c ∷ []))
                    (omega (arith, v.grows h, length-snoc {0} r.seen c)))));
        grows = λ _. omega (arith, v.grows h, length-snoc {0} r.seen c);
        full = λ last. omega (arith, v.grows h, length-snoc {0} r.seen c);
        same = v.same;
      }

      dropped : rx_index ≡ 63 → Refines s (record r { seen = r.seen ++ (c ∷ []) })
      dropped e = record {
        size = v.size;
        index = v.index;
        line = v.line ∙ sym (take-append_le 63 r.seen (c ∷ []) (v.full e));
        grows = λ h. absurd (omega arith);
        full = λ _. omega (arith, v.full e, length-snoc {0} r.seen c);
        same = v.same;
      }

receive_char-Refines :
    (c : ℕ) {s : Sensor} {r : Reader} → Refines s r → Refines (receive_char c s) (read_char c r)
unfolding receive_char read_char
receive_char-Refines c {s} {r} v = elim (Bool-cases (c == 10)) [
  | inl e ↦ rw e (unfold read_char in end_line-Refines v)
  | inr e ↦ rw e (store_char-Refines v c)
]

-- From a state that stands for the reader's, on every stream of characters, NULs and overlong lines
-- included, the static buffer gives the occupancy that a reader of whole lines gives: no line is
-- read through what an earlier one left behind, and the index stays below the buffer's size.
pub receive-Refines :
    (cs : Bytes) {s : Sensor} {r : Reader} → Refines s r → Refines (receive cs s) (read_all cs r)
unfolding receive read_all
receive-Refines [] v = v
receive-Refines (c ∷ cs) v = receive-Refines cs (receive_char-Refines c v)

-- At power-on nothing is received yet and the buffer is zero.
abbrev pub power_on : Sensor
power_on = record { current_occupancy = 0; rx_buffer = replicate 64 0; rx_index = 0 }

pub power_on-Refines : Refines power_on (record { seen = []; occupancy = 0 })
unfolding power_on
power_on-Refines = record {
  size = refl;
  index = omega arith;
  line = refl;
  grows = λ _. refl;
  full = λ e. absurd (omega arith);
  same = refl;
}
