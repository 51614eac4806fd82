-- ===== src/Sensor/Payload.antt =====
-- The payload against a reader of it.
use gik_view.Prelude.{
  ℕ, ◌+◌, ◌-◌, ◌^◌, ◌<◌, ◌≤◌, ◌≡◌, ◌≢◌, refl, ap, ◌∙◌, Bool, true, false, not, Option, some, none,
  [], ◌∷◌, ◌++◌, Bytes, codes, length, arith, ◌==◌, All, if◌then◌else◌, ◌>>=◌, require, take_all,
  length-append, Bool-cases, inl, inr,
}
use gik_view.Prelude.Int.{ℤ, pos, negsuc}
use gik_view.CString.Laws.{Lacks}
use gik_view.CString.Split.{split_at, expect, split_at-append}
use gik_view.Fs.{decimal, digits_value}
use gik_view.Fs.Expiry.{
  decimal-IsDigit, digits_value-decimal, decimal-shown, length-decimal, IsDigit,
}
use gik_view.Timestamp.{strftime, to_rfc3339_utc}
use gik_view.Timestamp.Reader.{read_rfc3339, read_rfc3339-to_rfc3339_utc}
use gik_view.Sensor.{Sensor, print_int, payload_text, build_sensor_payload, read_occupancy}

pub record Report : Type 0 where
  pub occupied : Bool
  pub time : ℕ
  pub bssid : Bytes
  pub rssi : ℤ

-- A number with its sign. There is no number `-0`.
read_int : Bytes → Option ℤ
read_int [] = none
read_int (c ∷ cs) =
    if c == b'-'
    then (if digits_value 0 cs == 0 then none else some (negsuc (digits_value 0 cs - 1)))
    else some (pos (digits_value 0 (c ∷ cs)))

read_bool : Bytes → Option (Bool × Bytes)
read_bool text = elim (expect (codes "true") text) [
  | some rest ↦ some (true, rest)
  | none ↦ expect (codes "false") text >>= λ rest. some (false, rest)
]

pub read_report : Bytes → Option Report
unfolding read_int read_bool split_at expect
read_report text = do
  text1 ← expect (codes "{\"occupied\":") text
  (occupied, text2) ← read_bool text1
  text3 ← expect (codes ",\"timestamp\":\"") text2
  (stamp, text4) ← split_at b'"' text3
  time ← read_rfc3339 stamp
  text5 ← expect (codes ",\"bssid\":\"") text4
  (bssid, text6) ← split_at b'"' text5
  text7 ← expect (codes ",\"rssi\":") text6
  (number, rest) ← split_at b'}' text7
  _ ← require (length rest == 0)
  rssi ← read_int number
  some (record { occupied = occupied; time = time; bssid = bssid; rssi = rssi })

digit_shown : (n : ℕ) → 48 + n ≢ b'"'
digit_shown n e = omega (arith, e)

mark_shown : (c : ℕ) → (c == b'"') ≡ false → c ≢ b'"'
mark_shown c h e = ground (arith, h, e)

stamp-Lacks : (t : ℕ) → Lacks b'"' (to_rfc3339_utc t)
unfolding to_rfc3339_utc strftime
stamp-Lacks t = (
  digit_shown _,
  (
    digit_shown _,
    (
      digit_shown _,
      (
        digit_shown _,
        (
          mark_shown b'-' refl,
          (
            digit_shown _,
            (
              digit_shown _,
              (
                mark_shown b'-' refl,
                (
                  digit_shown _,
                  (
                    digit_shown _,
                    (
                      mark_shown b'T' refl,
                      (
                        digit_shown _,
                        (
                          digit_shown _,
                          (
                            mark_shown b':' refl,
                            (
                              digit_shown _,
                              (
                                digit_shown _,
                                (
                                  mark_shown b':' refl,
                                  (digit_shown _, (digit_shown _, (mark_shown b'Z' refl, tt))),
                                ),
                              ),
                            ),
                          ),
                        ),
                      ),
                    ),
                  ),
                ),
              ),
            ),
          ),
        ),
      ),
    ),
  ),
)

digits-Lacks_brace : (cs : Bytes) → All IsDigit cs → Lacks b'}' cs
digits-Lacks_brace [] h = tt
digits-Lacks_brace (c ∷ cs) (hc, h) = ((λ e. ground (arith, hc, e)), digits-Lacks_brace cs h)

-- An int of 32 bits.
abbrev pub IsInt : ℤ → Type 0
IsInt (pos n) = n < 2 ^ 31
IsInt (negsuc n) = n < 2 ^ 31

print_int-Lacks : (z : ℤ) → Lacks b'}' (print_int z)
unfolding print_int
print_int-Lacks (pos n) = digits-Lacks_brace (decimal 10 n) (decimal-IsDigit 10 n)
print_int-Lacks (negsuc n) =
    ((λ e. ground (arith, e)), digits-Lacks_brace (decimal 10 (n + 1)) (decimal-IsDigit 10 (n + 1)))

length-print_int : (z : ℤ) → length (print_int z) ≤ 11
unfolding print_int
length-print_int (pos n) = omega (arith, length-decimal 10 n)
length-print_int (negsuc n) = omega (arith, length-decimal 10 (n + 1))

unsigned :
    (cs : Bytes)
    → All IsDigit cs
    → (length cs == 0) ≡ false
    → read_int cs ≡ some (pos (digits_value 0 cs))
unfolding read_int
unsigned [] h shown = absurd (ground (arith, shown))
unsigned (c ∷ cs) (hc, h) shown =
    let digit : (c == b'-') ≡ false = ground (arith, hc) in rw digit refl

read_int-print_int : (z : ℤ) → IsInt z → read_int (print_int z) ≡ some z
unfolding print_int read_int
read_int-print_int (pos n) l =
    unsigned (decimal 10 n) (decimal-IsDigit 10 n) (decimal-shown 9 n)
    ∙ ap (λ (x : ℕ). some (pos x)) (digits_value-decimal 10 n (omega arith))
read_int-print_int (negsuc n) l = rw (digits_value-decimal 10 (n + 1) (omega arith)) (ground arith)

read_bool-printed :
    (occupancy : ℕ) (rest : Bytes)
    → read_bool ((if occupancy == 0 then codes "false" else codes "true") ++ rest)
      ≡ some (not (occupancy == 0), rest)
unfolding read_bool expect
read_bool-printed occupancy rest = elim (Bool-cases (occupancy == 0)) [
  | inl e ↦ rw e refl
  | inr e ↦ rw e refl
]

read_report-payload_text :
    (occupancy time : ℕ) (bssid : Bytes) (rssi : ℤ)
    → time < 253402300800
    → Lacks b'"' bssid
    → IsInt rssi
    → read_report (payload_text occupancy (to_rfc3339_utc time) bssid rssi)
      ≡ some (record { occupied = not (occupancy == 0); time = time; bssid = bssid; rssi = rssi })
unfolding read_report payload_text expect
read_report-payload_text occupancy time bssid rssi l h i =
    let text7 = print_int rssi ++ codes "}" in
    let text6 = codes ",\"rssi\":" ++ text7 in
    let text5 = bssid ++ b'"' ∷ text6 in
    let text4 = codes ",\"bssid\":\"" ++ text5 in
    let text3 = to_rfc3339_utc time ++ b'"' ∷ text4 in
    let text2 = codes ",\"timestamp\":\"" ++ text3 in
    rw
      (
        read_bool-printed occupancy text2,
        ◌>>=◌,
        split_at-append b'"' (to_rfc3339_utc time) text4 (stamp-Lacks time),
        ◌>>=◌,
        read_rfc3339-to_rfc3339_utc time l,
        ◌>>=◌,
        split_at-append b'"' bssid text6 h,
        ◌>>=◌,
        split_at-append b'}' (print_int rssi) [] (print_int-Lacks rssi),
        ◌>>=◌,
        read_int-print_int rssi i,
        ◌>>=◌,
      )
      refl

length-stamp : (t : ℕ) → length (to_rfc3339_utc t) ≡ 20
unfolding to_rfc3339_utc strftime
length-stamp t = refl

length-payload_text :
    (occupancy time : ℕ) (bssid : Bytes) (rssi : ℤ)
    → length bssid ≤ 17
    → length (payload_text occupancy (to_rfc3339_utc time) bssid rssi) < 160
unfolding payload_text
length-payload_text occupancy time bssid rssi h =
    let text7 = print_int rssi ++ codes "}" in
    let text6 = codes "\",\"rssi\":" ++ text7 in
    let text4 = codes "\",\"bssid\":\"" ++ (bssid ++ text6) in
    let text2 = codes ",\"timestamp\":\"" ++ (to_rfc3339_utc time ++ text4) in
    let flag : length ((if occupancy == 0 then codes "false" else codes "true") ++ text2)
        ≤ 5 + length text2 =
      elim (Bool-cases (occupancy == 0)) [
        | inl e ↦ rw e (omega arith)
        | inr e ↦ rw e (omega arith)
      ] in
    omega (
      arith,
      flag,
      length-append {0} (to_rfc3339_utc time) text4,
      length-stamp time,
      length-append {0} bssid text6,
      length-append {0} (print_int rssi) (codes "}"),
      length-print_int rssi,
    )

-- For a time before the year 10000, an address of at most 17 characters without a quotation mark,
-- and a signal of 32 bits: the buffer of 160 bytes holds the whole text, and a reader of it gets
-- back whether the sensor reports presence, the time, the address and the signal.
pub read_report-build_sensor_payload :
    (time : ℕ) (bssid : Bytes) (rssi : ℤ) (s : Sensor)
    → time < 253402300800
    → length bssid ≤ 17
    → Lacks b'"' bssid
    → IsInt rssi
    → let r = build_sensor_payload 160 time bssid rssi s in
      (r.1 < 160)
      × (read_report r.0
          ≡ some (record {
            occupied = not (read_occupancy s == 0);
            time = time;
            bssid = bssid;
            rssi = rssi;
          }))
unfolding build_sensor_payload
read_report-build_sensor_payload time bssid rssi s l short h i =
    let text = payload_text (read_occupancy s) (to_rfc3339_utc time) bssid rssi in
    let fits = length-payload_text (read_occupancy s) time bssid rssi short in
    (
      fits,
      rw (take_all 159 text (omega (arith, fits)))
          (read_report-payload_text (read_occupancy s) time bssid rssi l h i),
    )
