-- ===== src/Sensor.antt =====
-- The presence sensor, end/arduino/sensor.cpp: the receive buffer, the parser of `$DFHPD` frames,
-- and the current occupancy. Reports on the serial console are left out.
pub mod Frame
pub mod Lines
pub mod Arrival
pub mod Payload
pub mod Command
pub mod Port
mod Examples
use gik_view.Prelude.{
  ℕ, zero, suc, ◌+◌, ◌-◌, ◌<◌, Bool, true, false, ◌&&◌, not, Option, none, some, List, [], ◌∷◌,
  ◌++◌, Bytes, codes, length, get_or, set, take, drop, ltb, ◌==◌, if◌then◌else◌, ◌>>=◌,
}
use gik_view.Prelude.Bits.{elapsed}
use gik_view.Prelude.Int.{ℤ, pos, negsuc}
use gik_view.Fs.{decimal}
use gik_view.Timestamp.{to_rfc3339_utc}
use gik_view.CString.{starts_with, strchr, c_string}

abbrev pub rx_buf_size : ℕ
rx_buf_size = 64

-- The static variables. `current_occupancy` is 0 or 1.
pub record Sensor : Type 0 where
  pub current_occupancy : ℕ
  pub rx_buffer : Bytes
  pub rx_index : ℕ

-- The loop between the two commas; `none` is the start value -1.
unfoldable pub scan_value : Bytes → Option ℕ
scan_value [] = none
scan_value (c ∷ cs) = if c == b'1' then some 1 else if c == b'0' then some 0 else scan_value cs

-- The text between the first two commas.
unfoldable pub between_commas : Bytes → Option Bytes
between_commas text = do
  first ← strchr b',' text
  second ← strchr b',' (drop 1 first)
  some (take (length (drop 1 first) - length second) (drop 1 first))

abbrev pub or_else : Option ℕ → ℕ → ℕ
or_else none old = old
or_else (some new) old = new

-- The occupancy after a frame: an equal value and no value both leave it.
unfoldable pub parse_sensor_string : Bytes → ℕ → ℕ
unfolding scan_value between_commas
parse_sensor_string text current_occupancy =
    or_else (between_commas text >>= scan_value) current_occupancy

-- A line end: the NUL, the `\r` in front of it, the test for a frame, and the reset of the index.
unfoldable pub end_line : Sensor → Sensor
end_line s =
    let closed = set s.rx_buffer s.rx_index 0 in
    let buffer =
      if ltb 0 s.rx_index && get_or closed (s.rx_index - 1) 0 == 13
      then set closed (s.rx_index - 1) 0
      else closed in
    record {
      current_occupancy =
          if starts_with (codes "$DFHPD") (c_string buffer)
          then parse_sensor_string (c_string buffer) s.current_occupancy
          else s.current_occupancy;
      rx_buffer = buffer;
      rx_index = 0;
    }

-- Any other character is stored, as long as the last place stays free for the NUL.
unfoldable pub store_char : ℕ → Sensor → Sensor
store_char c s =
    if ltb s.rx_index (rx_buf_size - 1)
    then record s { rx_buffer = set s.rx_buffer s.rx_index c; rx_index = s.rx_index + 1 }
    else s

unfoldable pub receive_char : ℕ → Sensor → Sensor
unfolding end_line store_char
receive_char c s = if c == 10 then end_line s else store_char c s

-- `while (sensorSerial.available() > 0)`, over the characters that are there.
unfoldable pub receive : Bytes → Sensor → Sensor
unfolding receive_char
receive [] s = s
receive (c ∷ cs) s = receive cs (receive_char c s)

-- One console character is passed on to the sensor. The result has what was written to it.
unfoldable pub update_sensor : Option ℕ → Bytes → Sensor → Sensor × Bytes
unfolding receive
update_sensor none available s = (receive available s, [])
update_sensor (some c) available s = (receive available s, c ∷ [])

unfoldable pub read_occupancy : Sensor → ℕ
read_occupancy s = s.current_occupancy

-- `%d`
unfoldable pub print_int : ℤ → Bytes
unfolding decimal
print_int (pos n) = decimal 10 n
print_int (negsuc n) = b'-' ∷ decimal 10 (n + 1)

-- The text that `build_sensor_payload` prints.
unfoldable pub payload_text : ℕ → Bytes → Bytes → ℤ → Bytes
unfolding print_int
payload_text occupancy ts bssid rssi =
    codes "{\"occupied\":"
    ++ ((if occupancy == 0 then codes "false" else codes "true")
        ++ (codes ",\"timestamp\":\""
            ++ (ts
                ++ (codes "\",\"bssid\":\""
                    ++ (bssid ++ (codes "\",\"rssi\":" ++ (print_int rssi ++ codes "}")))))))

-- `snprintf`: what the buffer holds then, up to the NUL, and the length of the whole text. The
-- time, the address of the access point and its signal are inputs.
unfoldable pub build_sensor_payload : ℕ → ℕ → Bytes → ℤ → Sensor → Bytes × ℕ
unfolding payload_text to_rfc3339_utc read_occupancy
build_sensor_payload out_size time bssid rssi s =
    let text = payload_text (read_occupancy s) (to_rfc3339_utc time) bssid rssi in
    (take (out_size - 1) text, length text)

-- The serial port of the sensor, with the clock.
pub record Uart : Type 1 where
  pub Port : Type 0
  pub print : Bytes → Port → Port
  pub available : Port → Bool
  pub read : Port → ℕ × Port
  pub pause : ℕ → Port → Port
  pub millis : Port → ℕ

-- The commands of `provision_sensor`, each with its wait in ms, and the values of config.h.
abbrev pub sensor_keep_sens : Bytes
sensor_keep_sens = codes "2"

abbrev pub sensor_trig_sens : Bytes
sensor_trig_sens = codes "3"

abbrev pub sensor_latency_on : Bytes
sensor_latency_on = codes "0.1"

abbrev pub sensor_latency_off : Bytes
sensor_latency_off = codes "1.0"

abbrev pub sensor_range_min : Bytes
sensor_range_min = codes "0.3"

abbrev pub sensor_range_max : Bytes
sensor_range_max = codes "15.0"

abbrev pub sensor_trig_range : Bytes
sensor_trig_range = codes "15.0"

unfoldable pub provision_commands : List (Bytes × ℕ)
provision_commands =
    (codes "sensorStop", 1200)
    ∷ (codes "setSensitivity " ++ (sensor_keep_sens ++ (32 ∷ sensor_trig_sens)), 300)
    ∷ (codes "setLatency " ++ (sensor_latency_on ++ (32 ∷ sensor_latency_off)), 300)
    ∷ (codes "setRange " ++ (sensor_range_min ++ (32 ∷ sensor_range_max)), 300)
    ∷ (codes "setTrigRange " ++ sensor_trig_range, 300)
    ∷ (codes "saveConfig", 500)
    ∷ (codes "sensorStart", 300)
    ∷ []

-- The loops run for at most `rounds` rounds; `none` is a loop that has not come to its end by then.
-- What the sensor answers is only echoed on the console.
module _ (u : Uart) where
  unfoldable pub echo : ℕ → u.Port → Option u.Port
  echo zero p = none
  echo (suc rounds) p = elim (u.available p) [ false ↦ some p | true ↦ echo rounds (u.read p).1 ]

  unfoldable pub echo_for : ℕ → ℕ → ℕ → u.Port → Option u.Port
  unfolding echo
  echo_for zero t0 wait_ms p = none
  echo_for (suc rounds) t0 wait_ms p = elim (ltb (elapsed (u.millis p) t0) wait_ms) [
    | false ↦ some p
    | true ↦ elim (echo rounds p) [
      | none ↦ none
      | some q ↦ echo_for rounds t0 wait_ms (u.pause 2 q)
    ]
  ]

  unfoldable pub send_sensor_cmd : ℕ → Bytes → ℕ → u.Port → Option u.Port
  unfolding echo_for
  send_sensor_cmd rounds cmd wait_ms p =
      let sent = u.print (codes "\r\n") (u.print cmd p) in
      echo_for rounds (u.millis sent) wait_ms sent

  unfoldable pub send_all : ℕ → List (Bytes × ℕ) → u.Port → Option u.Port
  unfolding send_sensor_cmd
  send_all rounds [] p = some p
  send_all rounds (c ∷ cs) p = elim (send_sensor_cmd rounds c.0 c.1 p) [
    | none ↦ none
    | some q ↦ send_all rounds cs q
  ]

  unfoldable pub provision_sensor : ℕ → u.Port → Option u.Port
  unfolding send_all provision_commands
  provision_sensor rounds p = send_all rounds provision_commands p
