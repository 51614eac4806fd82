-- ===== src/Sensor/Examples.antt =====
-- Runs of the sensor's reader, and its theorems at concrete inputs.
use gik_view.CString.Laws.{lacks-Lacks}
use gik_view.Prelude.{◌≡◌, refl, [], ◌++◌, codes, replicate, arith, some}
use gik_view.CString.{starts_with, strchr, c_string}
use gik_view.Sensor.{read_occupancy, parse_sensor_string, receive, Sensor, provision_sensor}
use gik_view.Sensor.Arrival.{receive-frame}
use gik_view.Sensor.Port.{Line, line_uart, line_uart-IsUart}
use gik_view.Sensor.Command.{provision_sensor-sent}
use gik_view.Sensor.Lines.{Refines, read_all, receive-Refines, power_on, power_on-Refines}

occupied : (receive (codes "$DFHPD,1, , , *\r\n") power_on).current_occupancy ≡ 1
unfolding receive power_on starts_with c_string parse_sensor_string strchr
occupied = refl

-- A frame behind 63 characters of noise is cut off with them.
overlong : (receive (replicate 63 b'x' ++ codes "$DFHPD,1,\n") power_on).current_occupancy ≡ 0
unfolding receive power_on starts_with c_string
overlong = refl

receive-Refines_example :
    Refines
      (receive (codes "Done\r\n$DFHPD,1,*") power_on)
      (read_all (codes "Done\r\n$DFHPD,1,*") (record { seen = []; occupancy = 0 }))
receive-Refines_example = receive-Refines (codes "Done\r\n$DFHPD,1,*") power_on-Refines

abbrev idle_line : Line
idle_line = record { written = []; now = 5000; waiting = 4 }

provision_sensor-sent_example :
    (q : Line) × (provision_sensor line_uart 6000 idle_line ≡ some q)
    × (q.written
        ≡ idle_line.written
          ++ codes
              "sensorStop\r\nsetSensitivity 2 3\r\nsetLatency 0.1 1.0\r\nsetRange 0.3 15.0\r\nsetTrigRange 15.0\r\nsaveConfig\r\nsensorStart\r\n")
provision_sensor-sent_example =
    provision_sensor-sent line_uart (λ p. p.written) (λ p. p.waiting) (λ p. p.now) line_uart-IsUart
      6000 idle_line (omega arith) (omega arith)

abbrev present_sensor : Sensor
present_sensor = record power_on { current_occupancy = 1 }

receive-frame_example : read_occupancy (receive (codes "$DFHPD,1, , , *\r\n") power_on) ≡ 1
receive-frame_example =
    receive-frame [] [] 1 [] (codes " , , *") 0 power_on-Refines
      (lacks-Lacks 0 (codes "$DFHPD,1, , , *") refl) (lacks-Lacks 10 (codes "$DFHPD,1, , , *") refl)
      (omega arith) tt (lacks-Lacks 44 (codes "1") refl) tt (omega arith)
