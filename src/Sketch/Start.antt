-- ===== src/Sketch/Start.antt =====
-- `setup` of end/arduino/arduino.ino up to the choice of the mode: the file store, the access point
-- and the wait for the time. The seed of the random numbers and the delays before a restart are
-- left out.
use gik_view.Prelude.{
  ℕ, zero, suc, ◌+◌, Bool, true, false, not, Option, none, some, List, Bytes, ltb, if◌then◌else◌,
}
use gik_view.Prelude.Bits.{elapsed}
use gik_view.Sensor.{Uart, provision_sensor}
use gik_view.Fs.{LittleFs}
use gik_view.Wifi.{Endpoint, Radio, wifi_connect_best}
use gik_view.Wifi.Blacklist.{Store}
use gik_view.Wifi.Order.{Network}
use gik_view.Boot.{Mode, bootstrap, renew, operational, fail, decide_mode}
use gik_view.Provision.{Device}
use gik_view.Mqtt.{Session, Net}
use gik_view.Sketch.{SetupEnd, restart, running, run_mode}

-- One look at `time(nullptr)` and then at `millis()`.
pub record Look : Type 0 where
  pub seconds : ℕ
  pub ms : ℕ

abbrev pub synced_from : ℕ
synced_from = 1700000000

-- The wait for the time, which looks every 500 ms: whether it was synchronized, or 60 s have
-- passed, which restarts the device. `none` is a wait that has not come to its end in so many
-- rounds.
unfoldable pub wait_ntp : ℕ → (ℕ → Look) → ℕ → ℕ → Option Bool
wait_ntp zero looks k t0 = none
wait_ntp (suc rounds) looks k t0 = elim (ltb (looks k).seconds synced_from) [
  | false ↦ some true
  | true ↦ elim (ltb 60000 (elapsed (looks k).ms t0)) [
    | true ↦ some false
    | false ↦ wait_ntp rounds looks (k + 1) t0
  ]
]

-- What `setup` meets: the networks, the looks at the time from
-- `t0` on, the time that decides the mode, and the network of the session.
pub record Surroundings : Type 0 where
  pub radio : Radio
  pub scan : List Network
  pub t0 : ℕ
  pub looks : ℕ → Look
  pub boot_time : ℕ
  pub net : Net

module _ (d : Device) (fs : LittleFs) (u : Uart) (endpoints : List Endpoint) (ssid override : Bytes)
    (m3 m4 m5 rounds : ℕ) where
  -- The sensor is configured in the mode BOOTSTRAP only, before the certificate is requested.
  unfoldable pub configure : Mode → u.Port → Option u.Port
  unfolding provision_sensor
  configure bootstrap p = provision_sensor u rounds p
  configure renew p = some p
  configure operational p = some p
  configure fail p = some p

  unfoldable pub enter : Surroundings → Mode → fs.Files → Session → u.Port → Option (SetupEnd fs)
  unfolding configure run_mode
  enter w m f s p = elim (configure m p) [
    | none ↦ none
    | some q ↦ some (run_mode d fs endpoints override m3 m4 m5 w.net m f s)
  ]

  unfoldable pub with_time :
      Surroundings → Option Bool → fs.Files → Session → u.Port → Option (SetupEnd fs)
  unfolding enter decide_mode
  with_time w none f s p = none
  with_time w (some false) f s p = some (restart f)
  with_time w (some true) f s p = enter w (decide_mode fs w.boot_time f) f s p

  unfoldable pub with_access_point :
      Surroundings → Option Network → fs.Files → Session → u.Port → Option (SetupEnd fs)
  unfolding with_time wait_ntp
  with_access_point w none f s p = some (restart f)
  with_access_point w (some ap) f s p = with_time w (wait_ntp rounds w.looks 0 w.t0) f s p

  -- `mounted` is whether the file store could be mounted. The result has what the choice of the
  -- access point leaves in RTC memory.
  unfoldable pub setup :
      Bool → Surroundings → Store → fs.Files → Session → u.Port → Option (SetupEnd fs × Store)
  unfolding with_access_point wifi_connect_best
  setup mounted w store f s p =
      let best = wifi_connect_best w.radio endpoints ssid w.scan store in
      if not mounted
      then some (running f s, store)
      else elim (with_access_point w best.0 f s p) [ none ↦ none | some end ↦ some (end, best.1) ]
