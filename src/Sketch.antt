-- ===== src/Sketch.antt =====
-- The sketch, end/arduino/arduino.ino: the modes of `setup` behind `decide_mode`, and an iteration
-- of `loop`, with its watchdog and its test for a renewal. The log and the final delay are left
-- out.
pub mod Watchdog
pub mod Renewal
pub mod Loop
pub mod Start
pub mod Setup
pub mod Life
pub mod Published
mod Examples
use gik_view.Prelude.{
  ℕ, zero, suc, ◌+◌, ◌-◌, ◌%◌, ◌^◌, Bool, true, false, ◌&&◌, ◌||◌, not, Option, none, some, List,
  Bytes, length, ltb, leb, ◌==◌, if◌then◌else◌,
}
use gik_view.Prelude.Bits.{elapsed}
use gik_view.Prelude.Int.{ℤ}
use gik_view.Sensor.{Sensor, update_sensor, build_sensor_payload}
use gik_view.Fs.{LittleFs, read_exp}
use gik_view.Boot.{Mode, bootstrap, renew, operational, fail, renew_before_sec}
use gik_view.Provision.{Device, provision_cert}
use gik_view.Wifi.{Endpoint}
use gik_view.Mqtt.{
  derive_cn, Session, Net, setup_operational, publish_occupancy, mqtt_session_loop,
  mqtt_session_teardown,
}

abbrev pub mqtt_down_reboot_ms : ℕ
mqtt_down_reboot_ms = 300000

-- What `setup` ends with: a restart, `loop` with the session as it is, or undefined behaviour.
pub data SetupEnd (fs : LittleFs) : Type 0 where
  restart : fs.Files → SetupEnd fs
  running : fs.Files → Session → SetupEnd fs
  crashed : SetupEnd fs

-- With the session that `setup_operational` leaves, if it is defined.
unfoldable pub running_with : (fs : LittleFs) → fs.Files → Option Session → SetupEnd fs
running_with fs f none = crashed
running_with fs f (some t) = running f t

module _ (d : Device) (fs : LittleFs) (endpoints : List Endpoint) (override : Bytes)
    (m3 m4 m5 : ℕ) where
  -- `derive_cn` in `setup_operational`.
  unfoldable pub set_up : Net → fs.Files → Session → Option Session
  set_up net f s = elim (setup_operational net endpoints fs f (derive_cn override m3 m4 m5) s) [
    | none ↦ none
    | some r ↦ some r.1
  ]

  -- The switch of `setup`. RENEW falls through to OPERATIONAL, whether it succeeded or not.
  unfoldable pub run_mode : Net → Mode → fs.Files → Session → SetupEnd fs
  unfolding set_up running_with
  run_mode net bootstrap f s = restart (provision_cert d fs false f).1
  run_mode net renew f s =
      let g = (provision_cert d fs true f).1 in running_with fs g (set_up net g s)
  run_mode net operational f s = running_with fs f (set_up net f s)
  run_mode net fail f s = running f s

-- The watchdog, from the time, `mqtt_session_connected()` and whether a name is set, on
-- `mqtt_down_since`. `none` is a restart. The time 0 is noted as 1, since 0 means that the link is
-- up.
unfoldable pub watchdog : ℕ → Bool → Bool → ℕ → Option ℕ
watchdog now_ms connected named since =
    if connected
    then some 0
    else if not named
    then some since
    else if since == 0
    then some (if now_ms == 0 then 1 else now_ms)
    else if ltb mqtt_down_reboot_ms ((now_ms + 2 ^ 32 - since) % 2 ^ 32)
    then none
    else some since

-- `(long) (exp - time(nullptr)) <= (long) RENEW_BEFORE_SEC`, for a connected session and a saved
-- expiry. The difference is reduced to the 32 bits of a long, in two's complement.
unfoldable pub renew_due : Bool → ℕ → ℕ → Bool
renew_due connected exp now =
    let until = (exp + 2 ^ 64 - now) % 2 ^ 32 in
    connected && (not (exp == 0) && (leb until renew_before_sec || leb (2 ^ 31) until))

abbrev pub publish_interval_ms : ℕ
publish_interval_ms = 5000

abbrev pub renew_check_intv_ms : ℕ
renew_check_intv_ms = 3600000

-- What an iteration of `loop` meets: the clock, at its start and in `mqtt_session_loop`; a
-- character from the console and the characters from the sensor; whether a link that was up still
-- is, at the four places that ask for it (the watchdog, `mqtt_session_loop`, `publish_occupancy`
-- and the test for a renewal); the time, in the payload and in that test; the network; and the
-- address and the signal of the access point.
pub record Inputs : Type 0 where
  pub now_ms : ℕ
  pub session_ms : ℕ
  pub console : Option ℕ
  pub available : Bytes
  pub link : Bool
  pub loop_link : Bool
  pub publish_link : Bool
  pub renew_link : Bool
  pub time : ℕ
  pub renew_time : ℕ
  pub net : Net
  pub bssid : Bytes
  pub rssi : ℤ

module _ (fs : LittleFs) where
  -- The variables of the firmware that an iteration changes.
  pub record State : Type 0 where
    pub sensor : Sensor
    pub session : Session
    pub files : fs.Files
    pub last_pub : ℕ
    pub last_chk : ℕ
    pub mqtt_down_since : ℕ

  -- The end of an iteration: undefined behaviour, a restart, or the state and what was published.
  pub data LoopEnd : Type 0 where
    undefined : LoopEnd
    restarted : fs.Files → LoopEnd
    next : State → Option (Bytes × Bytes) → LoopEnd

  -- The topic and the payload of a publication, for the buffer of 160 bytes.
  unfoldable pub published : Inputs → State → Option (Bytes × Bytes)
  unfolding publish_occupancy build_sensor_payload
  published i s =
      publish_occupancy (build_sensor_payload 160 i.time i.bssid i.rssi s.sensor).0 s.session

-- A look at the link of a session.
unfoldable pub with_link : Bool → Session → Session
with_link true s = s
with_link false s = record s { connected = false }

module _ (d : Device) (fs : LittleFs) (endpoints : List Endpoint) (override : Bytes)
    (m3 m4 m5 : ℕ) where
  unfoldable pub resumed : Option (Bytes × Bytes) → State fs → Option Session → LoopEnd fs
  resumed sent s none = undefined
  resumed sent s (some t) = next (record s { session = t }) sent

  -- Behind `provision_cert(true)`.
  unfoldable pub after_renewal :
      Net → Option (Bytes × Bytes) → State fs → Bool × fs.Files → LoopEnd fs
  unfolding resumed set_up
  after_renewal net sent s (true, g) = restarted g
  after_renewal net sent s (false, g) =
      resumed sent (record s { files = g })
        (set_up d fs endpoints override m3 m4 m5 net g s.session)

  -- Behind the watchdog and the session's loop, with what was published.
  unfoldable pub check_renewal : Inputs → Option (Bytes × Bytes) → State fs → LoopEnd fs
  unfolding after_renewal renew_due with_link
  check_renewal i sent s =
      let session = with_link i.renew_link s.session in
      if ltb renew_check_intv_ms (elapsed i.now_ms s.last_chk)
      then if renew_due session.connected (read_exp fs s.files) i.renew_time
        then after_renewal i.net sent
            (record s { last_chk = i.now_ms; session = mqtt_session_teardown session })
            (provision_cert d fs true s.files)
        else next (record s { last_chk = i.now_ms; session = session }) sent
      else next s sent

  unfoldable pub publish : Inputs → State fs → LoopEnd fs
  unfolding check_renewal published with_link
  publish i s =
      let asked = record s { session = with_link i.publish_link s.session } in
      if ltb publish_interval_ms (elapsed i.now_ms s.last_pub)
      then check_renewal i (published fs i asked) (record asked { last_pub = i.now_ms })
      else check_renewal i none s

  unfoldable pub run_session : Inputs → State fs → LoopEnd fs
  unfolding publish with_link
  run_session i s =
      elim (mqtt_session_loop i.net endpoints i.session_ms (with_link i.loop_link s.session)) [
        | none ↦ undefined
        | some t ↦ publish i (record s { session = t })
      ]

  unfoldable pub loop : Inputs → State fs → LoopEnd fs
  unfolding watchdog run_session with_link
  loop i s =
      let session = with_link i.link s.session in
      elim (watchdog i.now_ms session.connected (not (length session.cn == 0)) s.mqtt_down_since) [
        | none ↦ restarted s.files
        | some since ↦ run_session i (record s {
          sensor = (update_sensor i.console i.available s.sensor).0;
          session = session;
          mqtt_down_since = since;
        })
      ]
