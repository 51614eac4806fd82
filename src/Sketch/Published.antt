-- ===== src/Sketch/Published.antt =====
-- What `loop` publishes.
use gik_view.Prelude.{
  ℕ, ◌<◌, ◌≤◌, ◌≡◌, refl, Bool, true, false, not, ◌||◌, Option, none, some, List, Bytes, length,
  ◌==◌, ltb, ltb→lt, arith, Bool-cases, Option-cases, ◌⊎◌, inl, inr,
}
use gik_view.Prelude.Bits.{elapsed}
use gik_view.CString.Laws.{Lacks}
use gik_view.Sensor.{Sensor, update_sensor, read_occupancy, build_sensor_payload}
use gik_view.Sensor.Payload.{read_report, IsInt, read_report-build_sensor_payload}
use gik_view.Fs.{LittleFs, read_exp}
use gik_view.Wifi.{Endpoint}
use gik_view.Provision.{Device, provision_cert}
use gik_view.Mqtt.{Net, topic_of, publish_occupancy, mqtt_session_teardown, mqtt_session_loop}
use gik_view.Sketch.{
  State, Inputs, LoopEnd, undefined, restarted, next, watchdog, renew_due, after_renewal, resumed,
  set_up, check_renewal, published, publish, run_session, with_link, loop, renew_check_intv_ms,
  publish_interval_ms,
}

module _ (fs : LittleFs) where
  -- The test for a renewal keeps what was published, the sensor and the time of the publication.
  data Carries (sensor : Sensor) (last : ℕ) (sent : Option (Bytes × Bytes))
      : LoopEnd fs → Type 0 where
    at_undefined : Carries sensor last sent undefined
    at_restart : (f : fs.Files) → Carries sensor last sent (restarted f)
    at_next :
        (s : State fs)
        → s.sensor ≡ sensor
        → s.last_pub ≡ last
        → Carries sensor last sent (next s sent)

  -- The end of an iteration from `s`: if something was published, the last publication was more
  -- than 5 s ago, and a reader of the payload finds the occupancy of the sensor.
  pub data Reports (i : Inputs) (s : State fs) : LoopEnd fs → Type 0 where
    undefined_end : Reports i s undefined
    restart_end : (f : fs.Files) → Reports i s (restarted f)
    silent : (s' : State fs) → Reports i s (next s' none)
    reported :
        (s' : State fs) (cn payload : Bytes)
        → publish_interval_ms < elapsed i.now_ms s.last_pub
        → s'.last_pub ≡ i.now_ms
        → (length cn == 0) ≡ false
        → read_report payload
          ≡ some (record {
            occupied = not (read_occupancy s'.sensor == 0);
            time = i.time;
            bssid = i.bssid;
            rssi = i.rssi;
          })
        → Reports i s (next s' (some (topic_of cn, payload)))

-- Without a connection or a name nothing is published.
published_cases :
    (fs : LittleFs) (i : Inputs) (t : State fs)
    → (published fs i t ≡ none)
      ⊎ ((published fs i t
            ≡ some (
              topic_of t.session.cn,
              (build_sensor_payload 160 i.time i.bssid i.rssi t.sensor).0,
            ))
          × ((length t.session.cn == 0) ≡ false))
unfolding published publish_occupancy
published_cases fs i t = elim (Bool-cases (not t.session.connected || length t.session.cn == 0)) [
  | inl idle ↦ inl (rw idle refl)
  | inr up ↦ inr ((rw up refl), ground (arith, up))
]

module _ (d : Device) (fs : LittleFs) (endpoints : List Endpoint) (override : Bytes)
    (m3 m4 m5 : ℕ) where
  after-Carries :
      (net : Net) (sent : Option (Bytes × Bytes)) (s : State fs) (r : Bool × fs.Files)
      → Carries fs s.sensor s.last_pub sent
          (after_renewal d fs endpoints override m3 m4 m5 net sent s r)
  unfolding after_renewal resumed
  after-Carries net sent s (true, g) = at_restart g
  after-Carries net sent s (false, g) =
      elim (Option-cases (set_up d fs endpoints override m3 m4 m5 net g s.session)) [
        | inl n ↦ rw (n, resumed) at_undefined
        | inr (t, e) ↦ rw (e, resumed) (at_next _ refl refl)
      ]

  check-Carries :
      (i : Inputs) (sent : Option (Bytes × Bytes)) (s : State fs)
      → Carries fs s.sensor s.last_pub sent
          (check_renewal d fs endpoints override m3 m4 m5 i sent s)
  unfolding check_renewal
  check-Carries i sent s =
      let session = with_link i.renew_link s.session in
      elim (Bool-cases (ltb renew_check_intv_ms (elapsed i.now_ms s.last_chk))) [
        | inr e ↦ rw (e, check_renewal) (at_next s refl refl)
        | inl e ↦
            elim (Bool-cases (renew_due session.connected (read_exp fs s.files) i.renew_time)) [
              | inr h ↦
                  rw (e, check_renewal, h)
                    (at_next (record s { last_chk = i.now_ms; session = session }) refl refl)
              | inl h ↦
                  rw (e, check_renewal, h)
                    (after-Carries i.net sent
                      (record s { last_chk = i.now_ms; session = mqtt_session_teardown session })
                      (provision_cert d fs true s.files))
            ]
      ]

  quiet-Reports :
      (i : Inputs) (s : State fs) (sensor : Sensor) (last : ℕ) {e : LoopEnd fs}
      → Carries fs sensor last none e
      → Reports fs i s e
  quiet-Reports i s sensor last at_undefined = undefined_end
  quiet-Reports i s sensor last (at_restart f) = restart_end f
  quiet-Reports i s sensor last (at_next s' _ _) = silent s'

  module _ (i : Inputs) (time : i.time < 253402300800) (short : length i.bssid ≤ 17)
      (plain : Lacks b'"' i.bssid) (int : IsInt i.rssi) where
    sent-Reports :
        (s t : State fs) {e : LoopEnd fs}
        → publish_interval_ms < elapsed i.now_ms s.last_pub
        → (length t.session.cn == 0) ≡ false
        → Carries fs t.sensor i.now_ms
            (some
              (topic_of t.session.cn, (build_sensor_payload 160 i.time i.bssid i.rssi t.sensor).0))
            e
        → Reports fs i s e
    sent-Reports s t due named at_undefined = undefined_end
    sent-Reports s t due named (at_restart f) = restart_end f
    sent-Reports s t due named (at_next s' same last) = reported s' t.session.cn _ due last named (
        rw same
          (read_report-build_sensor_payload i.time i.bssid i.rssi t.sensor time short plain int).1)

    publish-Reports :
        (s t : State fs)
        → s.last_pub ≡ t.last_pub
        → Reports fs i s (publish d fs endpoints override m3 m4 m5 i t)
    unfolding publish
    publish-Reports s t same =
        elim (Bool-cases (ltb publish_interval_ms (elapsed i.now_ms t.last_pub))) [
          | inr e ↦ rw (e, publish) (quiet-Reports i s t.sensor t.last_pub (check-Carries i none t))
          | inl e ↦
              let asked : State fs = record t { session = with_link i.publish_link t.session } in
              let noted : State fs = record asked { last_pub = i.now_ms } in
              let due : publish_interval_ms < elapsed i.now_ms s.last_pub =
                rw same (ltb→lt _ _ e) in
              elim (published_cases fs i asked) [
                | inl h ↦
                    rw (e, publish, h)
                      (quiet-Reports i s t.sensor i.now_ms (check-Carries i none noted))
                | inr (h, named) ↦
                    rw (e, publish, h) (sent-Reports s asked due named (check-Carries i _ noted))
              ]
        ]

    -- For a time before the year 10000, an address of at most 17 characters without a quotation
    -- mark, and a signal of 32 bits, whatever else an iteration of `loop` meets: what it publishes
    -- comes more than 5 s after the last publication, under a name, and a reader of the payload
    -- finds in it the occupancy of the sensor, the time, the address and the signal.
    pub loop-Reports : (s : State fs) → Reports fs i s (loop d fs endpoints override m3 m4 m5 i s)
    unfolding loop run_session
    loop-Reports s =
        let session = with_link i.link s.session in
        elim (Option-cases
          (watchdog i.now_ms session.connected (not (length session.cn == 0)) s.mqtt_down_since)) [
            | inl e ↦ rw (e, loop) (restart_end s.files)
            | inr (since, e) ↦
                let t : State fs = record s {
                  sensor = (update_sensor i.console i.available s.sensor).0;
                  session = session;
                  mqtt_down_since = since;
                } in
                elim (Option-cases (
                  mqtt_session_loop i.net endpoints i.session_ms (with_link i.loop_link session))) [
                    | inl h ↦ rw (e, loop, run_session, h) undefined_end
                    | inr (next_session, h) ↦
                        rw (e, loop, run_session, h)
                          (publish-Reports s (record t { session = next_session }) refl)
                  ]
          ]
