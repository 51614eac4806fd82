-- ===== src/Sketch/Loop.antt =====
-- `loop` as a whole keeps the session alive.
use gik_view.Prelude.{
  ℕ, refl, Bool, true, false, not, Option, none, List, Bytes, length, ◌==◌, ltb, Bool-cases,
  Option-cases, inl, inr,
}
use gik_view.Prelude.Bits.{elapsed}
use gik_view.Sensor.{update_sensor}
use gik_view.Fs.{LittleFs, read_exp}
use gik_view.Wifi.{Endpoint}
use gik_view.Provision.{Device, provision_cert}
use gik_view.Mqtt.{Session, Net, mqtt_session_teardown}
use gik_view.Mqtt.Alive.{IsAlive, looped, set_up, torn_down, step, stepped, step-Runs}
use gik_view.Sketch.{
  State, Inputs, LoopEnd, undefined, restarted, next, watchdog, renew_due, after_renewal, resumed,
  check_renewal, publish, run_session, with_link, loop, renew_check_intv_ms, publish_interval_ms,
}

-- The end of an iteration is defined, and if it is not a restart the session is alive.
pub data IsSound (fs : LittleFs) (endpoints : List Endpoint) : LoopEnd fs → Type 0 where
  at_restart : (f : fs.Files) → IsSound fs endpoints (restarted f)
  at_next :
      (s : State fs) (sent : Option (Bytes × Bytes))
      → IsAlive (length endpoints) s.session
      → IsSound fs endpoints (next s sent)

module _ (d : Device) (fs : LittleFs) (endpoints : List Endpoint) (override : Bytes)
    (m3 m4 m5 : ℕ) where
  after-IsSound :
      (net : Net) (sent : Option (Bytes × Bytes)) (s : State fs) (r : Bool × fs.Files)
      → IsAlive (length endpoints) s.session
      → IsSound fs endpoints (after_renewal d fs endpoints override m3 m4 m5 net sent s r)
  unfolding after_renewal resumed gik_view.Sketch.set_up step
  after-IsSound net sent s (true, g) v = at_restart g
  after-IsSound net sent s (false, g) v =
      let (t, e, w) = step-Runs endpoints fs override m3 m4 m5 net (set_up g) s.session v in
      rw (e, resumed) (at_next (record s { files = g; session = t }) sent w)

  linked :
      (link : Bool) (s : Session)
      → IsAlive (length endpoints) s
      → IsAlive (length endpoints) (with_link link s)
  unfolding with_link
  linked true s v = v
  linked false s v = record { in_table = v.in_table; objects = v.objects; named = λ e. cc }

  check-IsSound :
      (i : Inputs) (sent : Option (Bytes × Bytes)) (s : State fs)
      → IsAlive (length endpoints) s.session
      → IsSound fs endpoints (check_renewal d fs endpoints override m3 m4 m5 i sent s)
  unfolding check_renewal step
  check-IsSound i sent s v =
      let session = with_link i.renew_link s.session in
      let w = linked i.renew_link s.session v in
      elim (Bool-cases (ltb renew_check_intv_ms (elapsed i.now_ms s.last_chk))) [
        | inr e ↦ rw (e, check_renewal) (at_next s sent v)
        | inl e ↦
            elim (Bool-cases (renew_due session.connected (read_exp fs s.files) i.renew_time)) [
              | inr h ↦
                  rw (e, check_renewal, h)
                    (at_next (record s { last_chk = i.now_ms; session = session }) sent w)
              | inl h ↦
                  rw (e, check_renewal, h)
                    (after-IsSound i.net sent
                      (record s { last_chk = i.now_ms; session = mqtt_session_teardown session })
                      (provision_cert d fs true s.files)
                      (stepped endpoints fs override m3 m4 m5 i.net torn_down session _ w refl))
            ]
      ]

  publish-IsSound :
      (i : Inputs) (s : State fs)
      → IsAlive (length endpoints) s.session
      → IsSound fs endpoints (publish d fs endpoints override m3 m4 m5 i s)
  unfolding publish
  publish-IsSound i s v =
      elim (Bool-cases (ltb publish_interval_ms (elapsed i.now_ms s.last_pub))) [
        | inl e ↦
            rw (e, publish)
              (check-IsSound i _
                (record s { last_pub = i.now_ms; session = with_link i.publish_link s.session })
                (linked i.publish_link s.session v))
        | inr e ↦ rw (e, publish) (check-IsSound i none s v)
      ]

  run-IsSound :
      (i : Inputs) (s : State fs)
      → IsAlive (length endpoints) s.session
      → IsSound fs endpoints (run_session d fs endpoints override m3 m4 m5 i s)
  unfolding run_session step
  run-IsSound i s v =
      let (t, e, w) =
        step-Runs endpoints fs override m3 m4 m5 i.net (looped i.session_ms)
          (with_link i.loop_link s.session) (linked i.loop_link s.session v) in
      rw (e, run_session) (publish-IsSound i (record s { session = t }) w)

  -- Whatever an iteration of `loop` meets, and with a renewal or a restart in it: it has no
  -- undefined behaviour, and goes on, if it does not restart the device, with a session that is
  -- alive.
  pub loop-IsSound :
      (i : Inputs) (s : State fs)
      → IsAlive (length endpoints) s.session
      → IsSound fs endpoints (loop d fs endpoints override m3 m4 m5 i s)
  unfolding loop
  loop-IsSound i s v =
      let session = with_link i.link s.session in
      elim (Option-cases
        (watchdog i.now_ms session.connected (not (length session.cn == 0)) s.mqtt_down_since)) [
          | inl e ↦ rw (e, loop) (at_restart s.files)
          | inr (since, e) ↦
              rw (e, loop)
                (run-IsSound i
                  (record s {
                    sensor = (update_sensor i.console i.available s.sensor).0;
                    session = session;
                    mqtt_down_since = since;
                  })
                  (linked i.link s.session v))
        ]
