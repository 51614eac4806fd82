-- ===== src/Sketch/Setup.antt =====
-- `setup` comes to an end.
use gik_view.Prelude.{
  ℕ, zero, suc, ◌+◌, ◌*◌, ◌<◌, ◌≤◌, ◌≡◌, refl, ap, Bool, true, false, Option, none, some, List,
  Bytes, length, ltb, ltb→lt, ltb→le, arith, Bool-cases, inl, inr,
}
use gik_view.Prelude.Bits.{elapsed}
use gik_view.Sensor.{Uart}
use gik_view.Sensor.Command.{IsUart, provision_sensor-sent}
use gik_view.Fs.{LittleFs}
use gik_view.Wifi.{Endpoint, wifi_connect_best}
use gik_view.Wifi.Blacklist.{Store}
use gik_view.Wifi.Order.{Network}
use gik_view.Boot.{Mode, bootstrap, renew, operational, fail, decide_mode}
use gik_view.Provision.{Device, provision_cert}
use gik_view.Mqtt.{Session, Net}
use gik_view.Mqtt.Alive.{IsAlive, step-Runs, set_up, step}
use gik_view.Sketch.{SetupEnd, restart, running, running_with, run_mode}
use gik_view.Sketch.Start.{
  Look, synced_from, wait_ntp, Surroundings, configure, enter, with_time, with_access_point, setup,
}

-- The wait ends with a time that is synchronized, or when 60 s have passed.
pub data WaitEnd (looks : ℕ → Look) (t0 : ℕ) : Option Bool → Type 0 where
  at_time : (j : ℕ) → synced_from ≤ (looks j).seconds → WaitEnd looks t0 (some true)
  timed_out : (j : ℕ) → 60000 < elapsed (looks j).ms t0 → WaitEnd looks t0 (some false)

-- The clock moves on by 500 ms or more from look to look, as far as it matters.
abbrev pub Moves : (ℕ → Look) → ℕ → Type 0
Moves looks t0 = (j : ℕ) → j ≤ 121 → 500 * j ≤ elapsed (looks j).ms t0

wait_ntp_lem :
    (looks : ℕ → Look) (t0 rounds k : ℕ)
    → Moves looks t0
    → k ≤ 121
    → 121 < rounds + k
    → WaitEnd looks t0 (wait_ntp rounds looks k t0)
unfolding wait_ntp
wait_ntp_lem looks t0 zero k m h l = absurd (omega arith)
wait_ntp_lem looks t0 (suc rounds) k m h l = elim (Bool-cases (ltb (looks k).seconds synced_from)) [
  | inr e ↦ rw (e, wait_ntp) (at_time k (ltb→le _ _ e))
  | inl e ↦ elim (Bool-cases (ltb 60000 (elapsed (looks k).ms t0))) [
    | inl late ↦ rw (e, late, wait_ntp) (timed_out k (ltb→lt _ _ late))
    | inr early ↦
        rw (e, early, wait_ntp)
          (wait_ntp_lem looks t0 rounds (k + 1) m (omega (arith, m k h, ltb→le _ _ early))
            (omega arith))
  ]
]

module _ (d : Device) (fs : LittleFs) (u : Uart) (endpoints : List Endpoint) (ssid override : Bytes)
    (m3 m4 m5 rounds : ℕ) where
  -- A restart, or a session that is alive.
  pub data IsSoundEnd : SetupEnd fs → Type 0 where
    restarts : (g : fs.Files) → IsSoundEnd (restart g)
    runs : (g : fs.Files) (t : Session) → IsAlive (length endpoints) t → IsSoundEnd (running g t)

  -- How `setup` can end, where `best` is the access point: with the file store not mounted; with a
  -- restart that leaves the files, without an access point or without the time for 60 s; or, with a
  -- time that is synchronized, in the mode that the files decide.
  pub data Ends (mounted : Bool) (w : Surroundings) (best : Option Network) (f : fs.Files)
      (s : Session) : SetupEnd fs → Type 0 where
    unmounted : mounted ≡ false → Ends mounted w best f s (running f s)
    out_of_reach : best ≡ none → Ends mounted w best f s (restart f)
    untimed : (j : ℕ) → 60000 < elapsed (w.looks j).ms w.t0 → Ends mounted w best f s (restart f)
    in_mode :
        (j : ℕ)
        → synced_from ≤ (w.looks j).seconds
        → IsSoundEnd
            (run_mode d fs endpoints override m3 m4 m5 w.net (decide_mode fs w.boot_time f) f s)
        → Ends mounted w best f s
            (run_mode d fs endpoints override m3 m4 m5 w.net (decide_mode fs w.boot_time f) f s)

  run_mode-IsSoundEnd :
      (net : Net) (m : Mode) (f : fs.Files) (s : Session)
      → IsAlive (length endpoints) s
      → IsSoundEnd (run_mode d fs endpoints override m3 m4 m5 net m f s)
  unfolding run_mode running_with gik_view.Sketch.set_up step
  run_mode-IsSoundEnd net bootstrap f s v = restarts (provision_cert d fs false f).1
  run_mode-IsSoundEnd net renew f s v =
      let g = (provision_cert d fs true f).1 in
      let (t, e, w) = step-Runs endpoints fs override m3 m4 m5 net (set_up g) s v in
      rw (e, running_with) (runs g t w)
  run_mode-IsSoundEnd net operational f s v =
      let (t, e, w) = step-Runs endpoints fs override m3 m4 m5 net (set_up f) s v in
      rw (e, running_with) (runs f t w)
  run_mode-IsSoundEnd net fail f s v = runs f s v

  module _ (sent : u.Port → Bytes) (left time : u.Port → ℕ) (laws : IsUart u sent left time) where
    configured :
        (m : Mode) (p : u.Port)
        → left p < 1000000
        → left p + 5000 < rounds
        → (q : u.Port) × (configure d fs u endpoints ssid override m3 m4 m5 rounds m p ≡ some q)
    unfolding configure
    configured bootstrap p few l =
        let (q, e, _) = provision_sensor-sent u sent left time laws rounds p few l in (q, e)
    configured renew p few l = (p, refl)
    configured operational p few l = (p, refl)
    configured fail p few l = (p, refl)

    entered :
        (w : Surroundings) (m : Mode) (f : fs.Files) (s : Session) (p : u.Port)
        → left p < 1000000
        → left p + 5000 < rounds
        → enter d fs u endpoints ssid override m3 m4 m5 rounds w m f s p
          ≡ some (run_mode d fs endpoints override m3 m4 m5 w.net m f s)
    unfolding enter
    entered w m f s p few l = let (q, e) = configured m p few l in rw (enter, e) refl

    with_time-Ends :
        (mounted : Bool) (w : Surroundings) (best : Option Network) (f : fs.Files) (s : Session)
        (p : u.Port) {b : Option Bool}
        → IsAlive (length endpoints) s
        → WaitEnd w.looks w.t0 b
        → left p < 1000000
        → left p + 5000 < rounds
        → (e : SetupEnd fs) × (with_time d fs u endpoints ssid override m3 m4 m5 rounds w b f s p
            ≡ some e)
          × Ends mounted w best f s e
    unfolding with_time
    with_time-Ends mounted w best f s p v (timed_out j h) few l = (restart f, refl, untimed j h)
    with_time-Ends mounted w best f s p v (at_time j h) few l =
        let mode = decide_mode fs w.boot_time f in
        (
          run_mode d fs endpoints override m3 m4 m5 w.net mode f s,
          entered w mode f s p few l,
          in_mode j h (run_mode-IsSoundEnd w.net mode f s v),
        )

    with_access_point-Ends :
        (mounted : Bool) (w : Surroundings) (best : Option Network) (f : fs.Files) (s : Session)
        (p : u.Port)
        → IsAlive (length endpoints) s
        → Moves w.looks w.t0
        → left p < 1000000
        → left p + 5000 < rounds
        → (e : SetupEnd fs) × (with_access_point d fs u endpoints ssid override m3 m4 m5 rounds w
              best f s p
            ≡ some e)
          × Ends mounted w best f s e
    unfolding with_access_point
    with_access_point-Ends mounted w none f s p v m few l = (restart f, refl, out_of_reach refl)
    with_access_point-Ends mounted w (some ap) f s p v m few l =
        with_time-Ends mounted w (some ap) f s p v
          (wait_ntp_lem w.looks w.t0 rounds 0 m (omega arith) (omega arith)) few l

    -- In a device whose session is alive, whatever `setup` meets: if the clock moves on by 500 ms
    -- or more from look to look, and less than 1000000 characters can come from the sensor, `setup`
    -- comes to its end, in as many rounds as are given: with the file store not mounted, with a
    -- restart that leaves the files, if no access point was found or the time did not come in 60 s,
    -- or, with a time that is synchronized, in the mode that the files and the time decide. A
    -- session that it ends with is alive.
    pub setup-Ends :
        (mounted : Bool) (w : Surroundings) (store : Store) (f : fs.Files) (s : Session)
        (p : u.Port)
        → IsAlive (length endpoints) s
        → Moves w.looks w.t0
        → left p < 1000000
        → left p + 5000 < rounds
        → (r : SetupEnd fs × Store) × (setup d fs u endpoints ssid override m3 m4 m5 rounds mounted
              w store f s p
            ≡ some r)
          × Ends mounted w (wifi_connect_best w.radio endpoints ssid w.scan store).0 f s r.0
    unfolding setup
    setup-Ends false w store f s p v m few l = ((running f s, store), refl, unmounted refl)
    setup-Ends true w store f s p v m few l =
        let best = wifi_connect_best w.radio endpoints ssid w.scan store in
        let (r, h, ends) = with_access_point-Ends true w best.0 f s p v m few l in
        rw h ((r, best.1), refl, ends)
