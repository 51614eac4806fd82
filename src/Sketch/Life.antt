-- ===== src/Sketch/Life.antt =====
-- The whole program: `setup`, and `loop` over and over.
use gik_view.Prelude.{
  ℕ, ◌+◌, ◌<◌, ◌≡◌, refl, Bool, false, Option, none, some, List, [], ◌∷◌, Bytes, length,
}
use gik_view.Sensor.{Uart}
use gik_view.Sensor.Lines.{power_on}
use gik_view.Sensor.Command.{IsUart}
use gik_view.Fs.{LittleFs}
use gik_view.Wifi.{Endpoint}
use gik_view.Wifi.Blacklist.{Store}
use gik_view.Wifi.Order.{Network}
use gik_view.Provision.{Device}
use gik_view.Mqtt.{Session}
use gik_view.Mqtt.Alive.{IsAlive}
use gik_view.Sketch.{
  SetupEnd, restart, running, crashed, State, Inputs, LoopEnd, undefined, restarted, next, loop,
}
use gik_view.Sketch.Start.{Surroundings, setup}
use gik_view.Sketch.Setup.{
  Moves, Ends, unmounted, out_of_reach, untimed, in_mode, IsSoundEnd, restarts, runs, setup-Ends,
}
use gik_view.Sketch.Loop.{IsSound, at_restart, at_next, loop-IsSound}

-- The static variables of the session at power-on.
abbrev pub unset : Session
unset = record {
  ca_list = none;
  dev_chain_list = none;
  dev_key_object = none;
  cn = [];
  last_reconn = 0;
  current_ep = 0;
  connected = false;
}

unset-IsAlive : (count : ℕ) → 0 < count → IsAlive count unset
unset-IsAlive count h = record { in_table = h; objects = λ e. absurd (e refl); named = λ e. cc }

module _ (d : Device) (fs : LittleFs) (u : Uart) (endpoints : List Endpoint) (ssid override : Bytes)
    (m3 m4 m5 rounds : ℕ) where
  -- As many iterations of `loop` as there are inputs, up to a restart. Each has the device's
  -- answers at that time: those of the key generator, the signer, the server and the clock.
  unfoldable pub loops : List (Device × Inputs) → State fs → LoopEnd fs
  unfolding loop
  loops [] s = next s none
  loops ((at, i) ∷ is) s = elim (loop at fs endpoints override m3 m4 m5 i s) [
    | undefined ↦ undefined
    | restarted f ↦ restarted f
    | next s' sent ↦ loops is s'
  ]

  -- `loop` starts with the variables as they are at power-on, but for the session and the files.
  unfoldable pub main_loop : List (Device × Inputs) → SetupEnd fs → LoopEnd fs
  unfolding loops power_on
  main_loop inputs crashed = undefined
  main_loop inputs (restart f) = restarted f
  main_loop inputs (running f s) = loops inputs (record {
    sensor = power_on;
    session = s;
    files = f;
    last_pub = 0;
    last_chk = 0;
    mqtt_down_since = 0;
  })

  unfoldable pub run :
      Bool → Surroundings → Store → fs.Files → u.Port → List (Device × Inputs) → Option (LoopEnd fs)
  unfolding setup main_loop
  run mounted w store f p inputs =
      elim (setup d fs u endpoints ssid override m3 m4 m5 rounds mounted w store f unset p) [
        | none ↦ none
        | some r ↦ some (main_loop inputs r.0)
      ]

  abbrev Sound : LoopEnd fs → Type 0
  Sound = IsSound fs endpoints

  loops-IsSound :
      (inputs : List (Device × Inputs)) (s : State fs)
      → IsAlive (length endpoints) s.session
      → Sound (loops inputs s)
  unfolding loops
  loops-IsSound [] s v = at_next s none v
  loops-IsSound ((at, i) ∷ is) s v =
      by_end (loop-IsSound at fs endpoints override m3 m4 m5 i s v) (λ s' h. loops-IsSound is s' h)
    where
      by_end :
          {e : LoopEnd fs}
          → Sound e
          → ((s' : State fs) → IsAlive (length endpoints) s'.session → Sound (loops is s'))
          → Sound (elim e [
            | undefined ↦ undefined
            | restarted f ↦ restarted f
            | next s' sent ↦ loops is s'
          ])
      by_end (at_restart f) go = at_restart f
      by_end (at_next s' sent h) go = go s' h

  main_loop-IsSound :
      (inputs : List (Device × Inputs)) {e : SetupEnd fs}
      → IsSoundEnd d fs u endpoints ssid override m3 m4 m5 rounds e
      → Sound (main_loop inputs e)
  unfolding main_loop
  main_loop-IsSound inputs (restarts g) = at_restart g
  main_loop-IsSound inputs (runs g t v) = loops-IsSound inputs _ v

  module _ (sent : u.Port → Bytes) (left time : u.Port → ℕ) (laws : IsUart u sent left time) where
    Ends-IsSound :
        (mounted : Bool) (w : Surroundings) (best : Option Network) (f : fs.Files)
        (inputs : List (Device × Inputs)) {e : SetupEnd fs}
        → 0 < length endpoints
        → Ends d fs u endpoints ssid override m3 m4 m5 rounds mounted w best f unset e
        → Sound (main_loop inputs e)
    Ends-IsSound mounted w best f inputs h (unmounted e) =
        main_loop-IsSound inputs (runs f unset (unset-IsAlive (length endpoints) h))
    Ends-IsSound mounted w best f inputs h (out_of_reach e) = main_loop-IsSound inputs (restarts f)
    Ends-IsSound mounted w best f inputs h (untimed j l) = main_loop-IsSound inputs (restarts f)
    Ends-IsSound mounted w best f inputs h (in_mode j l sound) = main_loop-IsSound inputs sound

    pub run-IsSound :
        (mounted : Bool) (w : Surroundings) (store : Store) (f : fs.Files) (p : u.Port)
        (inputs : List (Device × Inputs))
        → 0 < length endpoints
        → Moves w.looks w.t0
        → left p < 1000000
        → left p + 5000 < rounds
        → (e : LoopEnd fs) × (run mounted w store f p inputs ≡ some e) × Sound e
    unfolding run
    run-IsSound mounted w store f p inputs h m few l =
        let (r, eq, ends) =
          setup-Ends d fs u endpoints ssid override m3 m4 m5 rounds sent left time laws mounted w
            store f unset p (unset-IsAlive (length endpoints) h) m few l in
        rw (run, eq) (main_loop inputs r.0, refl, Ends-IsSound mounted w _ f inputs h ends)
