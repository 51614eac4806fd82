-- ===== src/Mqtt/Alive.antt =====
-- The objects that BearSSL keeps pointers to live as long as the session may use them.
use gik_view.Prelude.{
  ℕ, ◌+◌, ◌<◌, ◌≡◌, ◌≢◌, refl, ap, Bool, true, false, Option, none, some, List, [], ◌∷◌, Bytes,
  length, arith, Bool-cases, Option-cases, inl, inr,
}
use mathlib.Core.Path.{subst}
use native.Mathlib.Nat.{mod-lt}
use gik_view.Fs.{LittleFs, read_file, ca_cert, dev_cert, dev_chain, dev_key}
use gik_view.Wifi.{Endpoint}
use gik_view.Mqtt.{
  Session, Net, setup_operational, loaded, reconnect, mqtt_connect, idle, mqtt_session_loop,
  mqtt_session_teardown, derive_cn,
}
use gik_view.Mqtt.Setup.{
  Outcome, stopped, chosen, out_of_reach, setup_operational-Outcome, endpoint_at-some,
}

-- The current endpoint is in the table of `count` endpoints. While a name is set, the three objects
-- exist; while connected, a name is set.
pub record IsAlive (count : ℕ) (s : Session) : Type 0 where
  pub in_table : s.current_ep < count
  pub objects :
      s.cn ≢ [] → (s.ca_list ≢ none) × ((s.dev_chain_list ≢ none) × (s.dev_key_object ≢ none))
  pub named : s.connected ≡ true → s.cn ≢ []

-- What the program does between two moments: the broker's link may drop, the loop runs at a time,
-- the session is set up from the files, or is torn down.
pub data Event (fs : LittleFs) : Type 0 where
  dropped : Event fs
  looped : ℕ → Event fs
  set_up : fs.Files → Event fs
  torn_down : Event fs

derive_cn-shown : (override : Bytes) (m3 m4 m5 : ℕ) → derive_cn override m3 m4 m5 ≢ []
unfolding derive_cn
derive_cn-shown [] m3 m4 m5 = λ e. cc
derive_cn-shown (c ∷ override) m3 m4 m5 = λ e. cc

some-shown : (x : Bytes) → some x ≢ none
some-shown x = λ e. cc

idle-shown : (now : ℕ) (s : Session) → idle now s ≡ false → s.cn ≢ []
unfolding idle
idle-shown now s e = λ h. ground (arith, ap (λ (t : Bytes). length t) h)

loaded-IsAlive :
    (count : ℕ) (ca cert chain key cn : Bytes) (s : Session)
    → s.current_ep < count
    → cn ≢ []
    → IsAlive count (loaded ca cert chain key cn s)
loaded-IsAlive count ca cert chain key cn s h shown = record {
  in_table = h;
  objects = λ _. (some-shown _, (some-shown _, some-shown _));
  named = λ e. cc;
}

module _ (endpoints : List Endpoint) (fs : LittleFs) (override : Bytes) (m3 m4 m5 : ℕ) where
  abbrev cn : Bytes
  cn = derive_cn override m3 m4 m5

  -- An event under a network. `none` is undefined behaviour.
  unfoldable pub step : Net → Event fs → Session → Option Session
  unfolding setup_operational mqtt_session_loop mqtt_session_teardown
  step net dropped s = some (record s { connected = false })
  step net (looped now) s = mqtt_session_loop net endpoints now s
  step net (set_up f) s = elim (setup_operational net endpoints fs f cn s) [
    | none ↦ none
    | some r ↦ some r.1
  ]
  step net torn_down s = some (mqtt_session_teardown s)

  pub data Reachable (s0 : Session) : Session → Type 0 where
    start : Reachable s0 s0
    next :
        (s s' : Session) (net : Net) (e : Event fs)
        → Reachable s0 s
        → step net e s ≡ some s'
        → Reachable s0 s'

  setup-IsAlive :
      (f : fs.Files) (s : Session) {r : Bool × Session} {b : Bool} {net : Net}
      → IsAlive (length endpoints) s
      → Outcome net endpoints s
          (loaded
            (read_file fs ca_cert f)
            (read_file fs dev_cert f)
            (read_file fs dev_chain f)
            (read_file fs dev_key f)
            cn
            s)
          b
          r
      → IsAlive (length endpoints) r.1
  setup-IsAlive f s v (stopped m) = record {
    in_table = v.in_table;
    objects = v.objects;
    named = λ e. cc;
  }
  setup-IsAlive f s v (chosen i m h e below) = record {
    in_table = mod-lt (s.current_ep + i) (omega arith);
    objects = λ _. (some-shown _, (some-shown _, some-shown _));
    named = λ e. derive_cn-shown override m3 m4 m5;
  }
  setup-IsAlive f s v (out_of_reach m all) =
      loaded-IsAlive (length endpoints) (read_file fs ca_cert f) (read_file fs dev_cert f)
        (read_file fs dev_chain f) (read_file fs dev_key f) cn s v.in_table
        (derive_cn-shown override m3 m4 m5)

  reconnect-IsAlive :
      (net : Net) (e : Endpoint) (s : Session)
      → IsAlive (length endpoints) s
      → s.cn ≢ []
      → IsAlive (length endpoints) (reconnect net endpoints e s)
  unfolding reconnect
  reconnect-IsAlive net e s v shown = elim (Option-cases (net.from_string e.ip)) [
    | inl n ↦ rw (n, reconnect) v
    | inr (ip, h) ↦ elim (Bool-cases (mqtt_connect net ip e.port s)) [
      | inl c ↦
          rw (h, c, reconnect)
            (record { in_table = v.in_table; objects = v.objects; named = λ _. shown })
      | inr c ↦
          rw (h, c, reconnect)
            (record {
              in_table = mod-lt (s.current_ep + 1) (omega (arith, v.in_table));
              objects = v.objects;
              named = λ e. cc;
            })
    ]
  ]

  abbrev pub Runs : Option Session → Type 0
  Runs r = (s : Session) × (r ≡ some s) × IsAlive (length endpoints) s

  loop-Runs :
      (net : Net) (now : ℕ) (s : Session)
      → IsAlive (length endpoints) s
      → Runs (mqtt_session_loop net endpoints now s)
  unfolding mqtt_session_loop
  loop-Runs net now s v = elim (Bool-cases (idle now s)) [
    | inl e ↦ rw e (s, refl, v)
    | inr e ↦
        let (ep, h) = endpoint_at-some endpoints s.current_ep v.in_table in
        rw (e, mqtt_session_loop, h)
          (
            reconnect net endpoints ep (record s { last_reconn = now }),
            refl,
            reconnect-IsAlive net ep (record s { last_reconn = now })
                (record { in_table = v.in_table; objects = v.objects; named = v.named })
                (idle-shown now s e),
          )
  ]

  pub step-Runs :
      (net : Net) (e : Event fs) (s : Session) → IsAlive (length endpoints) s → Runs (step net e s)
  unfolding step mqtt_session_teardown
  step-Runs net dropped s v =
      (_, refl, record { in_table = v.in_table; objects = v.objects; named = λ e. cc })
  step-Runs net (looped now) s v = loop-Runs net now s v
  step-Runs net (set_up f) s v =
      let (r, e, o) = setup_operational-Outcome net endpoints fs f cn s v.in_table in
      rw (step, e) (r.1, refl, setup-IsAlive f s v o)
  step-Runs net torn_down s v =
      (_, refl, record { in_table = v.in_table; objects = λ e. absurd (e refl); named = λ e. cc })

  pub stepped :
      (net : Net) (e : Event fs) (s s' : Session)
      → IsAlive (length endpoints) s
      → step net e s ≡ some s'
      → IsAlive (length endpoints) s'
  stepped net e s s' v h =
      let (t, eq, w) = step-Runs net e s v in
      let same : t ≡ s' = cc in subst (λ x. IsAlive (length endpoints) x) same w

  all-IsAlive :
      (s0 s : Session)
      → IsAlive (length endpoints) s0
      → Reachable s0 s
      → IsAlive (length endpoints) s
  all-IsAlive s0 s v start = v
  all-IsAlive s0 s' v (next s _ net e r h) = stepped net e s s' (all-IsAlive s0 s v r) h

  -- From every session in which they hold, whatever events come in whatever order and on whatever
  -- networks and files: the current endpoint is in the table, the objects exist while a name is
  -- set, and a name is set while connected. No set-up and no loop call reads the table behind its
  -- end.
  pub Reachable-IsAlive :
      (s0 s : Session)
      → IsAlive (length endpoints) s0
      → Reachable s0 s
      → IsAlive (length endpoints) s
        × ((net : Net) (e : Event fs) → (s' : Session) × (step net e s ≡ some s'))
  Reachable-IsAlive s0 s v r =
      let w = all-IsAlive s0 s v r in (w, λ net e. let (t, eq, _) = step-Runs net e s w in (t, eq))
