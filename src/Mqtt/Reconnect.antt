-- ===== src/Mqtt/Reconnect.antt =====
-- Runs of `mqtt_session_loop` while the link is down: the rotation over the endpoints.
use gik_view.Prelude.Bits.{elapsed}
use gik_view.Prelude.{
  ℕ, zero, suc, ◌+◌, ◌-◌, ◌%◌, ◌≤◌, ◌<◌, ◌≡◌, refl, ap, ◌∙◌, Bool, true, false, Option, none, some,
  List, length, ◌==◌, if◌then◌else◌, arith, Bool-cases, inl, inr,
}
use native.Mathlib.Nat.{mod-lt, mod-add-mod, mod-eq_of_lt}
use gik_view.Wifi.{Endpoint}
use gik_view.Mqtt.{Session, Net, endpoint_at, idle, reconnect, mqtt_connect, mqtt_session_loop}
use gik_view.Mqtt.Setup.{endpoint_at-some}
use gik_view.Mqtt.Setup.{slot_of, slot-slot_of}

zero-sum : (n : ℕ) → n + 0 ≡ n
zero-sum n = omega arith

module _ (net : Net) (endpoints : List Endpoint) where
  -- `rounds` calls of the loop, at the times from the `i`-th on.
  unfoldable pub loop_runs : ℕ → (ℕ → ℕ) → ℕ → Session → Option Session
  unfolding mqtt_session_loop
  loop_runs zero times i s = some s
  loop_runs (suc rounds) times i s = elim (mqtt_session_loop net endpoints (times i) s) [
    | none ↦ none
    | some s' ↦ loop_runs rounds times (i + 1) s'
  ]

  -- The endpoint of that index accepts the session.
  unfoldable pub accepts : Session → ℕ → Bool
  unfolding endpoint_at
  accepts s idx = elim (endpoint_at endpoints idx) [
    | none ↦ false
    | some e ↦ elim (net.from_string e.ip) [ none ↦ false | some ip ↦ mqtt_connect net ip e.port s ]
  ]

  abbrev pub AllParse : Type 0
  AllParse =
      (idx : ℕ) (e : Endpoint)
      → endpoint_at endpoints idx ≡ some e
      → (ip : ℕ) × (net.from_string e.ip ≡ some ip)

  loop_connected :
      (now : ℕ) (s : Session) → s.connected ≡ true → mqtt_session_loop net endpoints now s ≡ some s
  unfolding mqtt_session_loop idle
  loop_connected now s on = rw on refl

  stays :
      (rounds : ℕ) (times : ℕ → ℕ) (i : ℕ) (s : Session)
      → s.connected ≡ true
      → loop_runs rounds times i s ≡ some s
  unfolding loop_runs
  stays zero times i s on = refl
  stays (suc rounds) times i s on =
      rw (loop_connected (times i) s on, loop_runs) (stays rounds times (i + 1) s on)

  awake :
      (now : ℕ) (s : Session)
      → s.connected ≡ false
      → (length s.cn == 0) ≡ false
      → 5000 ≤ elapsed now s.last_reconn
      → idle now s ≡ false
  unfolding idle
  awake now s off shown late = rw (off, shown) (ground arith)

  -- What one attempt makes of the session, if it fails.
  abbrev rotated : ℕ → Session → Session
  rotated now s = record s {
    last_reconn = now;
    connected = false;
    current_ep = (s.current_ep + 1) % length endpoints;
  }

  attempt :
      (now : ℕ) (s : Session)
      → AllParse
      → s.current_ep < length endpoints
      → idle now s ≡ false
      → mqtt_session_loop net endpoints now s ≡ (
          if accepts s s.current_ep
          then some (record s { last_reconn = now; connected = true })
          else some (rotated now s))
  unfolding mqtt_session_loop accepts reconnect
  attempt now s parse c e =
      let (ep, h) = endpoint_at-some endpoints s.current_ep c in
      let (ip, p) = parse s.current_ep ep h in
      elim (Bool-cases (mqtt_connect net ip ep.port s)) [
        | inl m ↦ rw (e, mqtt_session_loop, h, reconnect, p, accepts, m) refl
        | inr m ↦ rw (e, mqtt_session_loop, h, reconnect, p, accepts, m) refl
      ]

  module _ (times : ℕ → ℕ) (gaps : (i : ℕ) → 5000 ≤ elapsed (times (i + 1)) (times i))
      (parse : AllParse) (target : ℕ) where
    Connects : ℕ → ℕ → Session → Type 0
    Connects rounds i s =
        (s' : Session) × (loop_runs rounds times i s ≡ some s') × (s'.connected ≡ true)

    turns :
        (rounds d i : ℕ) (s : Session)
        → d < rounds
        → (s.current_ep + d) % length endpoints ≡ target
        → s.current_ep < length endpoints
        → accepts s target ≡ true
        → s.connected ≡ false
        → (length s.cn == 0) ≡ false
        → 5000 ≤ elapsed (times i) s.last_reconn
        → Connects rounds i s
    unfolding Connects loop_runs accepts
    turns zero d i s l e c a off shown late = absurd (omega arith)
    turns (suc rounds) d i s l e c a off shown late = elim (Bool-cases (accepts s s.current_ep)) [
      | inl on ↦
          rw (attempt (times i) s parse c (awake (times i) s off shown late), on, loop_runs)
            (
              record s { last_reconn = times i; connected = true },
              stays rounds times (i + 1) (record s { last_reconn = times i; connected = true })
                  refl,
              refl,
            )
      | inr down ↦
          rw (attempt (times i) s parse c (awake (times i) s off shown late), down, loop_runs)
            (turns rounds (d - 1) (i + 1) (rotated (times i) s) (further s d e c a down l).0
              (further s d e c a down l).1 (mod-lt (s.current_ep + 1) (omega arith)) a refl shown
              (gaps i))
    ]
      where
        further :
            (s : Session) (d : ℕ)
            → (s.current_ep + d) % length endpoints ≡ target
            → s.current_ep < length endpoints
            → accepts s target ≡ true
            → accepts s s.current_ep ≡ false
            → d < suc rounds
            → (d - 1 < rounds)
              × (((s.current_ep + 1) % length endpoints + (d - 1)) % length endpoints ≡ target)
        further s zero e c a down l = absurd (
            cc (
              a,
              down,
              e,
              mod-eq_of_lt {n = s.current_ep} {m = length endpoints} c,
              ap (λ t. t % length endpoints) (zero-sum s.current_ep),
            ))
        further s (suc d) e c a down l = (
          omega arith,
          mod-add-mod (s.current_ep + 1) (length endpoints) (suc d - 1)
              ∙ ap (λ t. t % length endpoints) (omega arith)
              ∙ e,
        )

    -- If every address of the table parses and one endpoint accepts the session, which has a name
    -- and is not connected, then as many calls of the loop as the table has entries, each 5 s or
    -- more behind the last, end connected, whichever endpoint was the current one. The 32-bit clock
    -- may wrap in between.
    pub mqtt_session_loop-reconnects :
        (s : Session)
        → s.current_ep < length endpoints
        → target < length endpoints
        → accepts s target ≡ true
        → s.connected ≡ false
        → (length s.cn == 0) ≡ false
        → 5000 ≤ elapsed (times 0) s.last_reconn
        → (s' : Session) × (loop_runs (length endpoints) times 0 s ≡ some s')
          × (s'.connected ≡ true)
    unfolding Connects
    mqtt_session_loop-reconnects s c t a off shown late =
        let (l, e) = slot-slot_of net endpoints s target c t in
        turns (length endpoints) (slot_of net endpoints s target) 0 s l e c a off shown late

  still :
      (now : ℕ) (s : Session) {e : Endpoint}
      → endpoint_at endpoints s.current_ep ≡ some e
      → net.from_string e.ip ≡ none
      → (r : Session) × (mqtt_session_loop net endpoints now s ≡ some r)
        × ((r.current_ep ≡ s.current_ep) × (r.connected ≡ s.connected))
  unfolding mqtt_session_loop reconnect
  still now s h p = elim (Bool-cases (idle now s)) [
    | inl e ↦ rw e (s, refl, (refl, refl))
    | inr e ↦
        rw (e, mqtt_session_loop, h, reconnect, p)
          (record s { last_reconn = now }, refl, (refl, refl))
  ]

  -- A slot whose address does not parse is never left: however often the loop runs, and whatever
  -- the other endpoints would accept, the session stays disconnected on it.
  pub mqtt_session_loop-stuck :
      (times : ℕ → ℕ) (e : Endpoint) (rounds i : ℕ) (s : Session)
      → endpoint_at endpoints s.current_ep ≡ some e
      → net.from_string e.ip ≡ none
      → s.connected ≡ false
      → (s' : Session) × (loop_runs rounds times i s ≡ some s')
        × ((s'.current_ep ≡ s.current_ep) × (s'.connected ≡ false))
  unfolding loop_runs
  mqtt_session_loop-stuck times e zero i s h p off = (s, refl, (refl, off))
  mqtt_session_loop-stuck times e (suc rounds) i s h p off =
      let (r, run, (same, down)) = still (times i) s h p in
      let (s', runs, (same', down')) =
        mqtt_session_loop-stuck times e rounds (i + 1) r (rw same h) p (down ∙ off) in
      rw (run, loop_runs) (s', runs, (same' ∙ same, down'))
