-- ===== src/Sensor/Command.antt =====
-- The configuration of the sensor: what is written to it, and that it comes to an end.
use gik_view.Prelude.{
  ℕ, zero, suc, ◌+◌, ◌%◌, ◌^◌, ◌-◌, ◌*◌, ◌<◌, ◌≤◌, ◌≡◌, refl, ap, sym, ◌∙◌, true, some, List, [],
  ◌∷◌, ◌++◌, Bytes, codes, arith, ltb, ltb→lt, All, append_assoc, append-nil, Bool-cases, inl, inr,
}
use gik_view.Prelude.Bits.{elapsed}
use gik_view.Sensor.{
  Uart, echo, echo_for, send_sensor_cmd, send_all, provision_commands, provision_sensor,
}

-- `sent` is what was written to the port so far, `left` bounds what can still come from it, and
-- `time` is the time in ms, of which the clock shows the lowest 32 bits. A delay takes its length
-- or more, but no second more, and reading takes less than a second.
pub record IsUart (u : Uart) (sent : u.Port → Bytes) (left time : u.Port → ℕ) : Type 0 where
  pub sent-print : (text : Bytes) (p : u.Port) → sent (u.print text p) ≡ sent p ++ text
  pub sent-read : (p : u.Port) → sent (u.read p).1 ≡ sent p
  pub sent-pause : (ms : ℕ) (p : u.Port) → sent (u.pause ms p) ≡ sent p
  pub left-print : (text : Bytes) (p : u.Port) → left (u.print text p) ≤ left p
  pub left-read : (p : u.Port) → u.available p ≡ true → left (u.read p).1 < left p
  pub left-pause : (ms : ℕ) (p : u.Port) → left (u.pause ms p) ≤ left p
  pub clock : (p : u.Port) → u.millis p ≡ time p % 2 ^ 32
  pub delayed :
      (ms : ℕ) (p : u.Port)
      → (time p + ms ≤ time (u.pause ms p)) × (time (u.pause ms p) ≤ time p + ms + 1000)
  pub reading : (p : u.Port) → (time p ≤ time (u.read p).1) × (time (u.read p).1 ≤ time p + 1000)

elapsed_exact : (a b : ℕ) → a ≤ b → b < a + 2 ^ 32 → elapsed (b % 2 ^ 32) (a % 2 ^ 32) ≡ b - a
elapsed_exact a b h l = omega arith

module _ (u : Uart) (sent : u.Port → Bytes) (left time : u.Port → ℕ)
    (laws : IsUart u sent left time) where
  -- At `q` nothing more was written than at `p`, and time has passed.
  record Behind (p q : u.Port) : Type 0 where
    written : sent q ≡ sent p
    fewer : left q ≤ left p
    later : time p ≤ time q
    soon : time q + 1000 * left q ≤ time p + 1000 * left p

  echo_lem :
      (rounds : ℕ) (p : u.Port)
      → left p < rounds
      → (q : u.Port) × (echo u rounds p ≡ some q) × Behind p q
  unfolding echo
  echo_lem zero p l = absurd (omega arith)
  echo_lem (suc rounds) p l = elim (Bool-cases (u.available p)) [
    | inr none_left ↦
        rw (none_left, echo)
          (
            p,
            refl,
            record { written = refl; fewer = omega arith; later = omega arith; soon = omega arith },
          )
    | inl ready ↦
        let drop = laws.left-read p ready in
        let (q, e, b) = echo_lem rounds (u.read p).1 (omega (arith, drop)) in
        rw (ready, echo)
          (
            q,
            e,
            record {
              written = b.written ∙ laws.sent-read p;
              fewer = omega (arith, b.fewer, drop);
              later = omega (arith, b.later, laws.reading p);
              soon = omega (arith, b.soon, laws.reading p, drop);
            },
          )
  ]

  -- The end of a wait that goes on from `p`.
  Waited : ℕ → ℕ → u.Port → u.Port → Type 0
  Waited rounds wait start p =
      (q : u.Port) × (echo_for u rounds (u.millis start) wait p ≡ some q)
      × (sent q ≡ sent p)
      × (left q ≤ left p)

  -- A round that reads up to `q`.
  one_round :
      (rounds wait : ℕ) (start p q : u.Port)
      → ltb (elapsed (u.millis p) (u.millis start)) wait ≡ true
      → echo u rounds p ≡ some q
      → Behind p q
      → Waited rounds wait start (u.pause 2 q)
      → Waited (suc rounds) wait start p
  unfolding Waited echo_for
  one_round rounds wait start p q under e b (r, e', same, less) =
      rw (under, echo_for, e)
        (
          r,
          e',
          same ∙ laws.sent-pause 2 q ∙ b.written,
          omega (arith, less, laws.left-pause 2 q, b.fewer),
        )

  echo_for_lem :
      (rounds wait : ℕ) (start p : u.Port)
      → time start ≤ time p
      → wait ≤ 5000
      → left p < 1000000
      → time p < time start + 2 ^ 31
      → left p + (time start + wait - time p) < rounds
      → Waited rounds wait start p
  unfolding Waited echo_for
  echo_for_lem zero wait start p h w few near l = absurd (omega arith)
  echo_for_lem (suc rounds) wait start p h w few near l =
      let exact : elapsed (u.millis p) (u.millis start) ≡ time p - time start =
        rw (laws.clock p, laws.clock start) (elapsed_exact (time start) (time p) h (omega arith)) in
      elim (Bool-cases (ltb (elapsed (u.millis p) (u.millis start)) wait)) [
        | inr over ↦ rw (over, echo_for) (p, refl, refl, omega arith)
        | inl under ↦
            let before = ltb→lt _ wait under in
            let (q, e, b) = echo_lem rounds p (omega (arith, before, exact)) in
            let pause = laws.delayed 2 q in
            let fewer = laws.left-pause 2 q in
            one_round rounds wait start p q under e b (
              echo_for_lem rounds wait start (u.pause 2 q) (omega (arith, pause, b.later)) w
                (omega (arith, fewer, b.fewer)) (omega (arith, pause, b.soon, before, exact))
                (omega (arith, pause, b.later, b.fewer, fewer, before, exact)))
      ]

  send_sensor_cmd_lem :
      (rounds wait : ℕ) (cmd : Bytes) (p : u.Port)
      → wait ≤ 5000
      → left p < 1000000
      → left p + wait < rounds
      → (q : u.Port) × (send_sensor_cmd u rounds cmd wait p ≡ some q)
        × (sent q ≡ sent p ++ (cmd ++ codes "\r\n"))
        × (left q ≤ left p)
  unfolding send_sensor_cmd Waited
  send_sensor_cmd_lem rounds wait cmd p w few l =
      let end : Bytes = codes "\r\n" in
      let a = u.print cmd p in
      let b = u.print end a in
      let fewer : left b ≤ left p = omega (arith, laws.left-print end a, laws.left-print cmd p) in
      let (q, e, same, less) =
        echo_for_lem rounds wait b b (omega arith) w (omega (arith, fewer)) (omega arith)
          (omega (arith, fewer)) in
      (
        q,
        e,
        same
            ∙ laws.sent-print end a
            ∙ ap (λ (x : Bytes). x ++ end) (laws.sent-print cmd p)
            ∙ append_assoc (sent p) cmd end,
        omega (arith, less, fewer),
      )

  -- The text of the commands, each on a line.
  commands_text : List (Bytes × ℕ) → Bytes
  commands_text [] = []
  commands_text (c ∷ cs) = (c.0 ++ codes "\r\n") ++ commands_text cs

  send_all_lem :
      (rounds : ℕ) (cs : List (Bytes × ℕ)) (p : u.Port)
      → All (λ (c : Bytes × ℕ). c.1 ≤ 5000) cs
      → left p < 1000000
      → left p + 5000 < rounds
      → (q : u.Port) × (send_all u rounds cs p ≡ some q) × (sent q ≡ sent p ++ commands_text cs)
  unfolding send_all commands_text
  send_all_lem rounds [] p w few l = (p, refl, sym (append-nil (sent p)))
  send_all_lem rounds (c ∷ cs) p (w, ws) few l =
      let (q, e, text, less) = send_sensor_cmd_lem rounds c.1 c.0 p w few (omega (arith, w)) in
      let (r, e', more) = send_all_lem rounds cs q ws (omega (arith, less)) (omega (arith, less)) in
      rw (e, send_all)
        (
          r,
          e',
          more
              ∙ ap (λ (x : Bytes). x ++ commands_text cs) text
              ∙ append_assoc (sent p) (c.0 ++ codes "\r\n") (commands_text cs),
        )

  -- If less than 1000000 characters can come from the sensor, the configuration comes to its end,
  -- in as many rounds as are given, and has written the seven commands to it, in their order.
  pub provision_sensor-sent :
      (rounds : ℕ) (p : u.Port)
      → left p < 1000000
      → left p + 5000 < rounds
      → (q : u.Port) × (provision_sensor u rounds p ≡ some q)
        × (sent q
            ≡ sent p
              ++ codes
                  "sensorStop\r\nsetSensitivity 2 3\r\nsetLatency 0.1 1.0\r\nsetRange 0.3 15.0\r\nsetTrigRange 15.0\r\nsaveConfig\r\nsensorStart\r\n")
  unfolding provision_sensor commands_text provision_commands
  provision_sensor-sent rounds p few l =
      send_all_lem rounds provision_commands p
        (
          omega arith,
          (
            omega arith,
            (omega arith, (omega arith, (omega arith, (omega arith, (omega arith, tt))))),
          ),
        )
        few l
