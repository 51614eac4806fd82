-- ===== src/Mqtt/Setup.antt =====
-- `setup_operational`: the round robin over the endpoints.
use gik_view.Prelude.{
  ℕ, zero, suc, ◌+◌, ◌-◌, ◌%◌, ◌≤◌, ◌<◌, ◌≡◌, refl, sym, ap, ◌∙◌, Bool, true, false, ◌&&◌, Option,
  none, some, List, [], ◌∷◌, Bytes, length, leb, ◌==◌, ==_iff, if◌then◌else◌, arith, Bool-cases,
  Option-cases, inl, inr,
}
use mathlib.Core.Path.{subst}
use native.Mathlib.Nat.{mod-eq_of_lt, add-mod_right, mod-lt}
use gik_view.Fs.{LittleFs, read_file, ca_cert, dev_cert, dev_chain, dev_key}
use gik_view.Wifi.{Endpoint}
use gik_view.Mqtt.{
  Session, Net, endpoint_at, mqtt_connect, try_endpoint, try_emqx_endpoint, round_robin, loaded,
  assets_missing, setup_operational,
}

pub endpoint_at-some :
    (endpoints : List Endpoint) (n : ℕ)
    → n < length endpoints
    → (e : Endpoint) × (endpoint_at endpoints n ≡ some e)
unfolding endpoint_at
endpoint_at-some [] n h = absurd (omega arith)
endpoint_at-some (e ∷ es) zero h = (e, refl)
endpoint_at-some (e ∷ es) (suc n) h = endpoint_at-some es n (omega arith)

-- The endpoint's address parses, TCP opens, and the session's name, chain and key are accepted.
unfoldable pub reaches_endpoint : Net → Session → Endpoint → Bool
reaches_endpoint net s e = elim (net.from_string e.ip) [
  | none ↦ false
  | some ip ↦ net.tcp ip e.port && mqtt_connect net ip e.port s
]

disconnected : (s : Session) → s.connected ≡ false → record s { connected = false } ≡ s
disconnected s e = ap (λ c. record s { connected = c }) (sym e)

try_endpoint-reaches :
    (net : Net) (e : Endpoint) (s : Session)
    → s.connected ≡ false
    → try_endpoint net e s
      ≡ (reaches_endpoint net s e, record s { connected = reaches_endpoint net s e })
unfolding try_endpoint reaches_endpoint
try_endpoint-reaches net e s off = elim (Option-cases (net.from_string e.ip)) [
  | inl n ↦ rw (n, try_endpoint, reaches_endpoint) (ap (λ t. (false, t)) (sym (disconnected s off)))
  | inr (ip, h) ↦ elim (Bool-cases (net.tcp ip e.port)) [
    | inl t ↦ rw (h, t, try_endpoint, reaches_endpoint) refl
    | inr t ↦
        rw (h, t, try_endpoint, reaches_endpoint) (ap (λ u. (false, u)) (sym (disconnected s off)))
  ]
]

module _ (net : Net) (endpoints : List Endpoint) where
  unfoldable pub reaches : Session → ℕ → Bool
  unfolding reaches_endpoint endpoint_at
  reaches s idx = elim (endpoint_at endpoints idx) [
    | none ↦ false
    | some e ↦ reaches_endpoint net s e
  ]

  try_emqx_endpoint-reaches :
      (idx : ℕ) (s : Session)
      → idx < length endpoints
      → s.connected ≡ false
      → try_emqx_endpoint net endpoints idx s
        ≡ some (reaches s idx, record s { connected = reaches s idx })
  unfolding try_emqx_endpoint reaches
  try_emqx_endpoint-reaches idx s l off =
      let (e, h) = endpoint_at-some endpoints idx l in
      rw (h, try_emqx_endpoint, reaches) (ap (λ u. some u) (try_endpoint-reaches net e s off))

  abbrev pub slot : Session → ℕ → ℕ
  slot s i = (s.current_ep + i) % length endpoints

  -- How rounds `first` to `last - 1` of the round robin may end: at the first slot that is reached,
  -- or with all of them out of reach.
  pub data Robin (s : Session) (first last : ℕ) : Bool × Session → Type 0 where
    picked :
        (i : ℕ)
        → first ≤ i
        → i < last
        → reaches s (slot s i) ≡ true
        → ((j : ℕ) → first ≤ j → j < i → reaches s (slot s j) ≡ false)
        → Robin s first last (true, record s { connected = true; current_ep = slot s i })
    none_left :
        ((j : ℕ) → first ≤ j → j < last → reaches s (slot s j) ≡ false)
        → Robin s first last (false, s)

  from_first :
      (s : Session) (first last : ℕ)
      → reaches s (slot s first) ≡ false
      → ((j : ℕ) → first + 1 ≤ j → j < last → reaches s (slot s j) ≡ false)
      → (j : ℕ) → first ≤ j
      → j < last
      → reaches s (slot s j) ≡ false
  from_first s first last e below j a b = elim (Bool-cases (j == first)) [
    | inl h ↦ rw ((==_iff j first).0 h) e
    | inr h ↦ below j (ground arith) b
  ]

  one_more :
      (s : Session) (first last : ℕ) {r : Bool × Session}
      → reaches s (slot s first) ≡ false
      → Robin s (first + 1) last r
      → Robin s first last r
  one_more s first last e (picked i a b h below) =
      picked i (omega arith) b h (from_first s first i e below)
  one_more s first last e (none_left all) = none_left (from_first s first last e all)

  -- The round robin comes to its end, without a read behind the end of the table.
  abbrev Turns : (s : Session) (first last : ℕ) → Option (Bool × Session) → Type 0
  Turns s first last r = (t : Bool × Session) × (r ≡ some t) × Robin s first last t

  -- One round, with the result of its attempt.
  robin_step : ℕ → ℕ → Session → Option (Bool × Session) → Option (Bool × Session)
  robin_step rounds i s result = elim result [
    | none ↦ none
    | some tried ↦ elim tried.0 [
      | true ↦ some (true, record tried.1 { current_ep = slot s i })
      | false ↦ round_robin net endpoints rounds (i + 1) tried.1
    ]
  ]

  round_robin-Robin :
      (rounds i : ℕ) (s : Session)
      → 0 < length endpoints
      → s.connected ≡ false
      → Turns s i (i + rounds) (round_robin net endpoints rounds i s)
  unfolding round_robin robin_step
  round_robin-Robin zero i s l off = ((false, s), refl, none_left (λ j a b. absurd (omega arith)))
  round_robin-Robin (suc rounds) i s l off =
      let tried = try_emqx_endpoint-reaches (slot s i) s (mod-lt (s.current_ep + i) l) off in
      elim (Bool-cases (reaches s (slot s i))) [
        | inl e ↦
            subst (λ t. Turns s i (i + suc rounds) (robin_step rounds i s t))
              (sym (tried ∙ ap (λ b. some (b, record s { connected = b })) e))
              (_, refl, picked i (omega arith) (omega arith) e (λ j a b. absurd (omega arith)))
        | inr e ↦
            let (t, eq, r) = round_robin-Robin rounds (i + 1) s l off in
            subst (λ t. Turns s i (i + suc rounds) (robin_step rounds i s t))
              (sym (
                tried
                ∙ ap (λ b. some (b, record s { connected = b })) e
                ∙ ap (λ t. some (false, t)) (disconnected s off)))
              (
                t,
                eq,
                one_more s i (i + suc rounds) e (subst (λ m. Robin s (i + 1) m t) (omega arith) r),
              )
      ]

  -- Every index is met in one turn.
  unfoldable pub slot_of : (s : Session) (idx : ℕ) → ℕ
  slot_of s idx =
      if leb s.current_ep idx then idx - s.current_ep else idx + length endpoints - s.current_ep

  pub slot-slot_of :
      (s : Session) (idx : ℕ)
      → s.current_ep < length endpoints
      → idx < length endpoints
      → (slot_of s idx < length endpoints) × (slot s (slot_of s idx) ≡ idx)
  unfolding slot_of
  slot-slot_of s idx c h = elim (Bool-cases (leb s.current_ep idx)) [
    | inl e ↦ rw e (ground arith, ap (λ t. t % length endpoints) (ground arith) ∙ mod-eq_of_lt h)
    | inr e ↦ rw e (
      ground arith,
      ap (λ t. t % length endpoints) (ground arith)
          ∙ add-mod_right idx (length endpoints)
          ∙ mod-eq_of_lt h,
    )
  ]

  -- How `setup_operational` may end: with an asset missing, and the old objects kept; at the first
  -- endpoint from the current one on that is reached; or with no endpoint in reach at all.
  pub data Outcome (s ready : Session) (missing : Bool) : Bool × Session → Type 0 where
    stopped : missing ≡ true → Outcome s ready missing (false, record s { connected = false })
    chosen :
        (i : ℕ)
        → missing ≡ false
        → i < length endpoints
        → reaches ready (slot s i) ≡ true
        → ((j : ℕ) → j < i → reaches ready (slot s j) ≡ false)
        → Outcome s ready missing (true, record ready { connected = true; current_ep = slot s i })
    out_of_reach :
        missing ≡ false
        → ((idx : ℕ) → idx < length endpoints → reaches ready idx ≡ false)
        → Outcome s ready missing (false, ready)

  module _ (fs : LittleFs) (f : fs.Files) (cn : Bytes) (s : Session) where
    abbrev pub ready : Session
    ready =
        loaded (read_file fs ca_cert f) (read_file fs dev_cert f) (read_file fs dev_chain f)
          (read_file fs dev_key f) cn s

    of_Robin :
        s.current_ep < length endpoints
        → {missing : Bool} → missing ≡ false
        → {r : Bool × Session} → Robin ready 0 (0 + length endpoints) r
        → Outcome s ready missing r
    of_Robin c m (picked i a b h below) =
        chosen i m (omega arith) h (λ j l. below j (omega arith) l)
    of_Robin c m (none_left all) = out_of_reach m (λ idx h.
        let (l, e) = slot-slot_of ready idx c h in
        subst (λ t. reaches ready t ≡ false) e
          (all (slot_of ready idx) (omega arith) (omega arith)))

    -- With a current endpoint in the table, whatever the flash holds: setting up stops if the root,
    -- the certificate or the key is missing; otherwise it goes round from the current endpoint,
    -- takes the first that is reached, and fails only if none of the table is. The table is not
    -- read behind its end.
    pub setup_operational-Outcome :
        s.current_ep < length endpoints
        → (r : Bool × Session) × (setup_operational net endpoints fs f cn s ≡ some r)
          × Outcome s ready (assets_missing fs f) r
    unfolding setup_operational
    setup_operational-Outcome c = elim (Bool-cases (assets_missing fs f)) [
      | inl e ↦ rw (e, setup_operational) (_, refl, stopped refl)
      | inr e ↦
          let (t, eq, r) = round_robin-Robin (length endpoints) 0 ready (omega arith) refl in
          rw (e, setup_operational) (t, eq, of_Robin c refl r)
    ]
