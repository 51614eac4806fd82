-- ===== src/Sketch/Watchdog.antt =====
-- The watchdog over many iterations of `loop`.
use gik_view.Prelude.{
  ℕ, zero, suc, ◌+◌, ◌<◌, ◌≡◌, ◌≢◌, refl, true, false, Option, none, some, ltb, if◌then◌else◌,
  arith, Bool-cases, inl, inr, ltb→lt, ltb→le,
}
use gik_view.Prelude.Bits.{elapsed}
use gik_view.Sketch.{watchdog, mqtt_down_reboot_ms}

-- `rounds` iterations with the link down and a name set, at the times from the `i`-th on.
unfoldable pub down_runs : ℕ → (ℕ → ℕ) → ℕ → ℕ → Option ℕ
unfolding watchdog
down_runs zero times i since = some since
down_runs (suc rounds) times i since = elim (watchdog (times i) false true since) [
  | none ↦ none
  | some since' ↦ down_runs rounds times (i + 1) since'
]

-- The three cases of an iteration with the link down.
noted :
    (now since : ℕ)
    → since ≢ 0
    → watchdog now false true since
      ≡ (if ltb mqtt_down_reboot_ms (elapsed now since) then none else some since)
unfolding watchdog
noted now since s = ground arith

at_zero : (i : ℕ) → i + 0 ≡ i
at_zero i = omega arith

at_next : (i k : ℕ) → i + suc k ≡ i + 1 + k
at_next i k = omega arith

later :
    (i rounds since : ℕ) (times : ℕ → ℕ) {r : Option ℕ}
    → ltb mqtt_down_reboot_ms (elapsed (times i) since) ≡ false
    → ((k : ℕ) → k < rounds → mqtt_down_reboot_ms < elapsed (times (i + 1 + k)) since → r ≡ none)
    → (k : ℕ) → k < suc rounds
    → mqtt_down_reboot_ms < elapsed (times (i + k)) since
    → r ≡ none
later i rounds since times early bwd zero l h =
    absurd (omega (arith, ltb→le _ _ early, (rw (at_zero i) at h)))
later i rounds since times early bwd (suc k) l h = bwd k (omega arith) (rw (at_next i k) at h)

-- With the link down and a name set, once a start is noted, the restart comes in the first
-- iteration that is later than 5 minutes after it, and not before.
pub down_runs-none :
    (rounds i since : ℕ) (times : ℕ → ℕ)
    → since ≢ 0
    → (down_runs rounds times i since ≡ none
        → (k : ℕ) × (k < rounds) × (mqtt_down_reboot_ms < elapsed (times (i + k)) since))
      × ((k : ℕ)
          → k < rounds
          → mqtt_down_reboot_ms < elapsed (times (i + k)) since
          → down_runs rounds times i since ≡ none)
unfolding down_runs
down_runs-none zero i since times s = (λ e. cc, λ k l h. absurd (omega arith))
down_runs-none (suc rounds) i since times s =
    let (fwd, bwd) = down_runs-none rounds (i + 1) since times s in
    elim (Bool-cases (ltb mqtt_down_reboot_ms (elapsed (times i) since))) [
      | inl late ↦
          rw (noted (times i) since s, late, down_runs)
            ((λ _. (0, omega arith, rw (at_zero i) (ltb→lt _ _ late))), (λ k l h. refl))
      | inr early ↦
          rw (noted (times i) since s, early, down_runs)
            (
              (λ e. let (k, l, h) = fwd e in (suc k, omega arith, rw (at_next i k) h)),
              later i rounds since times early bwd,
            )
    ]
