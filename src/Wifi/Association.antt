-- ===== src/Wifi/Association.antt =====
-- The bounded wait for an association.
use gik_view.Prelude.Bits.{elapsed}
use gik_view.Prelude.{
  ℕ, zero, suc, ◌+◌, ◌*◌, ◌≤◌, ◌<◌, ◌≡◌, inl, inr, true, arith, ltb, Bool-cases, ltb→lt, lt→ltb,
}
use native.Mathlib.Decide.{dec_lt, ℕ_discrete}
use gik_view.Wifi.{wifi_assoc_timeout_ms, Poll, wait_assoc, assoc_rounds}

-- The look `j`, from the look `k` on, finds the link up, and all looks up to it are in time.
pub record UpAt (polls : ℕ → Poll) (k t0 j : ℕ) : Type 0 where
  pub from : k ≤ j
  pub up : (polls j).connected ≡ true
  pub in_time : (i : ℕ) → k ≤ i → i ≤ j → elapsed (polls i).now t0 < wifi_assoc_timeout_ms

module _ (polls : ℕ → Poll) (t0 : ℕ) where
  up_now :
      (k : ℕ)
      → elapsed (polls k).now t0 < wifi_assoc_timeout_ms
      → (polls k).connected ≡ true
      → UpAt polls k t0 k
  up_now k h e = record {
    from = omega arith;
    up = e;
    in_time = λ i lo hi. let same : i ≡ k = omega arith in rw same h;
  }

  up_later :
      (k j : ℕ)
      → elapsed (polls k).now t0 < wifi_assoc_timeout_ms
      → UpAt polls (k + 1) t0 j
      → UpAt polls k t0 j
  up_later k j h u = record { from = omega (arith, u.from); up = u.up; in_time = at }
    where
      at : (i : ℕ) → k ≤ i → i ≤ j → elapsed (polls i).now t0 < wifi_assoc_timeout_ms
      at i lo hi = elim (ℕ_discrete i k) [
        | yes same ↦ rw same h
        | no other ↦ u.in_time i (omega arith) hi
      ]

  wait_assoc_sound :
      (rounds k : ℕ) → wait_assoc rounds polls k t0 ≡ true → (j : ℕ) × UpAt polls k t0 j
  unfolding wait_assoc
  wait_assoc_sound zero k h = cc
  wait_assoc_sound (suc rounds) k h =
      elim (Bool-cases (ltb (elapsed (polls k).now t0) wifi_assoc_timeout_ms)) [
        | inr late ↦ cc (rw late at h)
        | inl early ↦ elim (Bool-cases (polls k).connected) [
          | inl e ↦ (k, up_now k (ltb→lt _ _ early) e)
          | inr e ↦
              let (j, u) = wait_assoc_sound rounds (k + 1) (rw e at (rw early at h)) in
              (j, up_later k j (ltb→lt _ _ early) u)
        ]
      ]

  wait_assoc_complete :
      (rounds k j : ℕ) → UpAt polls k t0 j → j < k + rounds → wait_assoc rounds polls k t0 ≡ true
  unfolding wait_assoc
  wait_assoc_complete zero k j u h = absurd (omega (arith, u.from))
  wait_assoc_complete (suc rounds) k j u h =
      rw (lt→ltb _ _ (u.in_time k (omega arith) u.from)) (elim (Bool-cases (polls k).connected) [
        | inl e ↦ rw e
        | inr e ↦ rw e (elim (ℕ_discrete j k) [
          | yes same ↦ cc (rw same at u.up)
          | no other ↦
              wait_assoc_complete rounds (k + 1) j
                (record {
                  from = omega (arith, u.from);
                  up = u.up;
                  in_time = λ i lo hi. u.in_time i (omega arith) hi;
                })
                (omega arith)
        ])
      ])

  -- With a clock that moves on by 200 ms at least from look to look, the 41 rounds of the model are
  -- enough: the wait succeeds exactly when some look finds the link up and every look up to it is
  -- made less than 8 s after the start. The 32-bit clock may wrap in between.
  pub wait_assoc-UpAt :
      ((k : ℕ) → k ≤ 40 → 200 * k ≤ elapsed (polls k).now t0)
      → (wait_assoc assoc_rounds polls 0 t0 ≡ true → (j : ℕ) × UpAt polls 0 t0 j)
        × ((j : ℕ) → UpAt polls 0 t0 j → wait_assoc assoc_rounds polls 0 t0 ≡ true)
  wait_assoc-UpAt ticks =
      (wait_assoc_sound assoc_rounds 0, λ j u. wait_assoc_complete assoc_rounds 0 j u (soon j u))
    where
      soon : (j : ℕ) → UpAt polls 0 t0 j → j < 0 + assoc_rounds
      soon j u = elim (dec_lt j 41) [
        | yes h ↦ omega arith
        | no h ↦
            absurd (omega (arith, ticks 40 (omega arith), u.in_time 40 (omega arith) (omega arith)))
      ]
