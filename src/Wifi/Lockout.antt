-- ===== src/Wifi/Lockout.antt =====
-- A lockout that the escape hatch of `wifi_connect_best` does not end.
use gik_view.Prelude.{
  ℕ, zero, suc, ◌≡◌, refl, ap, ◌⊎◌, inl, inr, true, false, Option, none, List, [], ◌∷◌, Bytes, All,
  arith, Bool-cases,
}
use gik_view.Wifi.Blacklist.{Store, bl_load, bl_has}
use gik_view.Wifi.Order.{Network}
use gik_view.Wifi.{Radio, Endpoint, associates, all_listed, escape_hatch, rotate, wifi_connect_best}
use gik_view.Wifi.Best.{candidates}

module _ (radio : Radio) (endpoints : List Endpoint) (ssid : Bytes) (scan : List Network) where
  -- `n` boots that see the same networks; a soft reboot keeps RTC memory.
  unfoldable pub boots : ℕ → Store → Store
  boots zero s = s
  boots (suc n) s = boots n (wifi_connect_best radio endpoints ssid scan s).1

  -- On the blacklist, or out of association range.
  abbrev pub OutOfReach : Store → Network → Type 0
  OutOfReach s x = (bl_has x.bssid s ≡ true) ⊎ (associates radio x ≡ false)

bl_load-bl_load : (s : Store) → bl_load (bl_load s) ≡ bl_load s
unfolding bl_load
bl_load-bl_load s = ground arith

module _ (radio : Radio) (endpoints : List Endpoint) where
  rotate_stuck :
      (order : List Network) (s : Store)
      → All (OutOfReach radio endpoints [] [] s) order
      → rotate radio endpoints order s ≡ (none, s)
  unfolding rotate
  rotate_stuck [] s h = refl
  rotate_stuck (x ∷ order) s (inl e, h) = rw (e, rotate) (rotate_stuck order s h)
  rotate_stuck (x ∷ order) s (inr e, h) = elim (Bool-cases (bl_has x.bssid s)) [
    | inl b ↦ rw (b, rotate) (rotate_stuck order s h)
    | inr b ↦ rw (b, rotate, e) (rotate_stuck order s h)
  ]

  hatch_shut :
      (order : List Network) (s : Store) → all_listed s order ≡ false → escape_hatch order s ≡ s
  unfolding escape_hatch
  hatch_shut [] s h = refl
  hatch_shut (x ∷ order) s h = rw h

  connect_stuck :
      (ssid : Bytes) (scan : List Network) (s : Store)
      → all_listed (bl_load s) (candidates ssid scan) ≡ false
      → All (OutOfReach radio endpoints ssid scan (bl_load s)) (candidates ssid scan)
      → wifi_connect_best radio endpoints ssid scan s ≡ (none, bl_load s)
  unfolding wifi_connect_best
  connect_stuck ssid [] s shut h = refl
  connect_stuck ssid (x ∷ scan) s shut h =
      rw (hatch_shut (candidates ssid (x ∷ scan)) (bl_load s) shut)
        (rotate_stuck (candidates ssid (x ∷ scan)) (bl_load s) h)

  -- If one candidate is not on the blacklist but never associates, and all others are on it, then
  -- no boot connects, however many there are and whatever the listed networks could reach by now:
  -- the list is never emptied, and a timed out association does not add to it.
  pub lockout :
      (ssid : Bytes) (scan : List Network) (s : Store)
      → all_listed (bl_load s) (candidates ssid scan) ≡ false
      → All (OutOfReach radio endpoints ssid scan (bl_load s)) (candidates ssid scan)
      → (n : ℕ)
      → (wifi_connect_best radio endpoints ssid scan (boots radio endpoints ssid scan n s)).0 ≡ none
  unfolding boots
  lockout ssid scan s shut h zero =
      ap (λ (p : Option Network × Store). p.0) (connect_stuck ssid scan s shut h)
  lockout ssid scan s shut h (suc n) =
      rw (connect_stuck ssid scan s shut h)
        (lockout ssid scan (bl_load s) (rw bl_load-bl_load shut) (rw bl_load-bl_load h) n)
