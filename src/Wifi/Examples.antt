-- ===== src/Wifi/Examples.antt =====
-- Runs of the access point choice, and its theorems at concrete networks.
use gik_view.Prelude.{
  ℕ, ◌+◌, ◌*◌, ◌≡◌, refl, inl, inr, true, false, none, some, [], ◌∷◌, ◌++◌, codes, All, arith, ◌==◌,
  if◌then◌else◌, replicate,
}
use mathlib.Core.List.{Perm}
use gik_view.Prelude.Int.{negsuc}
use gik_view.Wifi.{
  Endpoint, Radio, wait_assoc, assoc_rounds, associates, endpoint_open, probe_emqx, matching,
  all_listed, wifi_connect_best, rotate, escape_hatch,
}
use gik_view.Wifi.Blacklist.{rtc_magic, bytes_eq, Bl, Store, bl_load, bl_has, bl_add, bl_clear}
use gik_view.Wifi.Blacklist.View.{IsValid, entries, last_eight, bl_add-entries}
use gik_view.Wifi.Order.{Network, Descending, sort, sort-Descending}
use gik_view.Wifi.Association.{UpAt, wait_assoc-UpAt}
use gik_view.Wifi.Connect.{Distinct, usable, Outcome}
use gik_view.Wifi.Best.{candidates, start, wifi_connect_best-Outcome, wifi_connect_best_escape}
use gik_view.Wifi.Lockout.{boots, OutOfReach, lockout}

abbrev near : Network
near = record {
  ssid = codes "gik";
  bssid = 1 ∷ 1 ∷ 1 ∷ 1 ∷ 1 ∷ 1 ∷ [];
  rssi = negsuc 49;
  channel = 1;
}

abbrev far : Network
far = record {
  ssid = codes "gik";
  bssid = 2 ∷ 2 ∷ 2 ∷ 2 ∷ 2 ∷ 2 ∷ [];
  rssi = negsuc 79;
  channel = 6;
}

-- Only `near` associates, and its endpoint is open.
abbrev radio : Radio
radio = record {
  from_string = λ ip. some 7;
  started = λ ap. 1000;
  polls = λ ap k. record { now = 1000 + 200 * k; connected = ap.channel == 1 };
  connects = λ ap ip port. true;
}

abbrev broker : Endpoint
broker = record { ip = codes "10.0.0.1"; port = 8883 }

abbrev empty_bl : Bl
empty_bl = record { magic = rtc_magic; count = 0; mac = replicate 8 [] }

-- RTC memory after a reboot in which `near` was found dead.
abbrev near_dead : Bl
near_dead = record { magic = rtc_magic; count = 1; mac = near.bssid ∷ replicate 7 [] }

abbrev fresh : Store
fresh = record { s_bl = empty_bl; rtc = empty_bl }

abbrev after_outage : Store
after_outage = record { s_bl = empty_bl; rtc = near_dead }

strongest_first : sort (far ∷ near ∷ []) ≡ near ∷ far ∷ []
unfolding sort
strongest_first = refl

sort-Descending_example :
    Perm (far ∷ near ∷ []) (sort (far ∷ near ∷ [])) × Descending (sort (far ∷ near ∷ []))
sort-Descending_example = sort-Descending (far ∷ near ∷ [])

empty_bl-IsValid : IsValid empty_bl
empty_bl-IsValid = record { magic_ok = refl; count_ok = omega arith; size = refl }

bl_add-entries_example :
    (entries (bl_add near.bssid fresh) ≡ (
      if bl_has near.bssid fresh
      then entries fresh
      else last_eight (entries fresh ++ (near.bssid ∷ []))))
    × IsValid (bl_add near.bssid fresh).s_bl
    × ((bl_has near.bssid fresh ≡ false)
        → (bl_add near.bssid fresh).rtc ≡ (bl_add near.bssid fresh).s_bl)
bl_add-entries_example = bl_add-entries near.bssid fresh empty_bl-IsValid

wait_assoc-UpAt_example :
    (wait_assoc assoc_rounds (radio.polls near) 0 1000 ≡ true
      → (j : ℕ) × UpAt (radio.polls near) 0 1000 j)
    × ((j : ℕ)
        → UpAt (radio.polls near) 0 1000 j
        → wait_assoc assoc_rounds (radio.polls near) 0 1000 ≡ true)
wait_assoc-UpAt_example = wait_assoc-UpAt (radio.polls near) 1000 (λ k h. omega arith)

two-Distinct : Distinct (far ∷ near ∷ [])
unfolding bytes_eq
two-Distinct = ((refl, tt), (tt, tt))

wifi_connect_best-Outcome_example :
    Outcome radio
      (broker ∷ [])
      (start radio (broker ∷ []) (codes "gik") (far ∷ near ∷ []) fresh refl two-Distinct)
      (start radio (broker ∷ []) (codes "gik") (far ∷ near ∷ []) fresh refl two-Distinct)
      (candidates (codes "gik") (far ∷ near ∷ []))
      (wifi_connect_best radio (broker ∷ []) (codes "gik") (far ∷ near ∷ []) fresh).0
wifi_connect_best-Outcome_example =
    wifi_connect_best-Outcome radio (broker ∷ []) (codes "gik") (far ∷ near ∷ []) fresh refl
      two-Distinct

-- The broken network is out of range; the other has recovered, and stays unused.
shut : all_listed (bl_load after_outage) (candidates (codes "gik") (far ∷ near ∷ [])) ≡ false
unfolding all_listed bl_load bl_has sort matching
shut = refl

recovered : usable radio (broker ∷ []) near ≡ true
unfolding usable associates wait_assoc probe_emqx endpoint_open
recovered = refl

out_of_reach :
    All
      (OutOfReach radio (broker ∷ []) (codes "gik") (far ∷ near ∷ []) (bl_load after_outage))
      (candidates (codes "gik") (far ∷ near ∷ []))
unfolding bl_load bl_has sort matching associates wait_assoc
out_of_reach = (inl refl, (inr refl, tt))

lockout_example :
    (wifi_connect_best radio
      (broker ∷ [])
      (codes "gik")
      (far ∷ near ∷ [])
      (boots radio (broker ∷ []) (codes "gik") (far ∷ near ∷ []) 1000 after_outage)).0
    ≡ none
lockout_example =
    lockout radio (broker ∷ []) (codes "gik") (far ∷ near ∷ []) after_outage shut out_of_reach 1000

-- RTC memory after an outage of EMQX, and a radio for which nothing associates.
abbrev both_dead : Bl
both_dead = record { magic = rtc_magic; count = 2; mac = near.bssid ∷ far.bssid ∷ replicate 6 [] }

abbrev emqx_outage : Store
emqx_outage = record { s_bl = empty_bl; rtc = both_dead }

abbrev silent : Radio
silent = record {
  from_string = λ ip. some 7;
  started = λ ap. 1000;
  polls = λ ap k. record { now = 1000 + 200 * k; connected = false };
  connects = λ ap ip port. true;
}

all_covered : all_listed (bl_load emqx_outage) (candidates (codes "gik") (far ∷ near ∷ [])) ≡ true
unfolding all_listed bl_load bl_has sort matching
all_covered = refl

silence :
    (wifi_connect_best silent (broker ∷ []) (codes "gik") (far ∷ near ∷ []) emqx_outage).0 ≡ none
unfolding wifi_connect_best rotate sort matching bytes_eq bl_has escape_hatch bl_load bl_clear
    associates wait_assoc
silence = refl

wifi_connect_best_escape_example :
    All (λ ap. usable silent (broker ∷ []) ap ≡ false) (candidates (codes "gik") (far ∷ near ∷ []))
wifi_connect_best_escape_example =
    wifi_connect_best_escape silent (broker ∷ []) (codes "gik") (far ∷ near ∷ []) emqx_outage refl
      two-Distinct all_covered silence
