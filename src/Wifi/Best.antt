-- ===== src/Wifi/Best.antt =====
-- `wifi_connect_best` as a whole.
use gik_view.Prelude.{
  ◌≡◌, refl, inl, inr, true, false, Option, none, List, [], ◌∷◌, Bytes, length, All, arith,
}
use mathlib.Core.Path.{subst}
use gik_view.Wifi.Blacklist.{Store, bl_cap, bl_load, bl_has, bl_clear, bl_save, listed}
use gik_view.Wifi.Blacklist.View.{IsValid, bl_load-entries}
use gik_view.Wifi.Order.{Network, sort, sort_rounds}
use gik_view.Wifi.{
  Radio, Endpoint, max_match, matching, all_listed, escape_hatch, wifi_connect_best,
}
use gik_view.Wifi.Connect.{Distinct, usable, Passed, Outcome, nothing, locked, rotate-Outcome}
use gik_view.Wifi.Connect.Distinct.{sort-Distinct, matching-Distinct}

-- The candidates, strongest first.
abbrev pub candidates : Bytes → List Network → List Network
candidates ssid scan = sort (matching max_match ssid scan)

-- The blacklist is in force at the start of the rotation, unless it covers every candidate.
escape_hatch-IsValid :
    (order : List Network) (s : Store) → IsValid s.s_bl → IsValid (escape_hatch order s).s_bl
unfolding escape_hatch bl_clear bl_save
escape_hatch-IsValid [] s v = v
escape_hatch-IsValid (ap ∷ order) s v = ground arith

pub bl_clear_has : (a : Bytes) (s : Store) → bl_has a (bl_clear s) ≡ false
unfolding bl_has bl_clear bl_save listed
bl_clear_has a s = refl

hatch_open :
    (ap : Network) (aps : List Network) (s : Store)
    → all_listed s (ap ∷ aps) ≡ true
    → escape_hatch (ap ∷ aps) s ≡ bl_clear s
unfolding escape_hatch
hatch_open ap aps s e = rw e

module _ (radio : Radio) (endpoints : List Endpoint) where
  cleared_useless :
      (s : Store) (aps : List Network)
      → All (Passed radio endpoints (bl_clear s)) aps
      → All (λ ap. usable radio endpoints ap ≡ false) aps
  cleared_useless s [] h = tt
  cleared_useless s (ap ∷ aps) (inl listed, h) = absurd (cc (bl_clear_has ap.bssid s, listed))
  cleared_useless s (ap ∷ aps) (inr useless, h) = (useless, cleared_useless s aps h)

  emptied :
      (order : List Network) (s : Store)
      → all_listed s order ≡ true
      → All (Passed radio endpoints (escape_hatch order s)) order
      → All (λ ap. usable radio endpoints ap ≡ false) order
  emptied [] s e h = tt
  emptied (ap ∷ aps) s e h =
      cleared_useless s (ap ∷ aps)
        (subst (λ t. All (Passed radio endpoints t) (ap ∷ aps)) (hatch_open ap aps s e) h)

module _ (radio : Radio) (endpoints : List Endpoint) (ssid : Bytes) (scan : List Network)
    (s : Store) (size : length s.rtc.mac ≡ bl_cap) (d : Distinct scan) where
  abbrev pub start : Store
  start = escape_hatch (candidates ssid scan) (bl_load s)

  -- For a scan with distinct addresses, whatever RTC memory holds: `wifi_connect_best` locks to a
  -- network that associates and reaches EMQX, and every stronger candidate is of no use or was on
  -- the blacklist, which it is itself not on when its turn comes; or it returns false, and all
  -- candidates are so.
  pub wifi_connect_best-Outcome :
      Outcome radio endpoints start start
        (candidates ssid scan)
        (wifi_connect_best radio endpoints ssid scan s).0
  wifi_connect_best-Outcome = by_scan scan d
    where
      by_scan :
          (aps : List Network)
          → Distinct aps
          → Outcome radio endpoints
              (escape_hatch (candidates ssid aps) (bl_load s))
              (escape_hatch (candidates ssid aps) (bl_load s))
              (candidates ssid aps)
              (wifi_connect_best radio endpoints ssid aps s).0
      by_scan [] e = unfold wifi_connect_best matching sort sort_rounds escape_hatch in nothing tt
      by_scan (ap ∷ aps) e =
          unfold wifi_connect_best in
          (rotate-Outcome radio endpoints (candidates ssid (ap ∷ aps))
            (escape_hatch (candidates ssid (ap ∷ aps)) (bl_load s))
            (escape_hatch-IsValid (candidates ssid (ap ∷ aps)) (bl_load s)
              (bl_load-entries s size).0)
            (sort-Distinct _ (matching-Distinct max_match ssid (ap ∷ aps) e))).0

  -- When every candidate is on the blacklist the list is emptied first: then the call fails only if
  -- no candidate is usable.
  pub wifi_connect_best_escape :
      all_listed (bl_load s) (candidates ssid scan) ≡ true
      → (wifi_connect_best radio endpoints ssid scan s).0 ≡ none
      → All (λ ap. usable radio endpoints ap ≡ false) (candidates ssid scan)
  wifi_connect_best_escape all_l failed = by_outcome wifi_connect_best-Outcome failed
    where
      by_outcome :
          {r : Option Network}
          → Outcome radio endpoints start start (candidates ssid scan) r
          → r ≡ none
          → All (λ ap. usable radio endpoints ap ≡ false) (candidates ssid scan)
      by_outcome (nothing h) e = emptied radio endpoints (candidates ssid scan) (bl_load s) all_l h
      by_outcome (locked front ap back o h free u) e = cc
