-- ===== src/Wifi.antt =====
-- Choosing an access point, end/arduino/wifi_session.cpp: the sorted candidates, the escape hatch
-- of the blacklist, the bounded association and the reachability probe.
pub mod Blacklist
pub mod Order
pub mod Association
pub mod Connect
pub mod Best
pub mod Lockout
mod Examples
use gik_view.Prelude.{
  ℕ, zero, suc, ◌+◌, ◌-◌, ◌%◌, ◌^◌, Bool, true, false, ◌&&◌, not, Option, none, some, List, [], ◌∷◌,
  Bytes, length, ltb, ◌==◌, if◌then◌else◌,
}
use gik_view.Prelude.Int.{ℤ}
use Blacklist.{bytes_eq, Store, bl_load, bl_has, bl_add, bl_clear}
use Order.{Network, sort}

abbrev pub max_match : ℕ
max_match = 12

abbrev pub wifi_assoc_timeout_ms : ℕ
wifi_assoc_timeout_ms = 8000

pub record Endpoint : Type 0 where
  pub ip : Bytes
  pub port : ℕ

-- One look at the clock and at `WiFi.status()`.
pub record Poll : Type 0 where
  pub now : ℕ
  pub connected : Bool

-- What the board and the network answer. `polls ap k` is the k-th look after `WiFi.begin`, made at
-- `started ap`; `connects` is the outcome of a TCP connection while `ap` is associated.
pub record Radio : Type 0 where
  pub from_string : Bytes → Option ℕ
  pub started : Network → ℕ
  pub polls : Network → ℕ → Poll
  pub connects : Network → ℕ → ℕ → Bool

-- `while (millis() - t0 < WIFI_ASSOC_TIMEOUT_MS)`, with fuel for the rounds.
unfoldable pub wait_assoc : ℕ → (ℕ → Poll) → ℕ → ℕ → Bool
wait_assoc zero polls k t0 = false
wait_assoc (suc rounds) polls k t0 =
    let rest = wait_assoc rounds polls (k + 1) t0 in
    if ltb (((polls k).now + 2 ^ 32 - t0) % 2 ^ 32) wifi_assoc_timeout_ms
    then if (polls k).connected then true else rest
    else false

-- Each round waits 200 ms, so 41 rounds are enough for 8 s.
abbrev pub assoc_rounds : ℕ
assoc_rounds = 41

module _ (radio : Radio) where
  unfoldable pub associates : Network → Bool
  associates ap = wait_assoc assoc_rounds (radio.polls ap) 0 (radio.started ap)

  unfoldable pub endpoint_open : Network → Endpoint → Bool
  endpoint_open ap e = elim (radio.from_string e.ip) [
    | none ↦ false
    | some ip ↦ radio.connects ap ip e.port
  ]

  -- One open endpoint is enough.
  unfoldable pub probe_emqx : List Endpoint → Network → Bool
  probe_emqx [] ap = false
  probe_emqx (e ∷ es) ap = if endpoint_open ap e then true else probe_emqx es ap

-- The networks of the wanted name, in the order of the scan, as many as the array holds.
unfoldable pub matching : ℕ → Bytes → List Network → List Network
matching zero ssid scan = []
matching (suc room) ssid [] = []
matching (suc room) ssid (ap ∷ scan) = elim (bytes_eq ap.ssid ssid) [
  | true ↦ ap ∷ matching room ssid scan
  | false ↦ matching (suc room) ssid scan
]

-- `all_bl`, with its start value for an empty list.
unfoldable pub all_listed : Store → List Network → Bool
all_listed s [] = true
all_listed s (ap ∷ aps) = if bl_has ap.bssid s then all_listed s aps else false

unfoldable pub escape_hatch : List Network → Store → Store
unfolding all_listed
escape_hatch [] s = s
escape_hatch (ap ∷ aps) s = if all_listed s (ap ∷ aps) then bl_clear s else s

module _ (radio : Radio) (endpoints : List Endpoint) where
  -- The rotation. The network that it locks to is the first part of the result.
  unfoldable pub rotate : List Network → Store → Option Network × Store
  rotate [] s = (none, s)
  rotate (ap ∷ aps) s = elim (bl_has ap.bssid s) [
    | true ↦ rotate aps s
    | false ↦ elim (associates radio ap) [
      | false ↦ rotate aps s
      | true ↦ elim (probe_emqx radio endpoints ap) [
        | true ↦ (some ap, s)
        | false ↦ rotate aps (bl_add ap.bssid s)
      ]
    ]
  ]

  -- An empty scan and a failed one both return false before the blacklist is looked at.
  unfoldable pub wifi_connect_best : Bytes → List Network → Store → Option Network × Store
  wifi_connect_best ssid [] s = (none, bl_load s)
  wifi_connect_best ssid (ap ∷ aps) s =
      let order = sort (matching max_match ssid (ap ∷ aps)) in
      rotate order (escape_hatch order (bl_load s))
