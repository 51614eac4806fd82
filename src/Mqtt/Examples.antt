-- ===== src/Mqtt/Examples.antt =====
-- Runs of the session, and its theorems at a table of two endpoints.
use gik_view.Prelude.Bits.{elapsed}
use gik_view.Prelude.{
  ℕ, Bool, ◌+◌, ◌*◌, ◌≤◌, ◌≡◌, refl, true, false, none, some, Option, List, Bytes, codes, length,
  [], ◌∷◌, arith, ◌==◌, leb, if◌then◌else◌,
}
use gik_view.Fs.{
  FileName, ca_cert, bs_cert, bs_key, dev_cert, dev_chain, dev_key, dev_exp, new_cert, new_chain,
  new_key,
}
use gik_view.Fs.Memory.{memory}
use gik_view.Wifi.{Endpoint}
use gik_view.Mqtt.{
  mqtt_connect, Session, Net, derive_cn, endpoint_at, assets_missing, setup_operational,
}
use gik_view.Mqtt.Setup.{Outcome, ready, setup_operational-Outcome}
use gik_view.Mqtt.Alive.{IsAlive, Event, torn_down, step, Reachable, start, next, Reachable-IsAlive}
use gik_view.Mqtt.Reconnect.{
  AllParse, accepts, loop_runs, mqtt_session_loop-reconnects, mqtt_session_loop-stuck,
}

abbrev first : Endpoint
first = record { ip = codes "10.0.0.1"; port = 8883 }

abbrev second : Endpoint
second = record { ip = []; port = 0 }

abbrev table : List Endpoint
table = first ∷ second ∷ []

-- Every address parses, and the second endpoint alone accepts a session.
abbrev net : Net
net = record {
  from_string = λ ip. some (length ip);
  tcp = λ ip port. port == 0;
  mqtt = λ ip port ca chain key cn. port == 0;
}

-- The template's empty second slot does not parse.
abbrev half_configured : Net
half_configured = record {
  from_string = λ ip. if leb (length ip) 0 then none else some (length ip);
  tcp = λ ip port. true;
  mqtt = λ ip port ca chain key cn. true;
}

abbrev provisioned : FileName → Option Bytes
provisioned n = elim n [
  | ca_cert ↦ some (codes "root")
  | bs_cert ↦ none
  | bs_key ↦ none
  | dev_cert ↦ some (codes "cert")
  | dev_chain ↦ some (codes "chain")
  | dev_key ↦ some (codes "key")
  | dev_exp ↦ some (codes "1767225600")
  | new_cert ↦ none
  | new_chain ↦ none
  | new_key ↦ none
]

abbrev lost : Session
lost = record {
  ca_list = some (codes "root");
  dev_chain_list = some (codes "certchain");
  dev_key_object = some (codes "key");
  cn = codes "device-0a0b0c";
  last_reconn = 0;
  current_ep = 0;
  connected = false;
}

abbrev off : Session
off = record {
  ca_list = none;
  dev_chain_list = none;
  dev_key_object = none;
  cn = [];
  last_reconn = 0;
  current_ep = 0;
  connected = false;
}

named_by_mac : derive_cn [] 10 11 12 ≡ codes "device-0a0b0c"
unfolding derive_cn
named_by_mac = refl

setup_operational-Outcome_example :
    (r : Bool × Session) × (setup_operational net table memory provisioned
        (codes "device-0a0b0c")
        off
      ≡ some r)
    × Outcome net table off
        (ready net table memory provisioned (codes "device-0a0b0c") off)
        (assets_missing memory provisioned)
        r
setup_operational-Outcome_example =
    setup_operational-Outcome net table memory provisioned (codes "device-0a0b0c") off (omega arith)

off-IsAlive : IsAlive 2 off
off-IsAlive = record { in_table = omega arith; objects = λ e. absurd (e refl); named = λ e. cc }

torn : Reachable table memory [] 10 11 12 off off
unfolding step
torn = next off off net torn_down start refl

Reachable-IsAlive_example :
    IsAlive 2 off
    × ((n : Net) (e : Event memory)
        → (s' : Session) × (step table memory [] 10 11 12 n e off ≡ some s'))
Reachable-IsAlive_example = Reachable-IsAlive table memory [] 10 11 12 off off off-IsAlive torn

abbrev every_six_seconds : ℕ → ℕ
every_six_seconds k = 6000 * (k + 1)

six_seconds : (i : ℕ) → 5000 ≤ elapsed (every_six_seconds (i + 1)) (every_six_seconds i)
six_seconds i = omega arith

all_parse : AllParse net table
all_parse idx e h = (length e.ip, refl)

second_accepts : accepts net table lost 1 ≡ true
unfolding accepts mqtt_connect
second_accepts = refl

mqtt_session_loop-reconnects_example :
    (s' : Session) × (loop_runs net table 2 every_six_seconds 0 lost ≡ some s')
    × (s'.connected ≡ true)
mqtt_session_loop-reconnects_example =
    mqtt_session_loop-reconnects net table every_six_seconds six_seconds all_parse 1 lost
      (omega arith) (omega arith) second_accepts refl refl (omega arith)

abbrev moved_on : Session
moved_on = record lost { current_ep = 1 }

at_second : endpoint_at table 1 ≡ some second
unfolding endpoint_at
at_second = refl

mqtt_session_loop-stuck_example :
    (s' : Session) × (loop_runs half_configured table 50 every_six_seconds 0 moved_on ≡ some s')
    × ((s'.current_ep ≡ 1) × (s'.connected ≡ false))
mqtt_session_loop-stuck_example =
    mqtt_session_loop-stuck half_configured table every_six_seconds second 50 0 moved_on at_second
      refl refl
