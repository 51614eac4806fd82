-- ===== src/Mqtt.antt =====
-- The MQTT session, end/arduino/mqtt_session.cpp. The BearSSL objects are the PEM texts that they
-- were made of, `none` where the pointer is null. TCP, TLS and MQTT are parameters.
pub mod Setup
pub mod Alive
pub mod Reconnect
mod Examples
use gik_view.Prelude.{
  ℕ, zero, suc, ◌+◌, ◌-◌, ◌/◌, ◌%◌, ◌^◌, ◌≡◌, Bool, true, false, ◌&&◌, ◌||◌, not, Option, none,
  some, List, [], ◌∷◌, ◌++◌, Bytes, codes, length, take, ltb, ◌==◌, if◌then◌else◌,
}
use gik_view.Fs.{LittleFs, read_file, ca_cert, dev_cert, dev_chain, dev_key}
use gik_view.Wifi.{Endpoint}

-- The static variables. An empty `cn` is `s_cn[0] == 0`.
pub record Session : Type 0 where
  pub ca_list : Option Bytes
  pub dev_chain_list : Option Bytes
  pub dev_key_object : Option Bytes
  pub cn : Bytes
  pub last_reconn : ℕ
  pub current_ep : ℕ
  pub connected : Bool

-- The network: `IPAddress::fromString`, a TCP connection, and the connection with the given trust
-- anchors, client chain and key, under the given name.
pub record Net : Type 0 where
  pub from_string : Bytes → Option ℕ
  pub tcp : ℕ → ℕ → Bool
  pub mqtt : ℕ → ℕ → Option Bytes → Option Bytes → Option Bytes → Bytes → Bool

unfoldable pub endpoint_at : List Endpoint → ℕ → Option Endpoint
endpoint_at [] n = none
endpoint_at (e ∷ es) zero = some e
endpoint_at (e ∷ es) (suc n) = endpoint_at es n

-- `%02x`
unfoldable pub hex_digit : ℕ → ℕ
hex_digit d = if ltb d 10 then b'0' + d else b'a' + (d - 10)

unfoldable pub hex_byte : ℕ → Bytes
unfolding hex_digit
hex_byte b = hex_digit (b / 16) ∷ hex_digit (b % 16) ∷ []

-- `char s_cn[32]` takes 31 characters of the override.
unfoldable pub derive_cn : Bytes → ℕ → ℕ → ℕ → Bytes
unfolding hex_byte
derive_cn [] m3 m4 m5 = codes "device-" ++ (hex_byte m3 ++ (hex_byte m4 ++ hex_byte m5))
derive_cn (c ∷ override) m3 m4 m5 = take 31 (c ∷ override)

-- The session with the objects for the given texts, before any connection.
abbrev pub loaded : Bytes → Bytes → Bytes → Bytes → Bytes → Session → Session
loaded ca cert chain key cn s = record s {
  ca_list = some ca;
  dev_chain_list = some (cert ++ chain);
  dev_key_object = some key;
  cn = cn;
  connected = false;
}

unfoldable pub assets_missing : (fs : LittleFs) → fs.Files → Bool
unfolding read_file
assets_missing fs f =
    length (read_file fs ca_cert f) == 0
    || (length (read_file fs dev_cert f) == 0 || length (read_file fs dev_key f) == 0)

-- The early returns of `mqtt_session_loop`: connected, not operational, or 5 s not over.
unfoldable pub idle : ℕ → Session → Bool
idle now s = s.connected || (length s.cn == 0 || ltb ((now + 2 ^ 32 - s.last_reconn) % 2 ^ 32) 5000)

module _ (net : Net) where
  -- `s_mqtt.connect(s_cn)` at a parsed address.
  unfoldable pub mqtt_connect : ℕ → ℕ → Session → Bool
  mqtt_connect ip port s = net.mqtt ip port s.ca_list s.dev_chain_list s.dev_key_object s.cn

  unfoldable pub try_endpoint : Endpoint → Session → Bool × Session
  unfolding mqtt_connect
  try_endpoint e s = elim (net.from_string e.ip) [
    | none ↦ (false, s)
    | some ip ↦ elim (net.tcp ip e.port) [
      | false ↦ (false, s)
      | true ↦ (mqtt_connect ip e.port s, record s { connected = mqtt_connect ip e.port s })
    ]
  ]

module _ (net : Net) (endpoints : List Endpoint) where
  -- `none`, here and in what calls this, is undefined behaviour: the table is read behind its end.
  unfoldable pub try_emqx_endpoint : ℕ → Session → Option (Bool × Session)
  unfolding try_endpoint endpoint_at
  try_emqx_endpoint idx s = elim (endpoint_at endpoints idx) [
    | none ↦ none
    | some e ↦ some (try_endpoint net e s)
  ]

  -- The round robin from `current_ep`, at round `i`, with the rounds that are left.
  unfoldable pub round_robin : ℕ → ℕ → Session → Option (Bool × Session)
  unfolding try_emqx_endpoint
  round_robin zero i s = some (false, s)
  round_robin (suc rounds) i s =
      let idx = (s.current_ep + i) % length endpoints in
      elim (try_emqx_endpoint idx s) [
        | none ↦ none
        | some tried ↦ elim tried.0 [
          | true ↦ some (true, record tried.1 { current_ep = idx })
          | false ↦ round_robin rounds (i + 1) tried.1
        ]
      ]

  -- With the name that `derive_cn` gives.
  unfoldable pub setup_operational :
      (fs : LittleFs) → fs.Files → Bytes → Session → Option (Bool × Session)
  unfolding assets_missing round_robin
  setup_operational fs f cn s =
      if assets_missing fs f
      then some (false, record s { connected = false })
      else round_robin (length endpoints) 0 (
          loaded (read_file fs ca_cert f) (read_file fs dev_cert f) (read_file fs dev_chain f)
            (read_file fs dev_key f) cn s)

  -- A failed attempt rotates to the next slot; a slot with an address that does not parse does not.
  unfoldable pub reconnect : Endpoint → Session → Session
  unfolding mqtt_connect
  reconnect e s = elim (net.from_string e.ip) [
    | none ↦ s
    | some ip ↦
        if mqtt_connect net ip e.port s
        then record s { connected = true }
        else record s { connected = false; current_ep = (s.current_ep + 1) % length endpoints }
  ]

  unfoldable pub mqtt_session_loop : ℕ → Session → Option Session
  unfolding idle reconnect endpoint_at
  mqtt_session_loop now s =
      if idle now s then some s else elim (endpoint_at endpoints s.current_ep) [
        | none ↦ none
        | some e ↦ some (reconnect e (record s { last_reconn = now }))
      ]

unfoldable pub mqtt_session_teardown : Session → Session
mqtt_session_teardown s = record s {
  connected = false;
  ca_list = none;
  dev_chain_list = none;
  dev_key_object = none;
  cn = [];
}

-- `MQTT_TOPIC_FMT`, and the topic and the given payload of a publish; `none` is the early return.
unfoldable pub topic_of : Bytes → Bytes
topic_of cn = take 63 (codes "sensors/" ++ (cn ++ codes "/occupancy"))

unfoldable pub publish_occupancy : Bytes → Session → Option (Bytes × Bytes)
unfolding topic_of
publish_occupancy payload s =
    if not s.connected || length s.cn == 0 then none else some (topic_of s.cn, payload)
