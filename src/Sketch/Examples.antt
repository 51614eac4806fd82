-- ===== src/Sketch/Examples.antt =====
-- The sketch's theorems at concrete times.
use gik_view.Mqtt.Alive.{IsAlive}
use gik_view.Wifi.{Endpoint}
use gik_view.Sensor.Lines.{power_on}
use gik_view.CString.Laws.{lacks-Lacks}
use gik_view.Wifi.{wifi_connect_best}
use gik_view.Wifi.Order.{Network}
use gik_view.Wifi.Blacklist.{Store, Bl}
use gik_view.Sensor.Port.{Line, line_uart, line_uart-IsUart}
use gik_view.Sketch.Start.{Surroundings, setup}
use gik_view.Sketch.Setup.{Moves, Ends, setup-Ends}
use gik_view.Sketch.Life.{run, run-IsSound}
use gik_view.Sketch.Published.{Reports, loop-Reports}
use gik_view.Sketch.Loop.{IsSound}
use gik_view.Prelude.{
  ℕ, ◌+◌, ◌*◌, ◌<◌, ◌≡◌, refl, codes, Option, some, none, Bytes, false, true, not, arith, List, [],
  ◌∷◌, replicate,
}
use gik_view.Prelude.Int.{negsuc}
use gik_view.Fs.{FileName}
use gik_view.Fs.Memory.{memory}
use gik_view.Boot.{by_expiry}
use gik_view.Provision.{Device}
use gik_view.Prelude.Bits.{elapsed}
use gik_view.Sketch.{renew_due, mqtt_down_reboot_ms, State, Inputs, loop, SetupEnd, LoopEnd}
use gik_view.Sketch.Renewal.{is_operational, renew_due-by_expiry}
use gik_view.Sketch.Watchdog.{down_runs, down_runs-none}

renew_due-by_expiry_example :
    renew_due true 1767225600 1767000000
    ≡ not (is_operational (by_expiry false 1767000000 1767225600))
renew_due-by_expiry_example =
    renew_due-by_expiry false 1767000000 1767225600 (omega arith) (omega arith)

-- A device whose key generator fails.
abbrev keyless : Device
keyless = record {
  sha256 = λ m. m;
  sign = λ d hash. none;
  make_key = λ k. none;
  https = λ path body creds. none;
  cn = codes "device-0a0b0c";
  clock = λ k. 1767225600;
  random = λ k. (7, 8);
  undefined_time = 0;
}

-- The same device at a time when its key generator and signer answer.
abbrev signing : Device
signing = record keyless {
  sign = λ d hash. some (replicate 64 1);
  make_key = λ k. some (replicate 64 9, replicate 32 7);
}

abbrev blank : FileName → Option Bytes
blank = λ n. some (codes "text")

abbrev each_second : ℕ → ℕ
each_second k = 1000 * k

down_runs-none_example :
    (down_runs 400 each_second 0 500 ≡ none
      → (k : ℕ) × (k < 400) × (mqtt_down_reboot_ms < elapsed (each_second (0 + k)) 500))
    × ((k : ℕ)
        → k < 400
        → mqtt_down_reboot_ms < elapsed (each_second (0 + k)) 500
        → down_runs 400 each_second 0 500 ≡ none)
down_runs-none_example = down_runs-none 400 0 500 each_second (λ e. ground (arith, e))

-- An iteration of a device that was just started, without a network.
abbrev started : State memory
started = record {
  sensor = power_on;
  session = record {
    ca_list = none;
    dev_chain_list = none;
    dev_key_object = none;
    cn = [];
    last_reconn = 0;
    current_ep = 0;
    connected = false;
  };
  files = blank;
  last_pub = 0;
  last_chk = 0;
  mqtt_down_since = 0;
}

abbrev quiet : Inputs
quiet = record {
  now_ms = 7000;
  session_ms = 7001;
  console = none;
  available = codes "$DFHPD,1, , , *\r\n";
  link = true;
  loop_link = true;
  publish_link = true;
  renew_link = false;
  time = 1767225600;
  renew_time = 1767225601;
  net = record {
    from_string = λ ip. none;
    tcp = λ ip port. false;
    mqtt = λ ip port ca chain key cn. false;
  };
  bssid = codes "aa:bb:cc:dd:ee:ff";
  rssi = negsuc 64;
}

abbrev one_endpoint : List Endpoint
one_endpoint = record { ip = codes "10.0.0.1"; port = 8883 } ∷ []

started-IsAlive : IsAlive 1 started.session
started-IsAlive = record { in_table = omega arith; objects = λ e. absurd (e refl); named = λ e. cc }

-- A device that finds its access point and, at the third look, the time.
abbrev home : Network
home = record {
  ssid = codes "gik";
  bssid = 1 ∷ 2 ∷ 3 ∷ 4 ∷ 5 ∷ 6 ∷ [];
  channel = 6;
  rssi = negsuc 50;
}

abbrev at_home : Surroundings
at_home = record {
  radio = record {
    from_string = λ ip. some 7;
    started = λ ap. 1000;
    polls = λ ap k. record { now = 1000 + 200 * k; connected = true };
    connects = λ ap ip port. true;
  };
  scan = home ∷ [];
  t0 = 9000;
  looks = λ k. record { seconds = 1699999999 + k; ms = 9000 + 500 * k };
  boot_time = 1767225600;
  net = quiet.net;
}

-- RTC memory after power-on.
abbrev cold : Bl
cold = record { magic = 0; count = 0; mac = [] }

abbrev fresh : Store
fresh = record { s_bl = cold; rtc = cold }

abbrev port : Line
port = record { written = []; now = 5000; waiting = 4 }

looks_move : Moves at_home.looks at_home.t0
looks_move j h = omega (arith, h)

setup-Ends_example :
    (r : SetupEnd memory × Store) × (setup keyless memory line_uart one_endpoint
        (codes "gik")
        []
        10
        11
        12
        6000
        true
        at_home
        fresh
        blank
        started.session
        port
      ≡ some r)
    × Ends keyless memory line_uart one_endpoint
        (codes "gik")
        []
        10
        11
        12
        6000
        true
        at_home
        (wifi_connect_best at_home.radio one_endpoint (codes "gik") at_home.scan fresh).0
        blank
        started.session
        r.0
setup-Ends_example =
    setup-Ends keyless memory line_uart one_endpoint (codes "gik") [] 10 11 12 6000 (λ p. p.written)
      (λ p. p.waiting) (λ p. p.now) line_uart-IsUart true at_home fresh blank started.session port
      started-IsAlive looks_move (omega arith) (omega arith)

run-IsSound_example :
    (e : LoopEnd memory) × (run keyless memory line_uart one_endpoint
        (codes "gik")
        []
        10
        11
        12
        6000
        true
        at_home
        fresh
        blank
        port
        ((keyless, quiet) ∷ (signing, quiet) ∷ [])
      ≡ some e)
    × IsSound memory one_endpoint e
run-IsSound_example =
    run-IsSound keyless memory line_uart one_endpoint (codes "gik") [] 10 11 12 6000
      (λ p. p.written) (λ p. p.waiting) (λ p. p.now) line_uart-IsUart true at_home fresh blank port
      ((keyless, quiet) ∷ (signing, quiet) ∷ []) (omega arith) looks_move (omega arith)
      (omega arith)

-- A connected device, whose iteration publishes.
abbrev online : State memory
online = record started {
  session = record {
    ca_list = some (codes "root");
    dev_chain_list = some (codes "chain");
    dev_key_object = some (codes "key");
    cn = codes "device-0a0b0c";
    last_reconn = 0;
    current_ep = 0;
    connected = true;
  };
}

loop-Reports_example :
    Reports memory quiet online (loop keyless memory one_endpoint [] 10 11 12 quiet online)
loop-Reports_example =
    loop-Reports keyless memory one_endpoint [] 10 11 12 quiet (omega arith) (omega arith)
      (lacks-Lacks 34 (codes "aa:bb:cc:dd:ee:ff") refl) (omega arith) online
