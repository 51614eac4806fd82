-- ===== src/Lib.antt =====
-- Verification of the ESP8266 firmware of GikView, end/arduino/: a presence sensor that gets its
-- own certificate from step-ca and publishes to EMQX over mutual TLS.
--
-- The firmware's parts and their models:
--
-- Base64, end/arduino/crypto_asn1.cpp: `base64_encode`, `base64url_encode` and `base64_decode`.
-- Asn1, the same file: the DER builders `asn1_len`, `asn1_seq`, `asn1_set`, `asn1_int`, and the
--   reader `asn1_walk_next`. The pointers `p` and `end` of the reader are the bytes between them.
-- CString, the string functions of C that the firmware calls.
-- Pem, `pem_to_der` of crypto_asn1.cpp and `der_to_pem_string` of end/arduino/stepca.cpp.
-- Ec, end/arduino/crypto_pki.cpp: `build_ec_priv_der` and `ec_priv_from_der`.
-- Csr, the same file: `build_cri` and `build_csr`. Each static buffer is a definition of its own.
-- X509, the same file: `parse_leaf_not_after` and what it calls.
-- Json and Issue, end/arduino/stepca.cpp: `append_json_escaped`, `json_extract`, `step_ca_sign` and
--   `step_ca_rekey`.
-- Https, the same file: the HTTP client `stepca_https`, with `probe_stepca_chain_only`.
-- Jwt, end/arduino/crypto_pki.cpp: `build_x5c_jwt`.
-- Random, the same file: `rng_func`.
-- Timestamp, end/arduino/sensor.cpp and stepca.cpp: `to_rfc3339_utc`, with `gmtime_r` and `strftime`.
-- Fs, end/arduino/fs_store.cpp: the files of the device, over LittleFS. Fs/Memory has a file system
--   that satisfies the laws.
-- Boot, `save_device_assets` of stepca.cpp with its steps one by one, and `decide_mode` of
--   end/arduino/arduino.ino.
-- Provision, stepca.cpp: `provision_cert` in both modes.
-- Sensor, end/arduino/sensor.cpp: the line buffer of `update_sensor`, `parseSensorString`, the
--   configuration by `provision_sensor`, and `build_sensor_payload`.
-- Wifi, end/arduino/wifi_session.cpp: `wifi_connect_best`, and in Wifi/Blacklist the block of dead
--   access points in RTC memory.
-- Mqtt, end/arduino/mqtt_session.cpp: the session, its round robin over the endpoints, reconnection,
--   teardown and publishing.
-- Sketch, arduino.ino: `setup` with its waits and its switch (Sketch/Start), `loop`, which drives the
--   sensor, the session, the watchdog and the renewal, and both in a row (Sketch/Life).
-- Prelude holds the shared tests, list functions, bit operations and integers.
--
-- How they interact: a request (Csr) is printed as PEM (Pem, by Base64) and sent in a JSON body
-- (Json, Issue) with a token (Jwt) or over mutual TLS; the certificate that comes back is read by Pem
-- and Asn1 for its expiry (X509), and stored with its key (Ec, Boot, Fs), all of it driven by
-- Provision. The stored expiry decides the mode of the next start (Boot), and the stored files are
-- what the session is set up from (Mqtt). Wifi chooses the access point before any of it.
--
-- Bytes and characters are natural numbers; arithmetic that wraps in C has its modulus written out
-- (the shift registers of Base64, the 32-bit clock). An int of the calendar
-- is an integer, and a long is checked against 32 bits: `none` is an overflow. A buffer that a
-- function fills is the list of the bytes written, and theorems compare its length with the
-- declared size.
--
-- Bounds and fuel: the wait for an association has 41 rounds, since each takes 200 ms at least and
-- 8 s end it. The chunks of a PEM block and the rounds of the sort take the length of their input.
-- The loops over years and months are on the number of years and months left. The loops of the HTTP
-- client, of the sensor's configuration, of the wait for the time and of `rng_func` run for as many
-- rounds as are given, and a loop that has not come to its end by then gives `none`; the theorems say
-- how many rounds are enough (for the wait for the time 122, since each takes 500 ms and 60 s end it).
--
-- Parameters: SHA-256 (BearSSL), ECDSA and key generation (micro-ecc), the clock and the random
-- register, the radio with its clock, scan and TCP connections, the network of the
-- session, and LittleFS with its laws: what a file holds after it was written (all of the text, less
-- of it, or nothing), removed or renamed. RTC memory is a field of the state. HTTPS is a parameter of
-- Issue and Provision, filled by Https, whose own parameter is the TLS client: a connection that can
-- be read and waited on, with laws for one that delivers a text, one that falls silent, and the clock.
-- The serial
-- port of the sensor is a parameter with laws. Each interface has an instance that satisfies its laws
-- (Fs/Memory, Https/Script, Sensor/Port).
--
-- Configuration: LIFETIME_MODE_TEST_EXPLICIT, ENABLE_DIAG_TLS_PROBE and TEST_FOREIGN_TOPIC are 0, as
-- in config.example.h.
--
-- Not modelled: the log, the delays in front of a restart, `setup_sensor` and `sensor_release`, which
-- are calls of SoftwareSerial, the configurations that are switched off, and what `build_x5c_jwt` does
-- where a buffer overflows or snprintf cuts, which Jwt/Bounds delimits. The services under edge/ and
-- web/ are programs of their own.
pub mod Prelude
pub mod Base64
pub mod Asn1
pub mod CString
pub mod Pem
pub mod Ec
pub mod Random
pub mod Csr
pub mod X509
pub mod Timestamp
pub mod Sensor
pub mod Wifi
pub mod Fs
pub mod Boot
pub mod Mqtt
pub mod Json
pub mod Jwt
pub mod Issue
pub mod Https
pub mod Provision
pub mod Sketch
