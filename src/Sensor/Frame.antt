-- ===== src/Sensor/Frame.antt =====
-- What a frame does to the occupancy.
use gik_view.Prelude.{
  ℕ, ◌+◌, ◌<◌, ◌≡◌, refl, ap, ◌≢◌, some, [], ◌∷◌, ◌++◌, Bytes, All, arith, ◌>>=◌, length-append,
  take-append,
}
use gik_view.CString.Laws.{Lacks, strchr-append}
use gik_view.Sensor.{scan_value, between_commas, parse_sensor_string}

-- The field that a frame is read for: what stands between its first and its second comma.
pub between_commas_lem :
    (front field rest : Bytes)
    → Lacks b',' front
    → Lacks b',' field
    → between_commas (front ++ (b',' ∷ (field ++ (b',' ∷ rest)))) ≡ some field
unfolding between_commas
between_commas_lem front field rest hf hd =
    rw
      (
        strchr-append b',' front (field ++ (b',' ∷ rest)) hf,
        ◌>>=◌,
        strchr-append b',' field rest hd,
        ◌>>=◌,
      )
      (ap some
        (take-append _ field (b',' ∷ rest) (omega (arith, length-append {0} field (b',' ∷ rest)))))

-- The first digit 0 or 1 of a text decides.
pub scan_value_lem :
    (front : Bytes) (v : ℕ) (rest : Bytes)
    → All (λ c. (c ≢ b'0') × (c ≢ b'1')) front
    → v < 2
    → scan_value (front ++ ((b'0' + v) ∷ rest)) ≡ some v
unfolding scan_value
scan_value_lem [] v rest h hv = ground arith
scan_value_lem (c ∷ front) v rest (hc, h) hv = ground (arith, scan_value_lem front v rest h hv)

-- A frame whose second field has a 0 or a 1, with any other characters but a comma around it, sets
-- the occupancy to it, whatever the occupancy was.
pub parse_sensor_string-frame :
    (front pad : Bytes) (v : ℕ) (after rest : Bytes) (old : ℕ)
    → Lacks b',' front
    → Lacks b',' (pad ++ ((b'0' + v) ∷ after))
    → All (λ c. (c ≢ b'0') × (c ≢ b'1')) pad
    → v < 2
    → parse_sensor_string (front ++ (b',' ∷ ((pad ++ ((b'0' + v) ∷ after)) ++ (b',' ∷ rest)))) old
      ≡ v
unfolding parse_sensor_string
parse_sensor_string-frame front pad v after rest old hf hd hp hv =
    rw
      (
        between_commas_lem front (pad ++ ((b'0' + v) ∷ after)) rest hf hd,
        ◌>>=◌,
        scan_value_lem pad v after hp hv,
      )
      refl
