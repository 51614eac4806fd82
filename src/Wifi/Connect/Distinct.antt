-- ===== src/Wifi/Connect/Distinct.antt =====
-- Selecting and sorting keep the addresses distinct and the name right.
use gik_view.Prelude.{
  ℕ, zero, suc, ◌≡◌, refl, true, false, List, [], ◌∷◌, Bytes, All, arith, Bool-cases, inl, inr,
  length,
}
use gik_view.Prelude.Int.{ltb_ℤ}
use gik_view.Wifi.Blacklist.{bytes_eq}
use gik_view.Wifi.Order.{Network, exchange, exchange-All, sort_rounds, sort_rounds-All, sort}
use gik_view.Wifi.{matching}
use gik_view.Wifi.Connect.{Distinct}

bytes_eq_comm : (m n : Bytes) → bytes_eq m n ≡ bytes_eq n m
unfolding bytes_eq
bytes_eq_comm [] [] = refl
bytes_eq_comm [] (y ∷ ys) = refl
bytes_eq_comm (x ∷ xs) [] = refl
bytes_eq_comm (x ∷ xs) (y ∷ ys) = ground (arith, bytes_eq_comm xs ys)

abbrev Apart : Network → List Network → Type 0
Apart x = All (λ y. bytes_eq x.bssid y.bssid ≡ false)

Apart_symm : (x y : Network) → bytes_eq x.bssid y.bssid ≡ false → bytes_eq y.bssid x.bssid ≡ false
Apart_symm x y h = ground (arith, bytes_eq_comm x.bssid y.bssid)

exchange-Distinct :
    (x : Network) (xs : List Network)
    → Apart x xs
    → Distinct xs
    → Apart (exchange x xs).0 (exchange x xs).1 × Distinct (exchange x xs).1
unfolding exchange
exchange-Distinct x [] a d = (tt, tt)
exchange-Distinct x (y ∷ ys) (ax, a) (ay, d) = elim (Bool-cases (ltb_ℤ x.rssi y.rssi)) [
  | inl e ↦
      let (front, rest) = exchange-Distinct y ys ay d in
      let (xb, xr) = exchange-All (λ z. bytes_eq x.bssid z.bssid ≡ false) y ys ax a in
      rw (e, exchange) ((Apart_symm x (exchange y ys).0 xb, front), (xr, rest))
  | inr e ↦
      let (front, rest) = exchange-Distinct x ys a d in
      let (yb, yr) =
        exchange-All (λ z. bytes_eq y.bssid z.bssid ≡ false) x ys (Apart_symm x y ax) ay in
      rw (e, exchange) ((Apart_symm y (exchange x ys).0 yb, front), (yr, rest))
]

sort_rounds-Distinct :
    (rounds : ℕ) (order : List Network) → Distinct order → Distinct (sort_rounds rounds order)
unfolding sort_rounds
sort_rounds-Distinct zero order d = d
sort_rounds-Distinct (suc rounds) [] d = tt
sort_rounds-Distinct (suc rounds) (x ∷ xs) (a, d) =
    let (front, rest) = exchange-Distinct x xs a d in
    (
      sort_rounds-All (λ y. bytes_eq (exchange x xs).0.bssid y.bssid ≡ false) rounds
          (exchange x xs).1 front,
      sort_rounds-Distinct rounds (exchange x xs).1 rest,
    )

pub sort-Distinct : (order : List Network) → Distinct order → Distinct (sort order)
unfolding sort
sort-Distinct order d = sort_rounds-Distinct (length order) order d

module _ {κ} (P : Network → Type κ) (ssid : Bytes) where
  -- What is selected was in the scan, under the wanted name.
  pub matching-All :
      (room : ℕ) (scan : List Network)
      → All P scan
      → All (λ ap. P ap × (bytes_eq ap.ssid ssid ≡ true)) (matching room ssid scan)
  unfolding matching
  matching-All zero scan h = tt
  matching-All (suc room) [] h = tt
  matching-All (suc room) (ap ∷ scan) (p, h) = elim (Bool-cases (bytes_eq ap.ssid ssid)) [
    | inl e ↦ rw (e, matching) ((p, e), matching-All room scan h)
    | inr e ↦ rw (e, matching) (matching-All (suc room) scan h)
  ]

drop_second {κ μ} :
    (P : Network → Type κ) (Q : Network → Type μ) (xs : List Network)
    → All (λ ap. P ap × Q ap) xs
    → All P xs
drop_second P Q [] h = tt
drop_second P Q (x ∷ xs) (p, h) = (p.0, drop_second P Q xs h)

pub matching-Distinct :
    (room : ℕ) (ssid : Bytes) (scan : List Network)
    → Distinct scan
    → Distinct (matching room ssid scan)
unfolding matching
matching-Distinct zero ssid scan d = tt
matching-Distinct (suc room) ssid [] d = tt
matching-Distinct (suc room) ssid (ap ∷ scan) (a, d) = elim (Bool-cases (bytes_eq ap.ssid ssid)) [
  | inl e ↦
      rw (e, matching)
        (
          drop_second (λ y. bytes_eq ap.bssid y.bssid ≡ false) (λ y. bytes_eq y.ssid ssid ≡ true)
              (matching room ssid scan)
              (matching-All (λ y. bytes_eq ap.bssid y.bssid ≡ false) ssid room scan a),
          matching-Distinct room ssid scan d,
        )
  | inr e ↦ rw (e, matching) (matching-Distinct (suc room) ssid scan d)
]
