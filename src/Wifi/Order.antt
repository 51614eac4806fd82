-- ===== src/Wifi/Order.antt =====
-- The exchange sort over `order`: a permutation, strongest first.
use gik_view.Prelude.{
  ℕ, zero, suc, ◌≤◌, ◌≡◌, refl, ap, true, false, List, [], ◌∷◌, Bytes, length, All, arith,
  Bool-cases, inl, inr,
}
use gik_view.Prelude.Int.{ℤ, ltb_ℤ, ◌≤ℤ◌, ltb_ℤ-trans, ltb_ℤ-trans_not}
use mathlib.Core.List.{Perm}
use mathlib.Core.List.Perm

-- A network of the scan. An index into the scan's results is the network that stands there.
pub record Network : Type 0 where
  pub ssid : Bytes
  pub bssid : Bytes
  pub rssi : ℤ
  pub channel : ℕ

-- The inner loop: `x` is `order[a]`, the list is the part from `b` on. A swap leaves the old
-- `order[a]` at `b`.
unfoldable pub exchange : Network → List Network → Network × List Network
exchange x [] = (x, [])
exchange x (y ∷ ys) = elim (ltb_ℤ x.rssi y.rssi) [
  | true ↦ ((exchange y ys).0, x ∷ (exchange y ys).1)
  | false ↦ ((exchange x ys).0, y ∷ (exchange x ys).1)
]

-- The outer loop, over the part from `a` on, with the rounds that are left.
unfoldable pub sort_rounds : ℕ → List Network → List Network
unfolding exchange
sort_rounds zero order = order
sort_rounds (suc rounds) [] = []
sort_rounds (suc rounds) (x ∷ xs) = let best = exchange x xs in best.0 ∷ sort_rounds rounds best.1

unfoldable pub sort : List Network → List Network
unfolding sort_rounds
sort order = sort_rounds (length order) order

exchange-perm :
    (x : Network) (xs : List Network) → Perm (x ∷ xs) ((exchange x xs).0 ∷ (exchange x xs).1)
unfolding exchange
exchange-perm x [] = Perm.refl (x ∷ [])
exchange-perm x (y ∷ ys) = elim (Bool-cases (ltb_ℤ x.rssi y.rssi)) [
  | inl e ↦ rw (e, exchange) (Perm.trans (Perm.cons x (exchange-perm y ys)) (Perm.swap _ x _))
  | inr e ↦
      rw (e, exchange)
        (Perm.trans (Perm.swap y x ys)
          (Perm.trans (Perm.cons y (exchange-perm x ys)) (Perm.swap _ y _)))
]

sort_rounds-perm : (rounds : ℕ) (order : List Network) → Perm order (sort_rounds rounds order)
unfolding sort_rounds
sort_rounds-perm zero order = Perm.refl order
sort_rounds-perm (suc rounds) [] = Perm.refl []
sort_rounds-perm (suc rounds) (x ∷ xs) =
    Perm.trans (exchange-perm x xs)
      (Perm.cons (exchange x xs).0 (sort_rounds-perm rounds (exchange x xs).1))

-- Every network is at least as strong as those behind it.
abbrev pub Descending : List Network → Type 0
Descending [] = Unit
Descending (x ∷ xs) = All (λ y. y.rssi ≤ℤ x.rssi) xs × Descending xs

module _ {κ} (P : Network → Type κ) where
  pub exchange-All :
      (x : Network) (xs : List Network)
      → P x
      → All P xs
      → P (exchange x xs).0 × All P (exchange x xs).1
  unfolding exchange
  exchange-All x [] px h = (px, tt)
  exchange-All x (y ∷ ys) px (py, h) = elim (Bool-cases (ltb_ℤ x.rssi y.rssi)) [
    | inl e ↦ rw (e, exchange) ((exchange-All y ys py h).0, (px, (exchange-All y ys py h).1))
    | inr e ↦ rw (e, exchange) ((exchange-All x ys px h).0, (py, (exchange-All x ys px h).1))
  ]

  pub sort_rounds-All :
      (rounds : ℕ) (order : List Network) → All P order → All P (sort_rounds rounds order)
  unfolding sort_rounds
  sort_rounds-All zero order h = h
  sort_rounds-All (suc rounds) [] h = tt
  sort_rounds-All (suc rounds) (x ∷ xs) (px, h) =
      let (pb, rest) = exchange-All x xs px h in (pb, sort_rounds-All rounds (exchange x xs).1 rest)

length-exchange : (x : Network) (xs : List Network) → length (exchange x xs).1 ≡ length xs
unfolding exchange
length-exchange x [] = refl
length-exchange x (y ∷ ys) = elim (Bool-cases (ltb_ℤ x.rssi y.rssi)) [
  | inl e ↦ rw (e, exchange) (ap suc (length-exchange y ys))
  | inr e ↦ rw (e, exchange) (ap suc (length-exchange x ys))
]

-- The network that ends up in front is the strongest.
exchange-strongest :
    (x : Network) (xs : List Network)
    → (x.rssi ≤ℤ (exchange x xs).0.rssi)
      × All (λ y. y.rssi ≤ℤ (exchange x xs).0.rssi) (exchange x xs).1
unfolding exchange
exchange-strongest x [] = (omega arith, tt)
exchange-strongest x (y ∷ ys) = elim (Bool-cases (ltb_ℤ x.rssi y.rssi)) [
  | inl e ↦
      let (front, rest) = exchange-strongest y ys in
      rw (e, exchange)
        (ltb_ℤ-trans x.rssi y.rssi _ e front, (ltb_ℤ-trans x.rssi y.rssi _ e front, rest))
  | inr e ↦
      let (front, rest) = exchange-strongest x ys in
      rw (e, exchange) (front, (ltb_ℤ-trans_not x.rssi y.rssi _ e front, rest))
]

sort_rounds-Descending :
    (rounds : ℕ) (order : List Network)
    → length order ≤ rounds
    → Descending (sort_rounds rounds order)
unfolding sort_rounds
sort_rounds-Descending zero [] h = tt
sort_rounds-Descending zero (x ∷ xs) h = absurd (omega arith)
sort_rounds-Descending (suc rounds) [] h = tt
sort_rounds-Descending (suc rounds) (x ∷ xs) h = (
  sort_rounds-All (λ y. y.rssi ≤ℤ (exchange x xs).0.rssi) rounds (exchange x xs).1
      (exchange-strongest x xs).1,
  sort_rounds-Descending rounds (exchange x xs).1 (omega (arith, length-exchange x xs)),
)

-- The sort loses and adds no network, and puts the strongest signal first.
pub sort-Descending : (order : List Network) → Perm order (sort order) × Descending (sort order)
unfolding sort
sort-Descending order = (
  sort_rounds-perm (length order) order,
  sort_rounds-Descending (length order) order (omega arith),
)
