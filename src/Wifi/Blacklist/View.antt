-- ===== src/Wifi/Blacklist/View.antt =====
-- The blacklist as a list of addresses, oldest first, that keeps the last eight.
use gik_view.Prelude.{
  ℕ, zero, suc, ◌+◌, ◌-◌, ◌≤◌, ◌<◌, ◌≡◌, refl, ap, ◌∙◌, Bool, true, false, List, [], ◌∷◌, ◌++◌,
  Bytes, length, take, drop, set, arith, ltb, ==_refl, if◌then◌else◌, Bool-cases, inl, inr, ltb→lt,
  ltb→le, length-append, length-snoc, length-take, length-drop, length-set, take-append, ◌≢◌, ◌⊎◌,
  take-set-suc, take_all,
}
use native.Mathlib.Numerals.{add-one}
use gik_view.Wifi.Blacklist.{
  rtc_magic, bl_cap, bytes_eq, Bl, Store, bl_load, bl_save, listed, bl_has, shift_slots, bl_push,
  bl_add,
}

abbrev pub entries : Store → List Bytes
entries s = take s.s_bl.count s.s_bl.mac

pub record IsValid (b : Bl) : Type 0 where
  pub magic_ok : b.magic ≡ rtc_magic
  pub count_ok : b.count ≤ bl_cap
  pub size : length b.mac ≡ bl_cap

abbrev pub last_eight : List Bytes → List Bytes
last_eight xs = drop (length xs - bl_cap) xs

unfoldable pub contains : List Bytes → Bytes → Bool
contains [] mac = false
contains (m ∷ ms) mac = if bytes_eq m mac then true else contains ms mac

pub bytes_eq_refl : (m : Bytes) → bytes_eq m m ≡ true
unfolding bytes_eq
bytes_eq_refl [] = refl
bytes_eq_refl (x ∷ xs) = rw (==_refl x, bytes_eq_refl xs)

pub bytes_eq_sound : (m n : Bytes) → bytes_eq m n ≡ true → m ≡ n
unfolding bytes_eq
bytes_eq_sound [] [] e = refl
bytes_eq_sound [] (y ∷ ys) e = cc
bytes_eq_sound (x ∷ xs) [] e = cc
bytes_eq_sound (x ∷ xs) (y ∷ ys) e = ground (arith, bytes_eq_sound xs ys)

listed-contains :
    (count : ℕ) (slots : List Bytes) (mac : Bytes)
    → listed count slots mac ≡ contains (take count slots) mac
unfolding listed contains
listed-contains zero slots mac = refl
listed-contains (suc count) [] mac = refl
listed-contains (suc count) (m ∷ slots) mac = rw (listed-contains count slots mac)

pub bl_has-entries : (mac : Bytes) (s : Store) → bl_has mac s ≡ contains (entries s) mac
unfolding bl_has
bl_has-entries mac s = listed-contains s.s_bl.count s.s_bl.mac mac

pub contains_snoc : (ms : List Bytes) (mac : Bytes) → contains (ms ++ (mac ∷ [])) mac ≡ true
unfolding contains
contains_snoc [] mac = rw (bytes_eq_refl mac)
contains_snoc (m ∷ ms) mac = ground (arith, contains_snoc ms mac)

-- The eight places shifted by one, with `mac` in the last.
shifted :
    (slots : List Bytes) (mac : Bytes)
    → length slots ≡ 8
    → take 8 (set (shift_slots slots) 7 mac) ≡ drop 1 (slots ++ (mac ∷ []))
unfolding shift_slots
shifted [] mac e = absurd (omega arith)
shifted (x ∷ xs) mac e =
    take-set-suc (take 7 xs ++ drop 6 xs) 7 mac (
      omega (
        arith,
        length-append {0} (take 7 xs) (drop 6 xs),
        length-take {0} 7 xs,
        length-drop {0} 6 xs,
      ))
    ∙ ap (λ (t : List Bytes). t ++ (mac ∷ []))
        (take-append 7 (take 7 xs) (drop 6 xs) (omega (arith, length-take {0} 7 xs))
          ∙ take_all 7 xs (omega arith))

bl_push_room :
    (mac : Bytes) (b : Bl)
    → IsValid b
    → b.count < 8
    → take (b.count + 1) (set b.mac b.count mac) ≡ last_eight (take b.count b.mac ++ (mac ∷ []))
bl_push_room mac b v h = rw (add-one, few) (take-set-suc b.mac b.count mac (omega (arith, v.size)))
  where
    few : length (take b.count b.mac ++ (mac ∷ [])) - bl_cap ≡ 0
    few =
        omega
          (arith, length-snoc {0} (take b.count b.mac) mac, length-take {0} b.count b.mac, v.size)

bl_push_full :
    (mac : Bytes) (b : Bl)
    → IsValid b
    → b.count ≡ 8
    → take b.count (set (shift_slots b.mac) 7 mac) ≡ last_eight (take b.count b.mac ++ (mac ∷ []))
bl_push_full mac b v e =
    rw (e, take_all 8 b.mac (omega (arith, v.size)), one) (shifted b.mac mac v.size)
  where
    one : length (b.mac ++ (mac ∷ [])) - bl_cap ≡ 1
    one = omega (arith, length-snoc {0} b.mac mac, v.size)

bl_push-entries :
    (mac : Bytes) (b : Bl)
    → IsValid b
    → take (bl_push mac b).count (bl_push mac b).mac ≡ last_eight (take b.count b.mac ++ (mac ∷ []))
unfolding bl_push
bl_push-entries mac b v = elim (Bool-cases (ltb b.count bl_cap)) [
  | inl e ↦ rw e (bl_push_room mac b v (ltb→lt b.count 8 e))
  | inr e ↦ rw e (bl_push_full mac b v (omega (arith, v.count_ok, ltb→le b.count 8 e)))
]

length-shift_slots : (slots : List Bytes) → length slots ≡ 8 → length (shift_slots slots) ≡ 8
unfolding shift_slots
length-shift_slots slots e = omega (
  arith,
  length-append {0} (take 7 (drop 1 slots)) (drop 7 slots),
  length-take {0} 7 (drop 1 slots),
  length-drop {0} 1 slots,
  length-drop {0} 7 slots,
)

bl_push-IsValid : (mac : Bytes) (b : Bl) → IsValid b → IsValid (bl_push mac b)
unfolding bl_push
bl_push-IsValid mac b v = ground (
  arith,
  length-set b.mac b.count mac,
  length-set (shift_slots b.mac) 7 mac,
  length-shift_slots b.mac v.size,
)

-- In a valid block, an address that is not listed is appended, and the oldest is dropped when the
-- eight places are in use; a listed one changes nothing. What was appended is saved.
pub bl_add-entries :
    (mac : Bytes) (s : Store)
    → IsValid s.s_bl
    → (entries (bl_add mac s)
        ≡ (if bl_has mac s then entries s else last_eight (entries s ++ (mac ∷ []))))
      × IsValid (bl_add mac s).s_bl
      × ((bl_has mac s ≡ false) → (bl_add mac s).rtc ≡ (bl_add mac s).s_bl)
unfolding bl_add bl_save
bl_add-entries mac s v = elim (Bool-cases (bl_has mac s)) [
  | inl e ↦ rw e (refl, v, λ f. cc)
  | inr e ↦ rw e (bl_push-entries mac s.s_bl v, bl_push-IsValid mac s.s_bl v, λ _. refl)
]

-- Loading: a block that is not ours, or is damaged, gives the empty list; a good one is taken over.
pub bl_load-entries :
    (s : Store)
    → length s.rtc.mac ≡ bl_cap
    → IsValid (bl_load s).s_bl
      × (IsValid s.rtc → entries (bl_load s) ≡ take s.rtc.count s.rtc.mac)
      × ((s.rtc.magic ≢ rtc_magic) ⊎ (bl_cap < s.rtc.count) → entries (bl_load s) ≡ [])
unfolding bl_load
bl_load-entries s e = (ground arith, λ v. ground arith, λ h. ground arith)
