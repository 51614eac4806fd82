-- ===== src/Wifi/Blacklist/Lookup.antt =====
-- What a change of the list means for the addresses that it is asked for.
use gik_view.Prelude.{
  ℕ, zero, suc, ◌-◌, ◌≡◌, true, false, ◌||◌, List, [], ◌∷◌, ◌++◌, Bytes, length, drop, arith,
  Bool-cases, inl, inr,
}
use gik_view.Wifi.Blacklist.{bytes_eq, Store, bl_has, bl_add, bl_cap}
use gik_view.Wifi.Blacklist.View.{
  IsValid, entries, contains, last_eight, bl_has-entries, bl_add-entries,
}

contains-drop :
    (n : ℕ) (ms : List Bytes) (a : Bytes) → contains (drop n ms) a ≡ true → contains ms a ≡ true
unfolding contains
contains-drop zero ms a h = h
contains-drop (suc n) [] a h = h
contains-drop (suc n) (m ∷ ms) a h = ground (arith, contains-drop n ms a h)

contains-append :
    (ms : List Bytes) (m a : Bytes) → contains (ms ++ (m ∷ [])) a ≡ (contains ms a || bytes_eq m a)
unfolding contains
contains-append [] m a = ground arith
contains-append (x ∷ ms) m a = ground (arith, contains-append ms m a)

-- An addition lists no other address.
pub bl_has-bl_add :
    (m a : Bytes) (s : Store)
    → IsValid s.s_bl
    → bytes_eq m a ≡ false
    → bl_has a (bl_add m s) ≡ true
    → bl_has a s ≡ true
bl_has-bl_add m a s v ne h = elim (Bool-cases (bl_has m s)) [
  | inl e ↦ rw (bl_has-entries, same e, ← bl_has-entries a s) at h
  | inr e ↦ rw (bl_has-entries a s) (
      ground (
        arith,
        contains-drop (length (entries s ++ (m ∷ [])) - bl_cap) (entries s ++ (m ∷ [])) a
            (rw (bl_has-entries, added e) at h),
        contains-append (entries s) m a,
      ))
]
  where
    same : bl_has m s ≡ true → entries (bl_add m s) ≡ entries s
    same e = rw e at (bl_add-entries m s v).0

    added : bl_has m s ≡ false → entries (bl_add m s) ≡ last_eight (entries s ++ (m ∷ []))
    added e = rw e at (bl_add-entries m s v).0
