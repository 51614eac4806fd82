-- ===== src/Wifi/Connect.antt =====
-- What a run of the rotation ends with.
use gik_view.Prelude.{
  ℕ, suc, ◌+◌, ◌≡◌, refl, ap, sym, ◌∙◌, ◌⊎◌, inl, inr, Bool, true, false, ◌&&◌, ◌||◌, Option, none,
  some, List, [], ◌∷◌, ◌++◌, Bytes, length, drop, All, arith, if◌then◌else◌, Bool-cases, All-front,
}
use gik_view.Wifi.Blacklist.{bytes_eq, Store, bl_has, bl_add}
use gik_view.Wifi.Blacklist.View.{
  IsValid, entries, contains, last_eight, bytes_eq_sound, bl_has-entries, bl_add-entries,
}
use gik_view.Wifi.Blacklist.Lookup.{bl_has-bl_add}
use gik_view.Wifi.Order.{Network}
use gik_view.Wifi.{Radio, Endpoint, associates, probe_emqx, rotate}
pub mod Distinct

-- No two networks have one address.
abbrev pub Distinct : List Network → Type 0
Distinct [] = Unit
Distinct (x ∷ xs) = All (λ y. bytes_eq x.bssid y.bssid ≡ false) xs × Distinct xs

module _ (radio : Radio) (endpoints : List Endpoint) where
  -- The network can be associated with, and an EMQX endpoint answers behind it.
  unfoldable pub usable : Network → Bool
  usable ap = associates radio ap && probe_emqx radio endpoints ap

  -- Why the rotation goes past a network: it was on the blacklist, or it is of no use.
  abbrev pub Passed : Store → Network → Type 0
  Passed s ap = (bl_has ap.bssid s ≡ true) ⊎ (usable ap ≡ false)

  -- What a run over `order` that starts with the blacklist of `now` may end with, where `s` is the
  -- one that the networks are excused by. The network that is locked to is not on the blacklist
  -- when its turn comes, behind the addresses that the rotation over the ones in front has added.
  pub data Outcome (s now : Store) (order : List Network) : Option Network → Type 0 where
    nothing : All (Passed s) order → Outcome s now order none
    locked :
        (front : List Network) (ap : Network) (back : List Network)
        → order ≡ front ++ (ap ∷ back)
        → All (Passed s) front
        → bl_has ap.bssid (rotate radio endpoints front now).1 ≡ false
        → usable ap ≡ true
        → Outcome s now order (some ap)

  Passed-weaken :
      (m : Bytes) (s : Store) (aps : List Network)
      → IsValid s.s_bl
      → All (λ y. bytes_eq m y.bssid ≡ false) aps
      → All (Passed (bl_add m s)) aps
      → All (Passed s) aps
  Passed-weaken m s [] v d h = tt
  Passed-weaken m s (a ∷ aps) v (da, d) (inl listed, h) =
      (inl (bl_has-bl_add m a.bssid s v da listed), Passed-weaken m s aps v d h)
  Passed-weaken m s (a ∷ aps) v (da, d) (inr useless, h) =
      (inr useless, Passed-weaken m s aps v d h)

  -- One more network in front, which was passed.
  pass :
      (s now after : Store) (ap : Network) (aps : List Network) {r : Option Network}
      → Passed s ap
      → ((front : List Network)
          → (rotate radio endpoints (ap ∷ front) now).1 ≡ (rotate radio endpoints front after).1)
      → Outcome s after aps r
      → Outcome s now (ap ∷ aps) r
  pass s now after ap aps p step (nothing h) = nothing (p, h)
  pass s now after ap aps p step (locked front x back e h free u) =
      locked (ap ∷ front) x back (cc) (p, h) (rw (step front) free) u

  weaken :
      (m : Bytes) (s now : Store) (aps : List Network) {r : Option Network}
      → IsValid s.s_bl
      → All (λ y. bytes_eq m y.bssid ≡ false) aps
      → Outcome (bl_add m s) now aps r
      → Outcome s now aps r
  weaken m s now aps v d (nothing h) = nothing (Passed-weaken m s aps v d h)
  weaken m s now aps v d (locked front x back e h free u) =
      locked front x back e
        (Passed-weaken m s front v
          (All-front (λ y. bytes_eq m y.bssid ≡ false) front (x ∷ back) (rw e at d)) h)
        free u

  -- The rotation locks to a usable network behind networks that are all of no use or were listed
  -- at the start, and that is not on the blacklist when its turn comes; or it passes all of them.
  pub rotate-Outcome :
      (order : List Network) (s : Store)
      → IsValid s.s_bl
      → Distinct order
      → Outcome s s order (rotate radio endpoints order s).0
        × IsValid (rotate radio endpoints order s).1.s_bl
  unfolding rotate usable
  rotate-Outcome [] s v d = (nothing tt, v)
  rotate-Outcome (ap ∷ aps) s v (da, d) = elim (Bool-cases (bl_has ap.bssid s)) [
    | inl e ↦
        let (o, w) = rotate-Outcome aps s v d in
        rw (e, rotate) (pass s s s ap aps (inl e) (λ front. rw (rotate, e) refl) o, w)
    | inr e ↦ elim (Bool-cases (associates radio ap)) [
      | inr ea ↦
          let (o, w) = rotate-Outcome aps s v d in
          rw (e, rotate, ea)
            (pass s s s ap aps (inr (rw ea)) (λ front. rw (rotate, e, ea) refl) o, w)
      | inl ea ↦ elim (Bool-cases (probe_emqx radio endpoints ap)) [
        | inl ep ↦ rw (e, rotate, ea, ep) (locked [] ap aps refl tt e (rw (ea, ep)), v)
        | inr ep ↦
            let v' = (bl_add-entries ap.bssid s v).1 in
            let (o, w) = rotate-Outcome aps (bl_add ap.bssid s) v' d in
            rw (e, rotate, ea, ep)
              (
                pass s s (bl_add ap.bssid s) ap aps (inr (rw (ea, ep)))
                    (λ front. rw (rotate, e, ea, ep) refl)
                    (weaken ap.bssid s (bl_add ap.bssid s) aps v da o),
                w,
              )
      ]
    ]
  ]
