-- ===== src/Provision/Files.antt =====
-- What `provision_cert` does to the files.
use gik_view.Prelude.{
  ℕ, ◌≡◌, refl, ap, ◌∙◌, Bool, true, false, none, if◌then◌else◌, Option-cases, inl, inr,
}
use gik_view.Fs.{
  FileName, LittleFs, IsLittleFs, bs_cert, bs_key, dev_cert, exists, read_file, same_file, present,
}
use gik_view.Boot.Save.{is_new, Outcome, kept, replaced, save_device_assets-Outcome}
use gik_view.Boot.Modes.{present-text}
use gik_view.Provision.{
  Device, renew_issue, bootstrap_issue, store, finish_bootstrap, provision_cert,
}

module _ (d : Device) (fs : LittleFs) (laws : IsLittleFs fs) where
  -- What a run may end with, in the renewal or the bootstrap: a failure that touches nothing but
  -- the files that are being written, or a device certificate, without the bootstrap assets after a
  -- bootstrap and with them as they were after a renewal.
  pub data Result (renewing : Bool) (f : fs.Files) : Bool × fs.Files → Type 0 where
    failed :
        (g : fs.Files)
        → ((m : FileName) → is_new m ≡ false → fs.content g m ≡ fs.content f m)
        → Result renewing f (false, g)
    provisioned :
        (g : fs.Files)
        → exists fs dev_cert g ≡ true
        → fs.content g bs_cert ≡ (if renewing then fs.content f bs_cert else none)
        → fs.content g bs_key ≡ (if renewing then fs.content f bs_key else none)
        → Result renewing f (true, g)

  renewed :
      (f : fs.Files) {written : fs.Files} {t : ℕ} {r : Bool × fs.Files}
      → Outcome fs laws f written t r
      → Result true f r
  unfolding read_file
  renewed f (kept h) = failed _ h
  renewed f (replaced g cert chain key shown _ bs bk) =
      provisioned _ (ap present cert ∙ present-text _ shown) bs bk

  pub removed :
      (g : fs.Files) (m : FileName)
      → fs.content (fs.remove bs_key (fs.remove bs_cert g)) m ≡ (
          if same_file bs_key m then none else if same_file bs_cert m then none else fs.content g m)
  removed g m =
      laws.content-remove bs_key (fs.remove bs_cert g) m
      ∙ ap (λ t. if same_file bs_key m then none else t) (laws.content-remove bs_cert g m)

  finished :
      (f : fs.Files) {written : fs.Files} {t : ℕ} {r : Bool × fs.Files}
      → Outcome fs laws f written t r
      → Result false f (finish_bootstrap d fs r)
  unfolding finish_bootstrap same_file read_file
  finished f (kept h) = failed _ h
  finished f (replaced g cert chain key shown _ bs bk) =
      provisioned _ (ap present (removed _ dev_cert ∙ cert) ∙ present-text _ shown)
        (removed _ bs_cert) (removed _ bs_key)

  -- Whatever the key generator, the signer and the server answer, and whatever the flash holds: a
  -- failed run leaves the old certificate, chain, key and expiry and the bootstrap assets as they
  -- were; a run that succeeds leaves a device certificate, and removes the bootstrap assets in a
  -- bootstrap only.
  pub provision_cert-Result :
      (renewing : Bool) (f : fs.Files) → Result renewing f (provision_cert d fs renewing f)
  unfolding provision_cert store
  provision_cert-Result true f = elim (Option-cases (renew_issue d fs f)) [
    | inl n ↦ rw (n, provision_cert) (failed f (λ m e. refl))
    | inr (c, h) ↦
        rw (h, provision_cert) (renewed f (save_device_assets-Outcome fs laws _ _ _ _ _ f))
  ]
  provision_cert-Result false f = elim (Option-cases (bootstrap_issue d fs f)) [
    | inl n ↦ rw (n, provision_cert) (failed f (λ m e. refl))
    | inr (c, h) ↦
        rw (h, provision_cert) (finished f (save_device_assets-Outcome fs laws _ _ _ _ _ f))
  ]
