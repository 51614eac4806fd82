-- ===== src/Sketch/Renewal.antt =====
-- The two places that decide on a renewal, and the retry of a failed one.
use gik_view.Prelude.{
  ℕ, ◌+◌, ◌^◌, ◌<◌, ◌≡◌, refl, Bool, true, false, not, leb, ◌==◌, if◌then◌else◌, arith, Bool-cases,
  inl, inr,
}
use gik_view.Fs.{LittleFs, IsLittleFs, dev_cert, bs_cert, dev_exp, read_exp, read_file}
use gik_view.Boot.{
  Mode, bootstrap, renew, operational, fail, by_expiry, decide_mode, renew_before_sec,
}
use gik_view.Boot.Save.{is_new}
use gik_view.Provision.{Device, provision_cert}
use gik_view.Provision.Files.{Result, failed, provisioned, provision_cert-Result}
use gik_view.Sketch.{renew_due}

abbrev pub is_operational : Mode → Bool
is_operational bootstrap = false
is_operational renew = false
is_operational operational = true
is_operational fail = false

over : (has_bs : Bool) → not (is_operational (if has_bs then bootstrap else fail)) ≡ true
over true = refl
over false = refl

-- For times below 2 ^ 31, a connected device renews exactly when a restart at that time would not
-- choose the mode OPERATIONAL.
pub renew_due-by_expiry :
    (has_bs : Bool) (now exp : ℕ)
    → now < 2 ^ 31
    → exp < 2 ^ 31
    → renew_due true exp now ≡ not (is_operational (by_expiry has_bs now exp))
unfolding renew_due by_expiry
renew_due-by_expiry has_bs now exp n e = elim (Bool-cases (exp == 0)) [
  | inl z ↦ rw z refl
  | inr z ↦ elim (Bool-cases (leb exp now)) [
    | inl p ↦ rw (z, p) (ground (arith, over has_bs))
    | inr p ↦ elim (Bool-cases (leb exp (now + renew_before_sec))) [
      | inl w ↦ rw (z, p, w) (ground arith)
      | inr w ↦ rw (z, p, w) (ground arith)
    ]
  ]
]

module _ (d : Device) (fs : LittleFs) (laws : IsLittleFs fs) where
  -- A failed run of `provision_cert` is retried: the next boot decides as if it had not been.
  pub decide_mode-failed :
      (renewing : Bool) (f : fs.Files) (now : ℕ)
      → (provision_cert d fs renewing f).0 ≡ false
      → decide_mode fs now (provision_cert d fs renewing f).1 ≡ decide_mode fs now f
  unfolding decide_mode read_exp read_file is_new
  decide_mode-failed renewing f now = by_result (provision_cert-Result d fs laws renewing f)
    where
      by_result :
          {r : Bool × fs.Files}
          → Result d fs laws renewing f r
          → r.0 ≡ false
          → decide_mode fs now r.1 ≡ decide_mode fs now f
      by_result (failed g same) e =
          rw (same dev_cert refl, same bs_cert refl, same dev_exp refl) refl
      by_result (provisioned g _ _ _) e = cc
