-- ===== src/Boot.antt =====
-- The start of the device and the storing of a new certificate: `decide_mode` and the switch of
-- `setup` in end/arduino/arduino.ino, and `save_device_assets` in end/arduino/stepca.cpp.
pub mod Modes
pub mod Replace
pub mod Save
mod Examples
use gik_view.Prelude.{
  ℕ, ◌+◌, ◌≡◌, Bool, true, false, ◌||◌, not, Option, none, some, List, [], ◌∷◌, Bytes, codes,
  length, ltb, leb, ◌==◌, if◌then◌else◌,
}
use gik_view.Ec.{build_ec_priv_der}
use gik_view.Fs.{
  FileName, bs_cert, dev_cert, dev_chain, dev_key, new_cert, new_chain, new_key, LittleFs, exists,
  read_file, read_exp, save_exp, save_pem,
}

pub data Mode : Type 0 where
  bootstrap : Mode
  renew : Mode
  operational : Mode
  fail : Mode

abbrev pub renew_before_sec : ℕ
renew_before_sec = 604800

-- With a device certificate, on the two times. An expiry of 0 is a missing file.
unfoldable pub by_expiry : Bool → ℕ → ℕ → Mode
by_expiry has_bs now exp =
    if exp == 0
    then operational
    else if leb exp now
    then (if has_bs then bootstrap else fail)
    else if leb exp (now + renew_before_sec)
    then renew
    else operational

unfoldable pub mode_of : Bool → Bool → ℕ → ℕ → Mode
unfolding by_expiry
mode_of has_dev has_bs now exp =
    if has_dev then by_expiry has_bs now exp else if has_bs then bootstrap else fail

-- The steps that put the new files in the place of the old ones.
pub data FsStep : Type 0 where
  removing : FileName → FsStep
  renaming : FileName → FileName → FsStep

abbrev pub replace_steps : List FsStep
replace_steps =
    removing dev_cert
    ∷ renaming new_cert dev_cert
    ∷ removing dev_chain
    ∷ renaming new_chain dev_chain
    ∷ removing dev_key
    ∷ renaming new_key dev_key
    ∷ []

module _ (fs : LittleFs) where
  unfoldable pub decide_mode : ℕ → fs.Files → Mode
  unfolding mode_of
  decide_mode now f = mode_of (exists fs dev_cert f) (exists fs bs_cert f) now (read_exp fs f)

  -- The three files under their new names.
  unfoldable pub write_assets : Bytes → Bytes → Bytes → Bytes → fs.Files → fs.Files
  unfolding save_pem
  write_assets leaf inter priv pub_xy f =
      save_pem fs new_key (codes "EC PRIVATE KEY") (build_ec_priv_der priv pub_xy)
        (fs.write new_chain inter (fs.write new_cert leaf f))

  unfoldable pub run_step : FsStep → fs.Files → fs.Files
  run_step (removing n) f = fs.remove n f
  run_step (renaming from to) f = fs.rename from to f

  unfoldable pub run_steps : List FsStep → fs.Files → fs.Files
  unfolding run_step
  run_steps [] f = f
  run_steps (step ∷ steps) f = run_steps steps (run_step step f)

  unfoldable pub save_device_assets : Bytes → Bytes → Bytes → Bytes → ℕ → fs.Files → Bool × fs.Files
  unfolding write_assets run_steps read_file
  save_device_assets leaf inter priv pub_xy not_after f =
      let written = write_assets leaf inter priv pub_xy f in
      if length (read_file fs new_cert written) == 0 || length (read_file fs new_key written) == 0
      then (false, written)
      else (true, save_exp fs not_after (run_steps replace_steps written))
