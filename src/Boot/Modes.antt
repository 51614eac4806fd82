-- ===== src/Boot/Modes.antt =====
-- Which mode the device starts in, after a certificate was stored or a power cut.
use gik_view.Prelude.{
  ℕ, ◌≡◌, refl, ◌∙◌, ap, ◌<◌, ◌^◌, Bool, true, false, Option, none, some, take, Bytes, length, ◌==◌,
}
use gik_view.Fs.{
  dev_cert, bs_cert, dev_exp, LittleFs, IsLittleFs, present, text_of, exists, read_file,
  print_ulong, same_file,
}
use gik_view.Fs.Expiry.{read_exp-save_exp}
use gik_view.Boot.{
  fail, mode_of, by_expiry, decide_mode, replace_steps, run_steps, save_device_assets, write_assets,
}
use gik_view.Boot.Replace.{at_cut, after, after_step}
use gik_view.Boot.Save.{Outcome, kept, replaced, save_device_assets-Outcome}

pub present-text : (o : Option Bytes) → (length (text_of o) == 0) ≡ false → present o ≡ true
present-text none e = cc
present-text (some text) e = refl

pub mode_of-present :
    (now : ℕ) {dev bs b : Bool} {e exp : ℕ}
    → dev ≡ true
    → bs ≡ b
    → e ≡ exp
    → mode_of dev bs now e ≡ by_expiry b now exp
unfolding mode_of
mode_of-present now d h x = rw (d, h, x) refl

module _ (fs : LittleFs) (laws : IsLittleFs fs) where
  module _ (leaf inter priv pub_xy : Bytes) (not_after now : ℕ) (f : fs.Files) where
    abbrev pub next : Bool × fs.Files
    next = save_device_assets fs leaf inter priv pub_xy not_after f

    -- The text of the expiry fits on the flash, at any state of the files.
    abbrev pub ExpiryFits : Type 0
    ExpiryFits =
        (g : fs.Files) → fs.stored g dev_exp (print_ulong not_after) ≡ some (print_ulong not_after)

    -- If the certificate was stored, and its expiry, below 2 ^ 32, fits on the flash, then the next
    -- boot decides by that expiry alone.
    pub decide_mode-saved :
        not_after < 2 ^ 32
        → ExpiryFits
        → next.0 ≡ true
        → decide_mode fs now next.1 ≡ by_expiry (exists fs bs_cert f) now not_after
    unfolding decide_mode read_file
    decide_mode-saved small fits =
        by_outcome (save_device_assets-Outcome fs laws leaf inter priv pub_xy not_after f)
      where
        by_outcome :
            {r : Bool × fs.Files}
            → Outcome fs laws f (write_assets fs leaf inter priv pub_xy f) not_after r
            → r.0 ≡ true
            → decide_mode fs now r.1 ≡ by_expiry (exists fs bs_cert f) now not_after
        by_outcome (kept h) e = cc
        by_outcome (replaced g cert chain key shown _ bs _) e =
            mode_of-present now (ap present cert ∙ present-text _ shown) (ap present bs)
              (read_exp-save_exp fs laws not_after g small (fits g))

  -- A power cut behind the first step leaves no device certificate: without the bootstrap
  -- certificate, which a finished bootstrap has removed, every later boot ends in the mode FAIL.
  pub decide_mode-cut :
      (f : fs.Files) (now : ℕ)
      → fs.content f bs_cert ≡ none
      → decide_mode fs now (run_steps fs (take 1 replace_steps) f) ≡ fail
  unfolding decide_mode mode_of after after_step same_file
  decide_mode-cut f now none_left =
      rw (at_cut fs laws 1 f dev_cert, at_cut fs laws 1 f bs_cert, none_left) refl
