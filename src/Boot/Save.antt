-- ===== src/Boot/Save.antt =====
-- What `save_device_assets` leaves on the flash, and the mode of the next boot.
use gik_view.Prelude.{
  ℕ, ◌≡◌, refl, ◌∙◌, Bool, true, false, Bytes, leb, ◌==◌, arith, Bool-cases, inl, inr, length,
}
use gik_view.Fs.{
  file_id, FileName, bs_cert, bs_key, dev_cert, dev_chain, dev_key, dev_exp, new_cert, new_chain,
  new_key, LittleFs, IsLittleFs, same_file, read_file, save_exp, save_pem, print_ulong,
}
use gik_view.Boot.{replace_steps, run_steps, write_assets, save_device_assets}
use gik_view.Boot.Replace.{after, after_step, at_cut}

-- The files that are still being written.
unfoldable pub is_new : FileName → Bool
unfolding file_id
is_new n = leb 7 (file_id n)

module _ (fs : LittleFs) (laws : IsLittleFs fs) where
  content-write_other :
      (n : FileName) (text : Bytes) (f : fs.Files) (m : FileName)
      → same_file n m ≡ false
      → fs.content (fs.write n text f) m ≡ fs.content f m
  content-write_other n text f m e = laws.content-write n text f m ∙ rw e refl

  other_name : (n m : FileName) → is_new n ≡ true → is_new m ≡ false → same_file n m ≡ false
  unfolding is_new same_file
  other_name n m e h = ground arith

  -- What a run of `save_device_assets` may end with, from the files `f` and with the new files
  -- `written`: nothing but the new files was touched; or the device's files hold what was written,
  -- its expiry was saved, and the assets for bootstrapping are as they were.
  pub data Outcome (f written : fs.Files) (not_after : ℕ) : Bool × fs.Files → Type 0 where
    kept :
        ((m : FileName) → is_new m ≡ false → fs.content written m ≡ fs.content f m)
        → Outcome f written not_after (false, written)
    replaced :
        (g : fs.Files)
        → fs.content (save_exp fs not_after g) dev_cert ≡ fs.content written new_cert
        → fs.content (save_exp fs not_after g) dev_chain ≡ fs.content written new_chain
        → fs.content (save_exp fs not_after g) dev_key ≡ fs.content written new_key
        → (length (read_file fs new_cert written) == 0) ≡ false
        → (length (read_file fs new_key written) == 0) ≡ false
        → fs.content (save_exp fs not_after g) bs_cert ≡ fs.content f bs_cert
        → fs.content (save_exp fs not_after g) bs_key ≡ fs.content f bs_key
        → Outcome f written not_after (true, save_exp fs not_after g)

  module _ (leaf inter priv pub_xy : Bytes) (not_after : ℕ) (f : fs.Files) where
    abbrev written : fs.Files
    written = write_assets fs leaf inter priv pub_xy f

    abbrev swapped : fs.Files
    swapped = run_steps fs replace_steps written

    written_other : (m : FileName) → is_new m ≡ false → fs.content written m ≡ fs.content f m
    unfolding write_assets save_pem is_new
    written_other m e =
        content-write_other new_key _ _ m (other_name new_key m refl e)
        ∙ content-write_other new_chain _ _ m (other_name new_chain m refl e)
        ∙ content-write_other new_cert _ _ m (other_name new_cert m refl e)

    swapped_view :
        (m : FileName) → fs.content swapped m ≡ after replace_steps (fs.content written) m
    swapped_view m = at_cut fs laws 6 written m

    saved_other :
        (m : FileName)
        → same_file dev_exp m ≡ false
        → fs.content (save_exp fs not_after swapped) m ≡ after replace_steps (fs.content written) m
    unfolding save_exp
    saved_other m e =
        content-write_other dev_exp (print_ulong not_after) swapped m e ∙ swapped_view m

    -- Either nothing but the new files was touched, because the new certificate or key is empty on
    -- the flash; or the device's files hold what was written, and the bootstrap assets are left.
    pub save_device_assets-Outcome :
        Outcome f written not_after (save_device_assets fs leaf inter priv pub_xy not_after f)
    unfolding save_device_assets after after_step same_file is_new
    save_device_assets-Outcome = elim (Bool-cases (length (read_file fs new_cert written) == 0)) [
      | inl e ↦ rw e (kept written_other)
      | inr e ↦ elim (Bool-cases (length (read_file fs new_key written) == 0)) [
        | inl ek ↦ rw (e, ek) (kept written_other)
        | inr ek ↦
            rw (e, ek)
              (replaced swapped (saved_other dev_cert refl) (saved_other dev_chain refl)
                (saved_other dev_key refl) e ek
                (saved_other bs_cert refl ∙ written_other bs_cert refl)
                (saved_other bs_key refl ∙ written_other bs_key refl))
      ]
    ]
