-- ===== src/Boot/Replace.antt =====
-- The replacement of the device's files, and a power cut between its steps.
use gik_view.Prelude.{
  ℕ, zero, suc, ◌+◌, ◌≡◌, refl, ap, ◌∙◌, Option, none, List, [], ◌∷◌, Bytes, take, leb,
  if◌then◌else◌, arith,
}
use gik_view.Fs.{
  FileName, dev_cert, dev_chain, dev_key, new_cert, new_chain, new_key, LittleFs, IsLittleFs,
  same_file,
}
use gik_view.Boot.{FsStep, removing, renaming, replace_steps, run_step, run_steps}

abbrev pub View : Type 0
View = FileName → Option Bytes

-- The steps on what the files hold.
unfoldable pub after_step : FsStep → View → View
unfolding same_file
after_step (removing n) g m = if same_file n m then none else g m
after_step (renaming a b) g m = if same_file b m then g a else if same_file a m then none else g m

unfoldable pub after : List FsStep → View → View
unfolding after_step
after [] g = g
after (step ∷ steps) g = after steps (after_step step g)

-- A file is only moved to a name that is free.
abbrev Free : FsStep → View → Type 0
Free (removing n) g = Unit
Free (renaming a b) g = g b ≡ none

abbrev AllFree : List FsStep → View → Type 0
AllFree [] g = Unit
AllFree (step ∷ steps) g = Free step g × AllFree steps (after_step step g)

-- A file whose removal is step `first` (from 0), after `n` steps.
unfoldable pub phase : ℕ → ℕ → Option Bytes → Option Bytes → Option Bytes
phase first n old new = if leb n first then old else if leb n (first + 1) then none else new

-- What the three files hold after `n` steps from `g`.
abbrev pub AtCut : ℕ → View → View → Type 0
AtCut n g h =
    (h dev_cert ≡ phase 0 n (g dev_cert) (g new_cert))
    × ((h dev_chain ≡ phase 2 n (g dev_chain) (g new_chain))
        × (h dev_key ≡ phase 4 n (g dev_key) (g new_key)))

module _ (fs : LittleFs) (laws : IsLittleFs fs) where
  content-run_step :
      (step : FsStep) (f : fs.Files) (g : View)
      → ((m : FileName) → fs.content f m ≡ g m)
      → Free step g
      → (m : FileName) → fs.content (run_step fs step f) m ≡ after_step step g m
  unfolding run_step after_step
  content-run_step (removing n) f g e free m =
      laws.content-remove n f m ∙ ap (λ t. if same_file n m then none else t) (e m)
  content-run_step (renaming a b) f g e free m =
      laws.content-rename a b f m (e b ∙ free)
      ∙ ap (λ t. if same_file b m then t else if same_file a m then none else fs.content f m) (e a)
      ∙ ap (λ t. if same_file b m then g a else if same_file a m then none else t) (e m)

  content-run_steps :
      (steps : List FsStep) (f : fs.Files) (g : View)
      → ((m : FileName) → fs.content f m ≡ g m)
      → AllFree steps g
      → (m : FileName) → fs.content (run_steps fs steps f) m ≡ after steps g m
  unfolding run_steps after
  content-run_steps [] f g e free m = e m
  content-run_steps (step ∷ steps) f g e (free, frees) m =
      content-run_steps steps (run_step fs step f) (after_step step g)
        (content-run_step step f g e free) frees m

  cut_free : (n : ℕ) (g : View) → AllFree (take n replace_steps) g
  unfolding after_step
  cut_free zero g = tt
  cut_free (suc zero) g = (tt, tt)
  cut_free (suc (suc zero)) g = (tt, (refl, tt))
  cut_free (suc (suc (suc zero))) g = (tt, (refl, (tt, tt)))
  cut_free (suc (suc (suc (suc zero)))) g = (tt, (refl, (tt, (refl, tt))))
  cut_free (suc (suc (suc (suc (suc zero))))) g = (tt, (refl, (tt, (refl, (tt, tt)))))
  cut_free (suc (suc (suc (suc (suc (suc zero)))))) g = (tt, (refl, (tt, (refl, (tt, (refl, tt))))))
  cut_free (suc (suc (suc (suc (suc (suc (suc n))))))) g =
      (tt, (refl, (tt, (refl, (tt, (refl, tt))))))

  pub at_cut :
      (n : ℕ) (f : fs.Files) (m : FileName)
      → fs.content (run_steps fs (take n replace_steps) f) m
        ≡ after (take n replace_steps) (fs.content f) m
  at_cut n f m =
      content-run_steps (take n replace_steps) f (fs.content f) (λ _. refl)
        (cut_free n (fs.content f)) m

  view-AtCut : (n : ℕ) (g : View) → AtCut n g (after (take n replace_steps) g)
  unfolding after after_step phase
  view-AtCut zero g = (refl, (refl, refl))
  view-AtCut (suc zero) g = (refl, (refl, refl))
  view-AtCut (suc (suc zero)) g = (refl, (refl, refl))
  view-AtCut (suc (suc (suc zero))) g = (refl, (refl, refl))
  view-AtCut (suc (suc (suc (suc zero)))) g = (refl, (refl, refl))
  view-AtCut (suc (suc (suc (suc (suc zero))))) g = (refl, (refl, refl))
  view-AtCut (suc (suc (suc (suc (suc (suc zero)))))) g = (refl, (refl, refl))
  view-AtCut (suc (suc (suc (suc (suc (suc (suc n))))))) g =
      (ground arith, (ground arith, ground arith))

  -- A power cut after `n` of the six steps: the certificate, the chain and the key each change from
  -- the old content to nothing, and one step later to the new content, in this order.
  pub replace_steps-cut :
      (n : ℕ) (f : fs.Files)
      → AtCut n (fs.content f) (fs.content (run_steps fs (take n replace_steps) f))
  replace_steps-cut n f =
      let (c, (h, k)) = view-AtCut n (fs.content f) in
      (at_cut n f dev_cert ∙ c, (at_cut n f dev_chain ∙ h, at_cut n f dev_key ∙ k))
