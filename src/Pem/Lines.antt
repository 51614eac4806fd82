-- ===== src/Pem/Lines.antt =====
-- What the 64-column lines of a PEM block hold.
use gik_view.Prelude.{
  ℕ, zero, suc, ◌+◌, ◌-◌, ◌≤◌, ◌<◌, ◌≡◌, refl, ap, ◌∙◌, ◌≢◌, false, [], ◌∷◌, ◌++◌, Bytes, length,
  take, drop, All, arith, All-append, All-take, All-drop, take-append-drop, length-take,
  length-drop,
}
use gik_view.Pem.{newline, lines, is_blank, strip}

-- A character of the Base64 text: neither white space nor the dash of the markers.
abbrev pub IsPlain : ℕ → Type 0
IsPlain c = (is_blank c ≡ false) × (c ≢ b'-')

-- Text without blanks is copied as it stands, as far as there is room.
strip-append :
    (room : ℕ) (front text : Bytes) (left : ℕ)
    → All IsPlain front
    → length front + left ≡ room
    → strip room (front ++ text) ≡ front ++ strip left text
unfolding strip
strip-append room [] text left h e = ap (λ (r : ℕ). strip r text) (omega arith)
strip-append zero (c ∷ front) text left h e = absurd (omega arith)
strip-append (suc room) (c ∷ front) text left ((hc, _), h) e =
    rw (hc, strip) (ap (◌∷◌ c) (strip-append room front text left h (omega arith)))

-- A newline is dropped.
strip-newline :
    (room : ℕ) (text : Bytes) → strip (suc room) (newline ∷ text) ≡ strip (suc room) text
unfolding strip
strip-newline room text = refl

-- Stripping undoes the lines, if a round is made for each character and room is left.
pub strip-lines :
    (rounds : ℕ) (b64 : Bytes) (room : ℕ)
    → All IsPlain b64
    → length b64 ≤ rounds
    → length b64 < room
    → strip room (lines rounds b64) ≡ b64
unfolding lines
strip-lines zero [] room h hr hf = unfold strip in refl
strip-lines zero (c ∷ b64) room h hr hf = absurd (omega arith)
strip-lines (suc rounds) [] room h hr hf = unfold strip in refl
strip-lines (suc rounds) (c ∷ b64) room h hr hf =
    strip-append room (take 64 text) _ (suc left) (All-take IsPlain 64 text h)
      (omega (arith, length-take {0} 64 text))
    ∙ ap (◌++◌ (take 64 text)) (
        strip-newline left _
        ∙ strip-lines rounds (drop 64 text) (suc left) (All-drop IsPlain 64 text h)
            (omega (arith, length-drop {0} 64 text))
            (omega (arith, length-drop {0} 64 text, length-take {0} 64 text)))
    ∙ take-append-drop 64 text
  where
    text : Bytes
    text = c ∷ b64

    left : ℕ
    left = room - length (take 64 text) - 1

-- The lines hold no dash, so no marker either.
pub lines-Lacks :
    (rounds : ℕ) (b64 : Bytes) → All IsPlain b64 → All (λ x. x ≢ b'-') (lines rounds b64)
unfolding lines
lines-Lacks zero b64 h = tt
lines-Lacks (suc rounds) [] h = tt
lines-Lacks (suc rounds) (c ∷ b64) h =
    All-append (λ x. x ≢ b'-') (take 64 (c ∷ b64)) _
      (weaken (take 64 (c ∷ b64)) (All-take IsPlain 64 (c ∷ b64) h))
      (
        (λ e. absurd (omega arith)),
        lines-Lacks rounds (drop 64 (c ∷ b64)) (All-drop IsPlain 64 (c ∷ b64) h),
      )
  where
    weaken : (xs : Bytes) → All IsPlain xs → All (λ x. x ≢ b'-') xs
    weaken [] a = tt
    weaken (x ∷ xs) ((_, hx), a) = (hx, weaken xs a)
