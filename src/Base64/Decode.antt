-- ===== src/Base64/Decode.antt =====
-- `base64_decode` on any text: one lemma for each way through a round of the loop, and bounds.
use gik_view.Prelude.{
  ℕ, ◌+◌, ◌-◌, ◌*◌, ◌%◌, ◌^◌, ◌≤◌, ◌<◌, ◌≡◌, bit_and, bit_or, none, some, [], ◌∷◌, ◌++◌, Bytes,
  IsByte, length, All, arith, leb, length-snoc, leb→lt, All-append, Bool-cases, Option-cases, inl,
  inr,
}
use gik_view.Prelude.Bits.{shr, shl32, or_disjoint, and_0xff}
use gik_view.Base64.{b64_val, decode_loop, base64_decode}

-- `buf` after a digit `v`, and the byte that is written when `bits` bits stay behind.
abbrev pub pushed : ℕ → ℕ → ℕ
pushed buf v = bit_or (shl32 buf 6) v

abbrev pub emitted : ℕ → ℕ → ℕ → ℕ
emitted buf v bits = bit_and (shr (pushed buf v) bits) 0xff

module _ (c : ℕ) (cs : Bytes) (out_max buf bits : ℕ) (out : Bytes) where
  pub decode_skip :
      b64_val c ≡ none
      → decode_loop (c ∷ cs) out_max buf bits out ≡ decode_loop cs out_max buf bits out
  decode_skip e = unfold decode_loop in rw (e, decode_loop)

  pub decode_keep :
      (v : ℕ)
      → b64_val c ≡ some v
      → bits < 2
      → decode_loop (c ∷ cs) out_max buf bits out
        ≡ decode_loop cs out_max (pushed buf v) (bits + 6) out
  unfolding decode_loop
  decode_keep v e h = rw (e, decode_loop) (ground arith)

  pub decode_emit :
      (v : ℕ)
      → b64_val c ≡ some v
      → 2 ≤ bits
      → length out < out_max
      → decode_loop (c ∷ cs) out_max buf bits out
        ≡ decode_loop cs out_max
            (pushed buf v)
            (bits + 6 - 8)
            (out ++ (emitted buf v (bits + 6 - 8) ∷ []))
  unfolding decode_loop
  decode_emit v e h room = rw (e, decode_loop) (ground arith)

  pub decode_full :
      (v : ℕ)
      → b64_val c ≡ some v
      → 2 ≤ bits
      → out_max ≤ length out
      → decode_loop (c ∷ cs) out_max buf bits out ≡ []
  unfolding decode_loop
  decode_full v e h full = rw (e, decode_loop) (ground arith)

shl32-six : (buf : ℕ) → shl32 buf 6 ≡ buf % 2 ^ 26 * 2 ^ 6
shl32-six buf = omega arith

-- `buf` keeps its last digits in place.
pub pushed_lem : (buf v : ℕ) → v < 64 → pushed buf v ≡ buf % 2 ^ 26 * 2 ^ 6 + v
pushed_lem buf v h = rw (shl32-six buf) (or_disjoint 6 (buf % 2 ^ 26) v h)

-- Every byte written is one, and no more than `out_max` are written, whatever the text.
pub decode_loop_bounds :
    (cs : Bytes) (out_max buf bits : ℕ) (out : Bytes)
    → length out ≤ out_max
    → All IsByte out
    → (length (decode_loop cs out_max buf bits out) ≤ out_max)
      × All IsByte (decode_loop cs out_max buf bits out)
unfolding decode_loop
decode_loop_bounds [] out_max buf bits out h a = (h, a)
decode_loop_bounds (c ∷ cs) out_max buf bits out h a = elim (Option-cases (b64_val c)) [
  | inl e ↦ rw (e, decode_loop) (decode_loop_bounds cs out_max buf bits out h a)
  | inr (v, e) ↦ elim (Bool-cases (leb 8 (bits + 6))) [
    | inl e8 ↦ elim (Bool-cases (leb out_max (length out))) [
      | inl full ↦ rw (e, decode_loop, e8, full) (omega arith, tt)
      | inr room ↦
          rw (e, decode_loop, e8, room)
            (decode_loop_bounds cs out_max _ _ _
              (omega (arith, length-snoc {0} out, leb→lt out_max (length out) room))
              (All-append IsByte out _ a (byte_of _, tt)))
    ]
    | inr e8 ↦ rw (e, decode_loop, e8) (decode_loop_bounds cs out_max _ _ out h a)
  ]
]
  where
    byte_of : (n : ℕ) → bit_and n 0xff < 256
    byte_of n = omega (arith, and_0xff n)

-- `base64_decode` writes at most `out_max` bytes, on every text: the caller's buffer is never
-- overrun.
pub base64_decode_bounds :
    (text : Bytes) (out_max : ℕ)
    → (length (base64_decode text out_max) ≤ out_max) × All IsByte (base64_decode text out_max)
unfolding base64_decode
base64_decode_bounds text out_max = decode_loop_bounds text out_max 0 0 [] (omega arith) tt
