-- ===== src/Base64/Overflow.antt =====
-- What `base64_decode` answers when the encoded bytes do not fit `out_max`.
use gik_view.Prelude.{
  ℕ, ◌+◌, ◌≤◌, ◌<◌, ◌≡◌, ◌∙◌, Bool, [], ◌∷◌, ◌++◌, Bytes, IsByte, length, All, get_or, arith,
  length-append, length-snoc,
}
use native.Mathlib.Decide.{dec_lt}
use gik_view.Base64.{group_three, b64_encode_impl, decode_loop}
use gik_view.Base64.Alphabet.{IsAlphabet}
use gik_view.Base64.Decode.{pushed, decode_keep, decode_full}
use gik_view.Base64.Encode.{d0, d1, d2, d3, group_three-digits, group_two-digits, group_one-digits}
use gik_view.Base64.RoundTrip.{decode_two, decode_third, decode_group}

module _ (abc : Bytes) (alphabet : IsAlphabet abc) (rest : Bytes) (m buf : ℕ) (out : Bytes) where
  -- No room for the first byte of a group.
  full_first :
      (a b : ℕ)
      → a < 256
      → b < 256
      → m ≤ length out
      → decode_loop (get_or abc (d0 a) 0 ∷ get_or abc (d1 a b) 0 ∷ rest) m buf 0 out ≡ []
  full_first a b ha hb full =
      decode_keep _ _ m buf 0 out (d0 a) (alphabet (d0 a) (omega arith)) (omega arith)
      ∙ decode_full _ rest m (pushed buf (d0 a)) 6 out (d1 a b) (alphabet (d1 a b) (omega arith))
          (omega arith) full

module _ (abc : Bytes) (alphabet : IsAlphabet abc) (m buf : ℕ) (out : Bytes) where
  -- No room for the second byte.
  full_second :
      (a b c : ℕ) (rest : Bytes)
      → a < 256
      → b < 256
      → c < 256
      → m < length out + 2
      → decode_loop
          (get_or abc (d0 a) 0 ∷ get_or abc (d1 a b) 0 ∷ get_or abc (d2 b c) 0 ∷ rest)
          m
          buf
          0
          out
        ≡ []
  full_second a b c rest ha hb hc full = elim (dec_lt (length out) m) [
    | no none_left ↦ full_first abc alphabet _ m buf out a b ha hb (omega arith)
    | yes room ↦
        decode_two abc alphabet _ m buf out a b ha hb room
        ∙ decode_full _ rest m _ 4 _ (d2 b c) (alphabet (d2 b c) (omega arith)) (omega arith)
            (omega (arith, length-snoc {0} out a))
  ]

  -- No room for the third byte.
  full_third :
      (a b c : ℕ) (rest : Bytes)
      → a < 256
      → b < 256
      → c < 256
      → m < length out + 3
      → decode_loop (group_three abc a b c ++ rest) m buf 0 out ≡ []
  full_third a b c rest ha hb hc full =
      rw (group_three-digits abc a b c ha hb hc) (elim (dec_lt (length out + 1) m) [
        | no one_left ↦ full_second a b c _ ha hb hc (omega arith)
        | yes room ↦
            decode_two abc alphabet _ m buf out a b ha hb (omega arith)
            ∙ decode_third abc alphabet _ m buf (out ++ (a ∷ [])) a b c ha hb hc
                (omega (arith, length-snoc {0} out a))
            ∙ decode_full _ rest m _ 2 _ (d3 c) (alphabet (d3 c) (omega arith)) (omega arith)
                (omega (arith, length-snoc {0} out a, length-snoc {0} (out ++ (a ∷ [])) b))
      ])

pub decode-encode_full :
    (abc : Bytes) (alphabet : IsAlphabet abc) (pad : Bool) (m : ℕ) (bytes : Bytes) (buf : ℕ)
    (out : Bytes)
    → All IsByte bytes
    → length out ≤ m
    → m < length out + length bytes
    → decode_loop (b64_encode_impl abc pad bytes) m buf 0 out ≡ []
unfolding b64_encode_impl
decode-encode_full abc alphabet pad m [] buf out h le lt = absurd (omega arith)
decode-encode_full abc alphabet pad m (a ∷ []) buf out (ha, _) le lt =
    rw (group_one-digits abc pad a ha)
      (full_first abc alphabet _ m buf out a 0 ha (omega arith) (omega arith))
decode-encode_full abc alphabet pad m (a ∷ b ∷ []) buf out (ha, (hb, _)) le lt =
    rw (group_two-digits abc pad a b ha hb)
      (full_second abc alphabet m buf out a b 0 _ ha hb (omega arith) (omega arith))
decode-encode_full abc alphabet pad m (a ∷ b ∷ c ∷ rest) buf out (ha, (hb, (hc, h))) le lt =
    elim (dec_lt m (length out + 3)) [
      | yes short ↦ full_third abc alphabet m buf out a b c _ ha hb hc short
      | no room ↦
          decode_group abc alphabet m a b c _ buf out ha hb hc (omega arith)
          ∙ decode-encode_full abc alphabet pad m rest _ (out ++ (a ∷ b ∷ c ∷ [])) h
              (omega (arith, length-append {0} out (a ∷ b ∷ c ∷ [])))
              (omega (arith, length-append {0} out (a ∷ b ∷ c ∷ [])))
    ]
