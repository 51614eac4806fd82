-- ===== src/Base64/RoundTrip.antt =====
-- What `base64_encode` or `base64url_encode` wrote is read back by `base64_decode`.
use gik_view.Prelude.{
  ℕ, ◌+◌, ◌*◌, ◌/◌, ◌%◌, ◌^◌, ◌≤◌, ◌<◌, ◌≡◌, refl, ◌∙◌, Bool, true, false, [], ◌∷◌, ◌++◌, Bytes,
  IsByte, length, All, get_or, arith, if◌then◌else◌, append_assoc, append-nil, length-append,
  length-snoc,
}
use gik_view.Prelude.Bits.{and_0xff}
use gik_view.Base64.{group_three, b64_encode_impl, decode_loop}
use gik_view.Base64.Alphabet.{IsAlphabet, pad-no_digit}
use gik_view.Base64.Decode.{pushed, emitted, pushed_lem, decode_skip, decode_keep, decode_emit}
use gik_view.Base64.Encode.{d0, d1, d2, d3, group_three-digits, group_two-digits, group_one-digits}

-- The byte that is written depends on the last two digits alone.
module _ (buf u v : ℕ) (hu : u < 64) (hv : v < 64) where
  emitted_two :
      (k : ℕ) → emitted (pushed buf u) v k ≡ (pushed buf u % 2 ^ 26 * 2 ^ 6 + v) / 2 ^ k % 256
  emitted_two k = rw (and_0xff, pushed_lem (pushed buf u) v hv)

  emitted_first : emitted (pushed buf u) v 4 ≡ u * 4 + v / 16
  emitted_first = rw (emitted_two 4, pushed_lem buf u hu) (omega arith)

  emitted_second : emitted (pushed buf u) v 2 ≡ u % 16 * 16 + v / 4
  emitted_second = rw (emitted_two 2, pushed_lem buf u hu) (omega arith)

  emitted_third : emitted (pushed buf u) v 0 ≡ u % 4 * 64 + v
  emitted_third = rw (emitted_two 0, pushed_lem buf u hu) (omega arith)

module _ (abc : Bytes) (alphabet : IsAlphabet abc) (rest : Bytes) (m buf : ℕ) (out : Bytes) where
  -- The first two digits of a group write its first byte.
  pub decode_two :
      (a b : ℕ)
      → a < 256
      → b < 256
      → length out < m
      → decode_loop (get_or abc (d0 a) 0 ∷ get_or abc (d1 a b) 0 ∷ rest) m buf 0 out
        ≡ decode_loop rest m (pushed (pushed buf (d0 a)) (d1 a b)) 4 (out ++ (a ∷ []))
  decode_two a b ha hb room =
      decode_keep _ _ m buf 0 out (d0 a) (alphabet (d0 a) (omega arith)) (omega arith)
      ∙ decode_emit _ rest m (pushed buf (d0 a)) 6 out (d1 a b) (alphabet (d1 a b) (omega arith))
          (omega arith) room
      ∙ rw (emitted_first buf (d0 a) (d1 a b) (omega arith) (omega arith), whole)
    where
      whole : d0 a * 4 + d1 a b / 16 ≡ a
      whole = omega arith

  -- The third digit writes the second byte, and the fourth the third.
  pub decode_third :
      (a b c : ℕ)
      → a < 256
      → b < 256
      → c < 256
      → length out < m
      → decode_loop (get_or abc (d2 b c) 0 ∷ rest) m (pushed (pushed buf (d0 a)) (d1 a b)) 4 out
        ≡ decode_loop rest m
            (pushed (pushed (pushed buf (d0 a)) (d1 a b)) (d2 b c))
            2
            (out ++ (b ∷ []))
  decode_third a b c ha hb hc room =
      decode_emit _ rest m _ 4 out (d2 b c) (alphabet (d2 b c) (omega arith)) (omega arith) room
      ∙ rw (emitted_second (pushed buf (d0 a)) (d1 a b) (d2 b c) (omega arith) (omega arith), whole)
    where
      whole : d1 a b % 16 * 16 + d2 b c / 4 ≡ b
      whole = omega arith

  decode_fourth :
      (b c : ℕ)
      → b < 256
      → c < 256
      → length out < m
      → decode_loop (get_or abc (d3 c) 0 ∷ rest) m (pushed buf (d2 b c)) 2 out
        ≡ decode_loop rest m (pushed (pushed buf (d2 b c)) (d3 c)) 0 (out ++ (c ∷ []))
  decode_fourth b c hb hc room =
      decode_emit _ rest m _ 2 out (d3 c) (alphabet (d3 c) (omega arith)) (omega arith) room
      ∙ rw (emitted_third buf (d2 b c) (d3 c) (omega arith) (omega arith), whole)
    where
      whole : d2 b c % 4 * 64 + d3 c ≡ c
      whole = omega arith

-- Padding changes nothing.
decode_pad :
    (pad : Bool) (two : Bool) (m buf bits : ℕ) (out : Bytes)
    → decode_loop (if pad then (if two then b'=' ∷ b'=' ∷ [] else b'=' ∷ []) else []) m buf bits out
      ≡ out
decode_pad false two m buf bits out = unfold decode_loop in refl
decode_pad true true m buf bits out =
    decode_skip b'=' (b'=' ∷ []) m buf bits out pad-no_digit
    ∙ decode_skip b'=' [] m buf bits out pad-no_digit
    ∙ unfold decode_loop in refl
decode_pad true false m buf bits out =
    decode_skip b'=' [] m buf bits out pad-no_digit ∙ unfold decode_loop in refl

module _ (abc : Bytes) (alphabet : IsAlphabet abc) (m : ℕ) where
  -- A whole group.
  pub decode_group :
      (a b c : ℕ) (rest : Bytes) (buf : ℕ) (out : Bytes)
      → a < 256
      → b < 256
      → c < 256
      → length out + 3 ≤ m
      → decode_loop (group_three abc a b c ++ rest) m buf 0 out
        ≡ decode_loop rest m
            (pushed (pushed (pushed (pushed buf (d0 a)) (d1 a b)) (d2 b c)) (d3 c))
            0
            (out ++ (a ∷ b ∷ c ∷ []))
  decode_group a b c rest buf out ha hb hc room = rw (group_three-digits abc a b c ha hb hc) (
      decode_two abc alphabet _ m buf out a b ha hb (omega arith)
      ∙ decode_third abc alphabet _ m buf (out ++ (a ∷ [])) a b c ha hb hc
          (omega (arith, length-snoc {0} out))
      ∙ decode_fourth abc alphabet rest m _ ((out ++ (a ∷ [])) ++ (b ∷ [])) b c hb hc
          (omega (arith, length-snoc {0} out, length-snoc {0} (out ++ (a ∷ []))))
      ∙ simp append_assoc)

  -- Any list of bytes that fits.
  pub decode-encode_loop :
      (pad : Bool) (bytes : Bytes) (buf : ℕ) (out : Bytes)
      → All IsByte bytes
      → length out + length bytes ≤ m
      → decode_loop (b64_encode_impl abc pad bytes) m buf 0 out ≡ out ++ bytes
  unfolding b64_encode_impl
  decode-encode_loop pad [] buf out h room = unfold decode_loop in rw append-nil
  decode-encode_loop pad (a ∷ []) buf out (ha, _) room = rw (group_one-digits abc pad a ha) (
      decode_two abc alphabet _ m buf out a 0 ha (omega arith) (omega arith)
      ∙ decode_pad pad true m _ 4 _)
  decode-encode_loop pad (a ∷ b ∷ []) buf out (ha, (hb, _)) room =
      rw (group_two-digits abc pad a b ha hb) (
        decode_two abc alphabet _ m buf out a b ha hb (omega arith)
        ∙ decode_third abc alphabet _ m buf (out ++ (a ∷ [])) a b 0 ha hb (omega arith)
            (omega (arith, length-snoc {0} out))
        ∙ decode_pad pad false m _ 2 _
        ∙ append_assoc out (a ∷ []) (b ∷ []))
  decode-encode_loop pad (a ∷ b ∷ c ∷ rest) buf out (ha, (hb, (hc, h))) room =
      decode_group a b c _ buf out ha hb hc (omega arith)
      ∙ decode-encode_loop pad rest _ (out ++ (a ∷ b ∷ c ∷ [])) h
          (omega (arith, length-append {0} out (a ∷ b ∷ c ∷ [])))
      ∙ append_assoc out (a ∷ b ∷ c ∷ []) rest
