-- ===== src/Pem/RoundTrip.antt =====
-- `pem_to_der` reads the first block that `der_to_pem_string` wrote.
use gik_view.Prelude.{
  ℕ, ◌≤◌, ◌≡◌, refl, ap, ◌∙◌, ◌≢◌, Bool, true, ◌&&◌, not, some, [], ◌∷◌, ◌++◌, Bytes, IsByte, codes,
  length, get_or, All, arith, leb, ◌==◌, if◌then◌else◌, append_assoc, length-append, take-append,
  ◌>>=◌, All-append,
}
use gik_view.Prelude.Tables.{all_below, all_below_sound}
use gik_view.Base64.{b64_std, base64_encode}
use gik_view.Base64.Encode.{length-base64_encode, All-b64_encode_impl}
use gik_view.Base64.Laws.{base64_decode-base64_encode}
use gik_view.CString.{strstr, strchr}
use gik_view.CString.Laws.{Lacks, strstr-here, strstr-append, strchr-append}
use gik_view.Pem.{
  newline, lines, is_blank, der_to_pem_string, pem_block, decode_block, pem_to_der, b64_room,
}
use gik_view.Pem.Lines.{IsPlain, strip-lines, lines-Lacks}

abbrev plain : ℕ → Bool
plain c = not (is_blank c) && not (c == b'-')

plain→IsPlain : (c : ℕ) → plain c ≡ true → IsPlain c
plain→IsPlain c h = ground arith

std_plain : all_below 64 (λ n. plain (get_or b64_std n 0)) ≡ true
unfolding all_below is_blank
std_plain = refl

base64_encode-IsPlain : (der : Bytes) → All IsPlain (base64_encode der)
unfolding base64_encode
base64_encode-IsPlain der =
    All-b64_encode_impl IsPlain b64_std true
      (λ n h. plain→IsPlain _ (all_below_sound 64 _ n std_plain h))
      (unfold is_blank in plain→IsPlain b'=' refl) der

module _ (der label rest : Bytes) where
  abbrev body : Bytes
  body = lines (length (base64_encode der)) (base64_encode der)

  abbrev from_end : Bytes
  from_end = codes "-----END" ++ (b' ' ∷ (label ++ (codes "-----" ++ (newline ∷ rest))))

  abbrev first_line : Bytes
  first_line = codes "-----BEGIN " ++ (label ++ codes "-----")

  pem_shape : der_to_pem_string der label ++ rest ≡ first_line ++ (newline ∷ (body ++ from_end))
  unfolding der_to_pem_string
  pem_shape = simp append_assoc

  pem_begin :
      strstr (codes "-----BEGIN") (first_line ++ (newline ∷ (body ++ from_end)))
      ≡ some (first_line ++ (newline ∷ (body ++ from_end)))
  pem_begin =
      strstr-here (codes "-----BEGIN")
        ((b' ' ∷ (label ++ codes "-----")) ++ (newline ∷ (body ++ from_end)))

  pem_newline :
      Lacks newline label
      → strchr newline (first_line ++ (newline ∷ (body ++ from_end)))
        ≡ some (newline ∷ (body ++ from_end))
  pem_newline h = strchr-append newline first_line (body ++ from_end) (
      All-append (λ x. x ≢ newline) (codes "-----BEGIN ") _ (omega arith)
        (All-append (λ x. x ≢ newline) label _ h (omega arith)))

  pem_end : strstr (codes "-----END") (body ++ from_end) ≡ some from_end
  pem_end =
      strstr-append b'-' (codes "----END") body from_end
        (lines-Lacks _ (base64_encode der) (base64_encode-IsPlain der))
      ∙ strstr-here (codes "-----END") _

  pem_block-body : Lacks newline label → pem_block (der_to_pem_string der label ++ rest) ≡ some body
  unfolding pem_block
  pem_block-body h =
      rw (pem_shape, pem_begin, ◌>>=◌, pem_newline h, ◌>>=◌, pem_end, ◌>>=◌)
        (ap some (take-append _ body from_end (omega (arith, length-append {0} body from_end))))

-- `pem_to_der` reads the first PEM block of a text: for every DER of at most 765 bytes, every label
-- without a newline and whatever follows the block, it gives back the DER if that fits in
-- `out_max`, and nothing otherwise.
pub pem_to_der-der_to_pem_string :
    (der label rest : Bytes) (out_max : ℕ)
    → All IsByte der
    → Lacks newline label
    → length der ≤ 765
    → pem_to_der (der_to_pem_string der label ++ rest) out_max
      ≡ (if leb (length der) out_max then der else [])
unfolding pem_to_der
pem_to_der-der_to_pem_string der label rest out_max h hl fits =
    ap (decode_block out_max) (pem_block-body der label rest hl)
    ∙ unfold decode_block in
      rw
        (strip-lines (length (base64_encode der)) (base64_encode der) b64_room
          (base64_encode-IsPlain der) (omega arith) (omega (arith, length-base64_encode der)))
        (base64_decode-base64_encode der out_max h)
