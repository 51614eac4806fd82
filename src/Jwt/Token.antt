-- ===== src/Jwt/Token.antt =====
-- The token taken apart again, as its receiver does it.
use gik_view.Prelude.{
  ℕ, ◌≤◌, ◌≡◌, ◌≢◌, refl, ap, ◌∙◌, true, false, Option, none, some, List, [], ◌∷◌, ◌++◌, Bytes,
  length, ◌==◌, if◌then◌else◌, arith, All, ◌>>=◌, IsByte, not, get_or, ◌<◌,
}
use mathlib.Core.List.{append_assoc}
use gik_view.Prelude.Tables.{all_below, all_below_sound}
use gik_view.Base64.{base64url_encode, b64_url}
use gik_view.Base64.Encode.{All-b64_encode_impl}
use gik_view.Base64.Strict.{read_base64url, read_base64url-base64url_encode}
use gik_view.CString.Laws.{Lacks}
use gik_view.Jwt.Bounds.{JwtFits, build_x5c_jwt-JwtFits}
use gik_view.Jwt.{Claims, jwt_header, jwt_payload, signing_input, build_x5c_jwt}

cons_head : ℕ → List Bytes → List Bytes
cons_head c [] = []
cons_head c (part ∷ parts) = (c ∷ part) ∷ parts

-- The parts between the dots.
unfoldable pub split : Bytes → List Bytes
unfolding cons_head
split [] = [] ∷ []
split (c ∷ text) = let parts = split text in if c == b'.' then [] ∷ parts else cons_head c parts

==_no : (c : ℕ) → c ≢ b'.' → (c == b'.') ≡ false
==_no c h = ground arith

split-dot :
    (part text : Bytes) → Lacks b'.' part → split (part ++ (b'.' ∷ text)) ≡ part ∷ split text
unfolding split cons_head
split-dot [] text h = refl
split-dot (c ∷ part) text (hc, h) = rw (==_no c hc, split-dot part text h) refl

split-last : (part : Bytes) → Lacks b'.' part → split part ≡ part ∷ []
unfolding split cons_head
split-last [] h = refl
split-last (c ∷ part) (hc, h) = rw (==_no c hc, split-last part h) refl

url_table : all_below 64 (λ n. not (get_or b64_url n 0 == b'.')) ≡ true
unfolding all_below
url_table = refl

is_no_dot : (c : ℕ) → not (c == b'.') ≡ true → c ≢ b'.'
is_no_dot c h = ground arith

base64url_encode-Lacks : (bytes : Bytes) → Lacks b'.' (base64url_encode bytes)
unfolding base64url_encode
base64url_encode-Lacks bytes =
    All-b64_encode_impl (λ c. c ≢ b'.') b64_url false
      (λ n h. is_no_dot _ (all_below_sound 64 _ n url_table h)) (is_no_dot b'=' refl) bytes

-- What the receiver of a token gets: the decoded parts, and the text that the signature is for.
pub record Opened : Type 0 where
  pub header : Bytes
  pub payload : Bytes
  pub signature : Bytes
  pub signed : Bytes

opened : List Bytes → Option Opened
opened [] = none
opened (h ∷ []) = none
opened (h ∷ p ∷ []) = none
opened (h ∷ p ∷ s ∷ []) = do
  header ← read_base64url h
  payload ← read_base64url p
  signature ← read_base64url s
  some (record {
    header = header;
    payload = payload;
    signature = signature;
    signed = h ++ (b'.' ∷ p);
  })
opened (h ∷ p ∷ s ∷ q ∷ parts) = none

unfoldable pub open_token : Bytes → Option Opened
unfolding opened split
open_token token = opened (split token)

token_split :
    (h p s : Bytes)
    → split ((base64url_encode h ++ (b'.' ∷ base64url_encode p)) ++ (b'.' ∷ base64url_encode s))
      ≡ base64url_encode h ∷ base64url_encode p ∷ base64url_encode s ∷ []
token_split h p s =
    ap split
      (append_assoc (base64url_encode h) (b'.' ∷ base64url_encode p) (b'.' ∷ base64url_encode s))
    ∙ split-dot (base64url_encode h) _ (base64url_encode-Lacks h)
    ∙ ap (λ parts. base64url_encode h ∷ parts)
        (split-dot (base64url_encode p) _ (base64url_encode-Lacks p)
          ∙ ap (λ parts. base64url_encode p ∷ parts)
              (split-last (base64url_encode s) (base64url_encode-Lacks s)))

module _ (sha256 : Bytes → Bytes) (sign : Bytes → Bytes → Option Bytes) where
  built :
      (cert_der priv_d sig : Bytes) (c : Claims)
      → sign priv_d (sha256 (signing_input cert_der c)) ≡ some sig
      → build_x5c_jwt sha256 sign cert_der priv_d c
        ≡ some (signing_input cert_der c ++ (b'.' ∷ base64url_encode sig))
  unfolding build_x5c_jwt
  built cert_der priv_d sig c e = rw (e, ◌>>=◌) refl

  -- For a certificate of at most 597 bytes, a name of less than 32 characters, a provisioner of at
  -- most 16 and a signature of 64 bytes, all of them of bytes: no static buffer overflows and
  -- nothing that is printed is cut, and a strict reader of base64url opens the token that is built:
  -- its header and payload are the ones printed, and its signature is the signer's for exactly the
  -- text that the receiver checks it against.
  pub build_x5c_jwt-Opened :
      (cert_der priv_d sig : Bytes) (c : Claims)
      → length cert_der ≤ 597
      → length c.cn < 32
      → length c.provisioner ≤ 16
      → length sig ≡ 64
      → All IsByte (jwt_header cert_der)
      → All IsByte (jwt_payload c)
      → All IsByte sig
      → sign priv_d (sha256 (signing_input cert_der c)) ≡ some sig
      → JwtFits cert_der c sig
        × ((build_x5c_jwt sha256 sign cert_der priv_d c >>= open_token)
            ≡ some (record {
              header = jwt_header cert_der;
              payload = jwt_payload c;
              signature = sig;
              signed = signing_input cert_der c;
            }))
  unfolding open_token signing_input opened
  build_x5c_jwt-Opened cert_der priv_d sig c small short prov size hb pb sb e = (
    (build_x5c_jwt-JwtFits cert_der c sig short prov size).1 small,
    ap (λ t. t >>= open_token) (built cert_der priv_d sig c e)
        ∙ ap opened (token_split (jwt_header cert_der) (jwt_payload c) sig)
        ∙ rw
            (
              read_base64url-base64url_encode (jwt_header cert_der) hb,
              ◌>>=◌,
              read_base64url-base64url_encode (jwt_payload c) pb,
              ◌>>=◌,
              read_base64url-base64url_encode sig sb,
              ◌>>=◌,
            )
            refl,
  )
