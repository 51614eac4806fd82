-- ===== src/Asn1.antt =====
-- end/arduino/crypto_asn1.cpp, the DER half: the builders `asn1_len`, `asn1_seq`, `asn1_set`,
-- `asn1_int`, the object identifiers, and the reader `asn1_walk_next`. A builder returns the bytes
-- that it writes to `out`; the reader's pointers `p` and `end` are the list of bytes between them.
pub mod Walk
pub mod Integer
pub mod Expect
mod Examples
use gik_view.Prelude.{
  ℕ, suc, ◌+◌, ◌-◌, ◌*◌, ◌/◌, ◌%◌, ◌^◌, bit_and, bit_or, Bool, true, false, Option, none, some,
  List, [], ◌∷◌, ◌++◌, Bytes, length, take, drop, get_or, ltb, ◌==◌, if◌then◌else◌, not,
}
use gik_view.Prelude.Bits.{shr}

abbrev pub oid_ec_pubkey : Bytes
oid_ec_pubkey = 0x06 ∷ 0x07 ∷ 0x2A ∷ 0x86 ∷ 0x48 ∷ 0xCE ∷ 0x3D ∷ 0x02 ∷ 0x01 ∷ []

abbrev pub oid_p256 : Bytes
oid_p256 = 0x06 ∷ 0x08 ∷ 0x2A ∷ 0x86 ∷ 0x48 ∷ 0xCE ∷ 0x3D ∷ 0x03 ∷ 0x01 ∷ 0x07 ∷ []

abbrev pub oid_cn : Bytes
oid_cn = 0x06 ∷ 0x03 ∷ 0x55 ∷ 0x04 ∷ 0x03 ∷ []

abbrev pub oid_ecdsa_sha256 : Bytes
oid_ecdsa_sha256 = 0x06 ∷ 0x08 ∷ 0x2A ∷ 0x86 ∷ 0x48 ∷ 0xCE ∷ 0x3D ∷ 0x04 ∷ 0x03 ∷ 0x02 ∷ []

unfoldable pub asn1_len : ℕ → Bytes
asn1_len len =
    if ltb len 128
    then len % 256 ∷ []
    else if ltb len 256
    then 0x81 ∷ len % 256 ∷ []
    else 0x82 ∷ shr len 8 % 256 ∷ bit_and len 0xff ∷ []

-- A tag, the length field and the content: the body that `asn1_seq` and `asn1_set` share.
unfoldable pub tagged : ℕ → Bytes → Bytes
tagged tag c = tag ∷ (asn1_len (length c) ++ c)

unfoldable pub asn1_seq : Bytes → Bytes
asn1_seq c = tagged 0x30 c

unfoldable pub asn1_set : Bytes → Bytes
asn1_set c = tagged 0x31 c

-- `nz`: the top bit of the first byte is set. (Every caller passes 32 bytes.)
unfoldable pub top_bit_set : Bytes → Bool
top_bit_set val = not (bit_and (get_or val 0 0) 0x80 == 0)

unfoldable pub asn1_int : Bytes → Bytes
asn1_int val = tagged 0x02 (if top_bit_set val then 0x00 ∷ val else val)

pub record Element : Type 0 where
  pub tag : ℕ
  pub value : Bytes
  pub rest : Bytes

-- `if (p + len > end) return nullptr;` and the results.
pub take_value : ℕ → ℕ → Bytes → Option Element
take_value tag len p =
    if ltb (length p) len
    then none
    else some (record { tag = tag; value = take len p; rest = drop len p })

pub long_one : ℕ → Bytes → Option Element
unfolding take_value
long_one tag [] = none
long_one tag (l1 ∷ p) = take_value tag l1 p

pub long_two : ℕ → Bytes → Option Element
unfolding take_value
long_two tag [] = none
long_two tag (l1 ∷ []) = none
long_two tag (l1 ∷ l2 ∷ p) = take_value tag (bit_or (l1 * 2 ^ 8) l2) p

unfoldable pub asn1_walk_next : Bytes → Option Element
unfolding take_value long_one long_two
asn1_walk_next [] = none
asn1_walk_next (tag ∷ []) = none
asn1_walk_next (tag ∷ l0 ∷ p) =
    if bit_and l0 0x80 == 0
    then take_value tag l0 p
    else if l0 == 0x81
    then long_one tag p
    else if l0 == 0x82
    then long_two tag p
    else none
