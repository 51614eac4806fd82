-- ===== src/Asn1/Walk.antt =====
-- `asn1_walk_next` against the builders, and on any input.
use gik_view.Prelude.{
  ℕ, ◌+◌, ◌*◌, ◌/◌, ◌%◌, ◌^◌, ◌<◌, ◌≡◌, refl, bit_and, true, some, [], ◌∷◌, ◌++◌, Bytes, IsByte,
  length, All, arith, ◌==◌, take-append, drop-append, length-append, take-append-drop, length-take,
  ap, Bool-cases, inl, inr, ==_iff,
}
use gik_view.Prelude.Bits.{or_disjoint, and_0xff}
use gik_view.Prelude.Tables.{all_below, all_below_sound}
use gik_view.Asn1.{asn1_len, tagged, Element, take_value, long_one, long_two, asn1_walk_next}

top_bit_table : all_below 256 (λ b. bit_and b 0x80 == b / 128 * 128) ≡ true
unfolding all_below
top_bit_table = refl

-- The top bit of a byte.
pub top_bit : (b : ℕ) → b < 256 → bit_and b 0x80 ≡ b / 128 * 128
top_bit b h = (==_iff _ _).0 (all_below_sound 256 _ b top_bit_table h)

take_value-append :
    (tag len : ℕ) (c rest : Bytes)
    → len ≡ length c
    → take_value tag len (c ++ rest) ≡ some (record { tag = tag; value = c; rest = rest })
unfolding take_value
take_value-append tag len c rest e =
    ground (arith, length-append c rest, take-append len c rest e, drop-append len c rest e)

-- `asn1_walk_next` undoes a builder: whatever follows in the input, an element with a content
-- below 64 KiB is read back with its tag and content, and the rest is left.
pub asn1_walk_next-tagged :
    (tag : ℕ) (c rest : Bytes)
    → length c < 65536
    → asn1_walk_next (tagged tag c ++ rest) ≡ some (record { tag = tag; value = c; rest = rest })
unfolding asn1_walk_next tagged asn1_len
asn1_walk_next-tagged tag c rest h = ground (
  arith,
  top_bit (length c % 256),
  and_0xff (length c),
  or_disjoint 8 (length c / 256) (length c % 256),
  take_value-append tag (length c) c rest refl,
)

-- The headers of a definite-length element: a tag, and the length in one of three forms. (The
-- long forms need not be the shortest.)
pub data IsHeader : ℕ → ℕ → Bytes → Type 0 where
  short : (tag len : ℕ) (h : Bytes) → len < 128 → h ≡ tag ∷ len ∷ [] → IsHeader tag len h
  long1 : (tag len : ℕ) (h : Bytes) → len < 256 → h ≡ tag ∷ 0x81 ∷ len ∷ [] → IsHeader tag len h
  long2 :
      (tag len : ℕ) (h : Bytes)
      → len < 65536
      → h ≡ tag ∷ 0x82 ∷ len / 256 ∷ len % 256 ∷ []
      → IsHeader tag len h

-- `p` starts with the element `e`, and `e.rest` is what follows it.
pub record Reads (p : Bytes) (e : Element) : Type 0 where
  pub header : Bytes
  pub is_header : IsHeader e.tag (length e.value) header
  pub whole : p ≡ header ++ (e.value ++ e.rest)

take_value_sound :
    (tag len : ℕ) (p : Bytes) (e : Element)
    → take_value tag len p ≡ some e
    → (e.tag ≡ tag) × (length e.value ≡ len) × (p ≡ e.value ++ e.rest)
unfolding take_value
take_value_sound tag len p e h = ground (arith, take-append-drop len p, length-take len p)

module _ (tag : ℕ) (e : Element) where
  read_short : (l : ℕ) (p : Bytes) → l < 128 → take_value tag l p ≡ some e → Reads (tag ∷ l ∷ p) e
  read_short l p hl h =
      let (t, n, w) = take_value_sound tag l p e h in
      record {
        header = tag ∷ l ∷ [];
        is_header = rw (t, n) (short tag l _ hl refl);
        whole = ap (λ (q : Bytes). tag ∷ l ∷ q) w;
      }

  read_long1 : (p : Bytes) → All IsByte p → long_one tag p ≡ some e → Reads (tag ∷ 0x81 ∷ p) e
  unfolding long_one
  read_long1 [] b h = cc
  read_long1 (l ∷ p) b h =
      let (t, n, w) = take_value_sound tag l p e h in
      record {
        header = tag ∷ 0x81 ∷ l ∷ [];
        is_header = rw (t, n) (long1 tag l _ b.0 refl);
        whole = ap (λ (q : Bytes). tag ∷ 0x81 ∷ l ∷ q) w;
      }

  read_long2 : (p : Bytes) → All IsByte p → long_two tag p ≡ some e → Reads (tag ∷ 0x82 ∷ p) e
  unfolding long_two
  read_long2 [] b h = cc
  read_long2 (l ∷ []) b h = cc
  read_long2 (l1 ∷ l2 ∷ p) (b1, (b2, b)) h =
      let sum = or_disjoint 8 l1 l2 b2 in
      let (t, n, w) = take_value_sound tag (l1 * 2 ^ 8 + l2) p e (rw sum at h) in
      record {
        header = tag ∷ 0x82 ∷ l1 ∷ l2 ∷ [];
        is_header = rw (t, n) (long2 tag (l1 * 2 ^ 8 + l2) _ (omega arith) (ground arith));
        whole = ap (λ (q : Bytes). tag ∷ 0x82 ∷ l1 ∷ l2 ∷ q) w;
      }

-- Whatever `asn1_walk_next` returns stands in the input, behind a header with its tag and length.
asn1_walk_next_sound :
    (p : Bytes) (e : Element) → All IsByte p → asn1_walk_next p ≡ some e → Reads p e
unfolding asn1_walk_next
asn1_walk_next_sound [] e b h = cc
asn1_walk_next_sound (tag ∷ []) e b h = cc
asn1_walk_next_sound (tag ∷ l0 ∷ p) e (bt, (b0, b)) h = elim (Bool-cases (bit_and l0 0x80 == 0)) [
  | inl is_short ↦
      read_short tag e l0 p (omega (arith, top_bit l0, (==_iff (bit_and l0 0x80) 0).0 is_short))
        (rw is_short at h)
  | inr is_long ↦ elim (Bool-cases (l0 == 0x81)) [
    | inl e1 ↦ rw ((==_iff l0 0x81).0 e1) (read_long1 tag e p b (rw e1 at (rw is_long at h)))
    | inr n1 ↦ elim (Bool-cases (l0 == 0x82)) [
      | inl e2 ↦
          rw ((==_iff l0 0x82).0 e2) (read_long2 tag e p b (rw e2 at (rw n1 at (rw is_long at h))))
      | inr n2 ↦ cc (rw n2 at (rw n1 at (rw is_long at h)))
    ]
  ]
]

-- A header of a content `c` is read, with any input behind the content.
header_read :
    (tag len : ℕ) (h c rest : Bytes)
    → IsHeader tag len h
    → len ≡ length c
    → asn1_walk_next (h ++ (c ++ rest)) ≡ some (record { tag = tag; value = c; rest = rest })
unfolding asn1_walk_next
header_read tag len h c rest (short _ _ _ b e) n =
    rw e (ground (arith, top_bit len, take_value-append tag len c rest n))
header_read tag len h c rest (long1 _ _ _ b e) n =
    rw e (ground (arith, take_value-append tag len c rest n))
header_read tag len h c rest (long2 _ _ _ b e) n =
    rw e (ground (arith, or_disjoint 8 (len / 256) (len % 256), take_value-append tag len c rest n))

-- `asn1_walk_next` returns an element exactly when the input is a header of the element's tag and
-- length, then its value, then the rest.
pub asn1_walk_next-Reads :
    (p : Bytes) (e : Element)
    → All IsByte p
    → (asn1_walk_next p ≡ some e → Reads p e) × (Reads p e → asn1_walk_next p ≡ some e)
asn1_walk_next-Reads p e b = (
  asn1_walk_next_sound p e b,
  λ r. rw r.whole (header_read e.tag _ r.header e.value e.rest r.is_header refl),
)
