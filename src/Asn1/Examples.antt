-- ===== src/Asn1/Examples.antt =====
-- Runs of the DER code, and its theorems at concrete inputs.
use gik_view.Prelude.{◌≡◌, refl, none, some, [], ◌∷◌, arith}
use gik_view.Asn1.{tagged, asn1_int, top_bit_set, asn1_len, Element, asn1_walk_next}
use gik_view.Asn1.Walk.{asn1_walk_next-Reads, Reads}

abbrev element : Element
element = record { tag = 0x04; value = 7 ∷ 8 ∷ []; rest = 9 ∷ [] }

walk_short : asn1_walk_next (0x04 ∷ 0x02 ∷ 7 ∷ 8 ∷ 9 ∷ []) ≡ some element
unfolding asn1_walk_next
walk_short = refl

walk_cut : asn1_walk_next (0x04 ∷ 0x03 ∷ 7 ∷ 8 ∷ []) ≡ none
unfolding asn1_walk_next
walk_cut = refl

-- A long form that is not the shortest is accepted.
walk_padded :
    asn1_walk_next (0x04 ∷ 0x82 ∷ 0x00 ∷ 0x01 ∷ 7 ∷ [])
    ≡ some (record { tag = 0x04; value = 7 ∷ []; rest = [] })
unfolding asn1_walk_next
walk_padded = refl

int_padded : asn1_int (0x80 ∷ 1 ∷ []) ≡ 0x02 ∷ 0x03 ∷ 0x00 ∷ 0x80 ∷ 1 ∷ []
unfolding asn1_int top_bit_set tagged asn1_len
int_padded = refl

asn1_walk_next-Reads_example :
    (asn1_walk_next (0x04 ∷ 0x02 ∷ 7 ∷ 8 ∷ 9 ∷ []) ≡ some element
      → Reads (0x04 ∷ 0x02 ∷ 7 ∷ 8 ∷ 9 ∷ []) element)
    × (Reads (0x04 ∷ 0x02 ∷ 7 ∷ 8 ∷ 9 ∷ []) element
        → asn1_walk_next (0x04 ∷ 0x02 ∷ 7 ∷ 8 ∷ 9 ∷ []) ≡ some element)
asn1_walk_next-Reads_example =
    asn1_walk_next-Reads (0x04 ∷ 0x02 ∷ 7 ∷ 8 ∷ 9 ∷ []) element (omega arith)
