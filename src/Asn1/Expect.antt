-- ===== src/Asn1/Expect.antt =====
-- The step that the readers of DER repeat: `p = asn1_walk_next(p, …); if (!p || tag != …) return
-- false;`.
use gik_view.Prelude.{
  ℕ, ◌<◌, ◌≡◌, Option, some, [], ◌++◌, Bytes, length, ◌==◌, ==_refl, ◌>>=◌, require, append-nil,
}
use gik_view.Asn1.{tagged, Element, asn1_walk_next}
use gik_view.Asn1.Walk.{asn1_walk_next-tagged}

-- An element with the given tag, and what follows it.
unfoldable pub expect : ℕ → Bytes → Option Element
expect tag p = do e ← asn1_walk_next p; _ ← require (e.tag == tag); some e

pub expect-tagged :
    (tag : ℕ) (c rest : Bytes)
    → length c < 65536
    → expect tag (tagged tag c ++ rest) ≡ some (record { tag = tag; value = c; rest = rest })
unfolding expect
expect-tagged tag c rest h = rw (asn1_walk_next-tagged tag c rest h, ◌>>=◌, ==_refl tag)

-- An element that ends its container.
pub expect_last :
    (tag : ℕ) (c : Bytes)
    → length c < 65536
    → expect tag (tagged tag c) ≡ some (record { tag = tag; value = c; rest = [] })
expect_last tag c h = rw append-nil at (expect-tagged tag c [] h)
