-- ===== src/CString/Split.antt =====
-- Readers of text: what stands in front of a character, and behind a prefix.
use gik_view.Prelude.{
  ℕ, ◌≡◌, refl, Option, none, some, [], ◌∷◌, ◌++◌, Bytes, arith, ◌==◌, ==_refl, if◌then◌else◌,
  ◌>>=◌,
}
use gik_view.CString.Laws.{Lacks}

-- What stands in front of the first such character, and what behind it.
unfoldable pub split_at : ℕ → Bytes → Option (Bytes × Bytes)
split_at c [] = none
split_at c (x ∷ xs) =
    let rest = split_at c xs in
    if x == c then some ([], xs) else (rest >>= λ r. some (x ∷ r.0, r.1))

-- What follows a prefix.
unfoldable pub expect : Bytes → Bytes → Option Bytes
expect [] text = some text
expect (p ∷ prefix) [] = none
expect (p ∷ prefix) (c ∷ text) = if p == c then expect prefix text else none

pub expect-append : (prefix text : Bytes) → expect prefix (prefix ++ text) ≡ some text
unfolding expect
expect-append [] text = refl
expect-append (p ∷ prefix) text = rw (==_refl p, expect-append prefix text) refl

pub split_at-append :
    (c : ℕ) (front rest : Bytes)
    → Lacks c front
    → split_at c (front ++ c ∷ rest) ≡ some (front, rest)
unfolding split_at
split_at-append c [] rest h = ground arith
split_at-append c (x ∷ front) rest (hx, h) =
    rw (split_at-append c front rest h) (ground (arith, hx))
