-- ===== src/Timestamp/Examples.antt =====
-- The timestamps at concrete times.
use gik_view.Prelude.{◌≡◌, refl, codes}
use gik_view.Timestamp.{to_rfc3339_utc}

-- A leap day.
printed : to_rfc3339_utc 1709251199 ≡ codes "2024-02-29T23:59:59Z"
unfolding to_rfc3339_utc
printed = refl
