-- ===== src/CString.antt =====
-- The functions of <string.h> that the firmware scans text with, on a C string without its final
-- NUL. A pointer into the text is the list of the characters from there on.
use gik_view.Prelude.{
  ℕ, zero, suc, ◌+◌, ◌≤◌, ◌<◌, ◌≡◌, refl, ap, ◌≢◌, Bool, true, false, ◌&&◌, Option, none, some,
  List, [], ◌∷◌, ◌++◌, Bytes, length, All, arith, ◌==◌, ==_refl, if◌then◌else◌,
}
pub mod Laws
pub mod Split

unfoldable pub starts_with : Bytes → Bytes → Bool
starts_with [] text = true
starts_with (n ∷ needle) [] = false
starts_with (n ∷ needle) (c ∷ text) = n == c && starts_with needle text

unfoldable pub strstr : Bytes → Bytes → Option Bytes
unfolding starts_with
strstr needle [] = if starts_with needle [] then some [] else none
strstr needle (c ∷ text) =
    if starts_with needle (c ∷ text) then some (c ∷ text) else strstr needle text

unfoldable pub strchr : ℕ → Bytes → Option Bytes
strchr c [] = none
strchr c (x ∷ text) = if x == c then some (x ∷ text) else strchr c text

-- The C string in a buffer: the characters before the first NUL.
unfoldable pub c_string : Bytes → Bytes
c_string [] = []
c_string (c ∷ buf) = if c == 0 then [] else c ∷ c_string buf
