-- ===== src/Fs/Examples.antt =====
-- Runs of the file functions, and the round trip of the expiry at a concrete one.
use gik_view.Prelude.{◌≡◌, refl, codes, none, Option, Bytes}
use gik_view.Fs.{FileName, print_ulong, strtoul}

printed : print_ulong 1767225600 ≡ codes "1767225600"
unfolding print_ulong
printed = refl

parsed : strtoul (codes " 1767225600\n") ≡ 1767225600
unfolding strtoul
parsed = refl

abbrev blank : FileName → Option Bytes
blank = λ n. none
