-- ===== src/Json/Examples.antt =====
-- Runs of the JSON functions.
use gik_view.Prelude.{◌≡◌, refl, codes}
use gik_view.CString.{strstr}
use gik_view.Json.{json_extract}

extracted : json_extract (codes "{\"crt\":\"a\\nb\",\"ca\":\"c\"}") (codes "crt") ≡ codes "a\nb"
unfolding json_extract strstr
extracted = refl
