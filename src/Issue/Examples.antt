-- ===== src/Issue/Examples.antt =====
-- A run of the request's printer.
use gik_view.Prelude.{ℕ, ◌≡◌, refl, codes}
use gik_view.Json.{append_json_escaped}
use gik_view.Issue.{rekey_body}

two_lines : rekey_body (codes "a\nb") ≡ codes "{\"csr\":\"a\\nb\"}"
unfolding rekey_body append_json_escaped
two_lines = refl

abbrev refused : ℕ
refused = 500
