-- ===== src/Issue.antt =====
-- The requests to step-ca, end/arduino/stepca.cpp: `step_ca_sign` and `step_ca_rekey`. HTTPS is a
-- parameter: a path, a body and the client's chain and key give a status and a body, or `none`
-- where the transport fails.
pub mod Answers
mod Examples
use gik_view.Prelude.{
  ℕ, ◌+◌, ◌-◌, ◌%◌, ◌^◌, Bool, true, false, ◌||◌, not, Option, none, some, List, [], ◌∷◌, ◌++◌,
  Bytes, codes, length, ◌==◌, if◌then◌else◌, ◌>>=◌, require,
}
use gik_view.Prelude.Int.{ℤ, pos, negsuc}
use gik_view.Json.{append_json_escaped, json_extract}
use gik_view.X509.{parse_leaf_not_after}

unfoldable pub rekey_body : Bytes → Bytes
rekey_body csr_pem = codes "{\"csr\":\"" ++ (append_json_escaped csr_pem ++ codes "\"}")

unfoldable pub sign_body : Bytes → Bytes → Bytes
sign_body csr_pem jwt =
    codes "{\"csr\":\""
    ++ (append_json_escaped csr_pem ++ (codes "\",\"ott\":\"" ++ (jwt ++ codes "\"}")))

-- `out_leaf`, `out_inter` and `out_not_after`, where `none` is an overflow.
pub record Issued : Type 0 where
  pub leaf : Bytes
  pub inter : Bytes
  pub not_after : Option ℤ

-- What both functions make of the response.
unfoldable pub read_answer : Option (ℕ × Bytes) → Option Issued
read_answer response = do
  r ← response
  _ ← require (r.0 == 200 || r.0 == 201)
  _ ← require (not (length (json_extract r.1 (codes "crt")) == 0))
  t ← parse_leaf_not_after (json_extract r.1 (codes "crt"))
  some (record {
    leaf = json_extract r.1 (codes "crt");
    inter = json_extract r.1 (codes "ca");
    not_after = t;
  })

abbrev pub Https : Type 0
Https = Bytes → Bytes → Option (Bytes × Bytes) → Option (ℕ × Bytes)

module _ (https : Https) where
  unfoldable pub step_ca_sign : Bytes → Bytes → Option Issued
  unfolding sign_body read_answer
  step_ca_sign csr_pem jwt = read_answer (https (codes "/1.0/sign") (sign_body csr_pem jwt) none)

  unfoldable pub step_ca_rekey : Bytes → Bytes → Bytes → Option Issued
  unfolding rekey_body read_answer
  step_ca_rekey csr_pem device_chain_pem device_key_pem =
      read_answer
        (https (codes "/1.0/rekey") (rekey_body csr_pem) (some (device_chain_pem, device_key_pem)))
