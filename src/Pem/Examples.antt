-- ===== src/Pem/Examples.antt =====
-- A PEM block at a concrete input.
use gik_view.Prelude.{◌≡◌, refl, [], ◌∷◌, ◌++◌, codes, arith}
use gik_view.CString.{strstr, strchr}
use gik_view.Pem.{der_to_pem_string, pem_to_der}
use gik_view.Pem.RoundTrip.{pem_to_der-der_to_pem_string}

no_end : pem_to_der (codes "-----BEGIN X-----\nTWE=\n") 100 ≡ []
unfolding pem_to_der strstr strchr
no_end = refl

pem_to_der-der_to_pem_string_example :
    pem_to_der (der_to_pem_string (0x30 ∷ 0x00 ∷ []) (codes "CERTIFICATE") ++ codes "\n") 600
    ≡ 0x30 ∷ 0x00 ∷ []
pem_to_der-der_to_pem_string_example =
    pem_to_der-der_to_pem_string (0x30 ∷ 0x00 ∷ []) (codes "CERTIFICATE") (codes "\n") 600
      (omega arith) (omega arith) (omega arith)
