-- ===== src/Provision/Renewal.antt =====
-- A renewal in which everything answers.
use gik_view.Prelude.{
  ℕ, ◌^◌, ◌<◌, ◌≡◌, refl, ap, ◌∙◌, Bool, true, false, Option, some, ◌++◌, Bytes, codes, length,
  arith, ◌==◌, ◌⊎◌, ◌>>=◌,
}
use gik_view.Prelude.Int.{pos}
use gik_view.Ec.{build_ec_priv_der}
use gik_view.Pem.{der_to_pem_string}
use gik_view.Json.{json_extract}
use gik_view.Json.Escape.{without_cr}
use gik_view.X509.{parse_leaf_not_after}
use gik_view.Issue.{Issued, rekey_body, step_ca_rekey}
use gik_view.Issue.Answers.{answer_body, read_answer-leaf}
use gik_view.Fs.{
  FileName, LittleFs, IsLittleFs, new_cert, new_chain, new_key, dev_cert, dev_chain, dev_key,
  dev_exp, bs_cert, same_file, read_file, exists, print_ulong, save_pem,
}
use gik_view.Fs.Expiry.{read_file-content}
use gik_view.Boot.{by_expiry, decide_mode, save_device_assets, write_assets}
use gik_view.Boot.Modes.{decide_mode-saved}
use gik_view.Provision.{
  Device, Request, gen_keypair_and_csr, renew_issue, store, to_ulong, provision_cert,
}

-- The flash has room for every text.
abbrev pub HasRoom : LittleFs → Type 0
HasRoom fs = (f : fs.Files) (n : FileName) (text : Bytes) → fs.stored f n text ≡ some text

pub pem_shown : (der label : Bytes) → (length (der_to_pem_string der label) == 0) ≡ false
unfolding der_to_pem_string
pem_shown der label = ground arith

module _ (fs : LittleFs) (laws : IsLittleFs fs) (room : HasRoom fs) where
  saved_key :
      (leaf inter priv pub_xy : Bytes) (f : fs.Files)
      → read_file fs new_key (write_assets fs leaf inter priv pub_xy f)
        ≡ der_to_pem_string (build_ec_priv_der priv pub_xy) (codes "EC PRIVATE KEY")
  unfolding write_assets save_pem same_file
  saved_key leaf inter priv pub_xy f =
      let text = der_to_pem_string (build_ec_priv_der priv pub_xy) (codes "EC PRIVATE KEY") in
      let g = fs.write new_chain inter (fs.write new_cert leaf f) in
      read_file-content fs new_key (fs.write new_key text g)
        (laws.content-write new_key text g new_key ∙ room g new_key text)

  saved_leaf :
      (leaf inter priv pub_xy : Bytes) (f : fs.Files)
      → read_file fs new_cert (write_assets fs leaf inter priv pub_xy f) ≡ leaf
  unfolding write_assets save_pem same_file
  saved_leaf leaf inter priv pub_xy f =
      let text = der_to_pem_string (build_ec_priv_der priv pub_xy) (codes "EC PRIVATE KEY") in
      let h = fs.write new_cert leaf f in
      let g = fs.write new_chain inter h in
      read_file-content fs new_cert (fs.write new_key text g) (
        laws.content-write new_key text g new_cert
        ∙ laws.content-write new_chain inter h new_cert
        ∙ laws.content-write new_cert leaf f new_cert
        ∙ room f new_cert leaf)

  pub stores :
      (leaf inter priv pub_xy : Bytes) (not_after : ℕ) (f : fs.Files)
      → (length leaf == 0) ≡ false
      → (save_device_assets fs leaf inter priv pub_xy not_after f).0 ≡ true
  unfolding save_device_assets
  stores leaf inter priv pub_xy not_after f shown =
      rw
        (
          saved_leaf leaf inter priv pub_xy f,
          shown,
          saved_key leaf inter priv pub_xy f,
          pem_shown (build_ec_priv_der priv pub_xy) (codes "EC PRIVATE KEY"),
        )
        refl

  module _ (d : Device) (f : fs.Files) (r : Request) (status t : ℕ) (leaf rest : Bytes) where
    -- What the server is asked, with the chain and the key of the device.
    abbrev pub asked : Option (ℕ × Bytes)
    asked =
        d.https (codes "/1.0/rekey") (rekey_body r.csr_pem)
          (some (read_file fs dev_cert f ++ read_file fs dev_chain f, read_file fs dev_key f))

    abbrev issued : Issued
    issued = record {
      leaf = without_cr leaf;
      inter = json_extract (answer_body leaf rest) (codes "ca");
      not_after = some (pos t);
    }

    renews :
        gen_keypair_and_csr d 0 ≡ some r
        → (length (read_file fs dev_cert f) == 0) ≡ false
        → (length (read_file fs dev_key f) == 0) ≡ false
        → asked ≡ some (status, answer_body leaf rest)
        → (status ≡ 200) ⊎ (status ≡ 201)
        → (length (without_cr leaf) == 0) ≡ false
        → parse_leaf_not_after (without_cr leaf) ≡ some (some (pos t))
        → renew_issue d fs f ≡ some (record { request = r; issued = issued })
    unfolding renew_issue step_ca_rekey
    renews made cert key answers ok shown parsed =
        let read = (read_answer-leaf status leaf rest).0 ok shown in
        rw (made, ◌>>=◌, cert, key, answers, read, parsed, ◌>>=◌) refl

    renewed :
        renew_issue d fs f ≡ some (record { request = r; issued = issued })
        → provision_cert d fs true f
          ≡ save_device_assets fs issued.leaf issued.inter r.priv r.pub_xy t f
    unfolding provision_cert store to_ulong
    renewed e = rw (provision_cert, e) refl

    -- A renewal succeeds if everything answers: a request was made, the device has its certificate
    -- and its key, the server answers with the status 200 or 201 and a certificate whose text is
    -- not empty and whose expiry can be read and is below 2 ^ 32, and the flash has room. The next
    -- boot then decides by the new expiry.
    pub provision_cert-renews :
        (now : ℕ)
        → gen_keypair_and_csr d 0 ≡ some r
        → (length (read_file fs dev_cert f) == 0) ≡ false
        → (length (read_file fs dev_key f) == 0) ≡ false
        → asked ≡ some (status, answer_body leaf rest)
        → (status ≡ 200) ⊎ (status ≡ 201)
        → (length (without_cr leaf) == 0) ≡ false
        → parse_leaf_not_after (without_cr leaf) ≡ some (some (pos t))
        → t < 2 ^ 32
        → ((provision_cert d fs true f).0 ≡ true)
          × (decide_mode fs now (provision_cert d fs true f).1
              ≡ by_expiry (exists fs bs_cert f) now t)
    provision_cert-renews now made cert key answers ok shown parsed small =
        let done = stores issued.leaf issued.inter r.priv r.pub_xy t f shown in
        let same = renewed (renews made cert key answers ok shown parsed) in
        (
          ap (λ (x : Bool × fs.Files). x.0) same ∙ done,
          ap (λ (x : Bool × fs.Files). decide_mode fs now x.1) same
              ∙ decide_mode-saved fs laws issued.leaf issued.inter r.priv r.pub_xy t now f small
                  (λ g. room g dev_exp (print_ulong t)) done,
        )
