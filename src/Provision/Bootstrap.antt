-- ===== src/Provision/Bootstrap.antt =====
-- A bootstrap in which everything answers.
use gik_view.Prelude.{
  ℕ, ◌^◌, ◌<◌, ◌≤◌, ◌≡◌, refl, ap, sym, ◌∙◌, Bool, true, false, none, some, [], Bytes, codes,
  length, arith, ◌==◌, ◌⊎◌, ◌>>=◌, All, IsByte, append-nil,
}
use gik_view.Prelude.Int.{pos}
use gik_view.Ec.{build_ec_priv_der, ec_priv_from_der}
use gik_view.Ec.RoundTrip.{ec_priv_from_der-build, build_ec_priv_der-bytes}
use gik_view.Pem.{newline, der_to_pem_string, pem_to_der}
use gik_view.CString.Laws.{Lacks}
use gik_view.Pem.RoundTrip.{pem_to_der-der_to_pem_string}
use gik_view.Json.{json_extract}
use gik_view.Json.Escape.{without_cr}
use gik_view.Jwt.{build_x5c_jwt}
use gik_view.X509.{parse_leaf_not_after}
use gik_view.Issue.{Https, Issued, sign_body, step_ca_sign}
use gik_view.Issue.Answers.{answer_body, read_answer-leaf}
use gik_view.Fs.{
  LittleFs, IsLittleFs, bs_cert, bs_key, dev_cert, dev_exp, read_file, read_exp, save_exp,
  print_ulong, present, same_file,
}
use gik_view.Boot.{by_expiry, decide_mode}
use gik_view.Boot.Save.{Outcome, kept, replaced, save_device_assets-Outcome}
use gik_view.Boot.Modes.{present-text, mode_of-present}
use gik_view.Fs.Expiry.{read_exp-save_exp}
use gik_view.Provision.{
  Device, Request, claims, gen_keypair_and_csr, sign_with_bootstrap, sign_with_first_cert,
  bootstrap_issue, store, to_ulong, finish_bootstrap, provision_cert,
}
use gik_view.Provision.Files.{removed}
use gik_view.Provision.Renewal.{HasRoom, pem_shown, stores}

-- A text that is the PEM of a certificate that the buffers of 600 bytes and of the token can take.
pub record IsCertificate (text der : Bytes) : Type 0 where
  pub printed : text ≡ der_to_pem_string der (codes "CERTIFICATE")
  pub bytes : All IsByte der
  pub shown : (length der == 0) ≡ false
  pub fits : length der ≤ 597

-- A text that is the PEM of an EC private key.
pub record IsKey (text key : Bytes) : Type 0 where
  pub pub_xy : Bytes
  pub printed : text ≡ der_to_pem_string (build_ec_priv_der key pub_xy) (codes "EC PRIVATE KEY")
  pub key_length : length key ≡ 32
  pub xy_length : length pub_xy ≡ 64
  pub key_bytes : All IsByte key
  pub xy_bytes : All IsByte pub_xy

-- The server signs a request with a token: it answers with the status 200 or 201 and a certificate
-- whose text is not empty and whose expiry can be read.
pub record Signs (https : Https) (csr_pem jwt leaf rest : Bytes) (t : ℕ) : Type 0 where
  pub status : ℕ
  pub ok : (status ≡ 200) ⊎ (status ≡ 201)
  pub answered :
      https (codes "/1.0/sign") (sign_body csr_pem jwt) none ≡ some (status, answer_body leaf rest)
  pub shown : (length (without_cr leaf) == 0) ≡ false
  pub parsed : parse_leaf_not_after (without_cr leaf) ≡ some (some (pos t))

-- Either PEM text is read back where its DER fits.
read_pem :
    (text der label : Bytes) (room : ℕ)
    → text ≡ der_to_pem_string der label
    → All IsByte der
    → Lacks newline label
    → length der ≤ 765
    → length der ≤ room
    → pem_to_der text room ≡ der
read_pem text der label room printed bytes plain small fits =
    ap (λ x. pem_to_der x room) (printed ∙ sym (append-nil (der_to_pem_string der label)))
    ∙ pem_to_der-der_to_pem_string der label [] room bytes plain small
    ∙ ground (arith, fits)

read_certificate : {text der : Bytes} → IsCertificate text der → pem_to_der text 600 ≡ der
read_certificate {text} {der} c =
    read_pem text der (codes "CERTIFICATE") 600 c.printed c.bytes (omega arith)
      (omega (arith, c.fits)) (omega (arith, c.fits))

certificate_shown : {text der : Bytes} → IsCertificate text der → (length text == 0) ≡ false
certificate_shown {text} {der} c =
    ap (λ x. length x == 0) c.printed ∙ pem_shown der (codes "CERTIFICATE")

read_key :
    {text key : Bytes} (k : IsKey text key)
    → (pem_to_der text 200 ≡ build_ec_priv_der key k.pub_xy)
      × ((length text == 0) ≡ false)
      × ((length (build_ec_priv_der key k.pub_xy) == 0) ≡ false)
      × (ec_priv_from_der (build_ec_priv_der key k.pub_xy) ≡ some key)
read_key {text} {key} k =
    let built = ec_priv_from_der-build key k.pub_xy k.key_length k.xy_length in
    let der = build_ec_priv_der key k.pub_xy in
    let label = codes "EC PRIVATE KEY" in
    let n = built.0 in
    (
      read_pem text der label 200 k.printed
          (build_ec_priv_der-bytes key k.pub_xy k.key_length k.xy_length k.key_bytes k.xy_bytes)
          (omega arith) (omega (arith, n)) (omega (arith, n)),
      ap (λ x. length x == 0) k.printed ∙ pem_shown der label,
      ap (λ x. x == 0) n,
      built.1,
    )

abbrev issued : Bytes → Bytes → ℕ → Issued
issued leaf rest t = record {
  leaf = without_cr leaf;
  inter = json_extract (answer_body leaf rest) (codes "ca");
  not_after = some (pos t);
}

signed :
    {https : Https} {csr_pem jwt leaf rest : Bytes} {t : ℕ}
    → Signs https csr_pem jwt leaf rest t
    → step_ca_sign https csr_pem jwt ≡ some (issued leaf rest t)
unfolding step_ca_sign
signed {leaf = leaf} {rest = rest} s =
    rw (s.answered, (read_answer-leaf s.status leaf rest).0 s.ok s.shown, s.parsed, ◌>>=◌) refl

read_exp_same :
    (fs : LittleFs) (f g : fs.Files)
    → fs.content f dev_exp ≡ fs.content g dev_exp
    → read_exp fs f ≡ read_exp fs g
unfolding read_exp read_file
read_exp_same fs f g e = rw e refl

module _ (fs : LittleFs) (laws : IsLittleFs fs) (room : HasRoom fs) (d : Device)
    (f : fs.Files) where
  -- The bootstrap ends with success, and the next boot decides by the expiry without a bootstrap
  -- certificate.
  abbrev Booted : ℕ → ℕ → Bool × fs.Files → Type 0
  Booted now t r = (r.0 ≡ true) × (decide_mode fs now r.1 ≡ by_expiry false now t)

  finished :
      (now t : ℕ) {written : fs.Files} {r : Bool × fs.Files}
      → t < 2 ^ 32
      → Outcome fs laws f written t r
      → r.0 ≡ true
      → Booted now t (finish_bootstrap d fs r)
  unfolding finish_bootstrap decide_mode same_file read_file
  finished now t small (kept h) e = cc
  finished now t small (replaced g cert chain key shown _ bs _) e =
      let saved = save_exp fs t g in
      (
        refl,
        mode_of-present now
            (ap present (removed d fs laws saved dev_cert ∙ cert) ∙ present-text _ shown)
            (ap present (removed d fs laws saved bs_cert))
            (read_exp_same fs _ saved (removed d fs laws saved dev_exp)
              ∙ read_exp-save_exp fs laws t g small (room g dev_exp (print_ulong t))),
      )

  module _ (r1 r2 : Request) (boot key jwt1 leaf1 rest1 first jwt2 leaf2 rest2 : Bytes)
      (t1 t : ℕ) where
    boot_signed :
        IsCertificate (read_file fs bs_cert f) boot
        → IsKey (read_file fs bs_key f) key
        → build_x5c_jwt d.sha256 d.sign boot key (claims d (codes "device-bootstrap") 0) ≡ some jwt1
        → Signs d.https r1.csr_pem jwt1 leaf1 rest1 t1
        → sign_with_bootstrap d fs r1.csr_pem f ≡ some (issued leaf1 rest1 t1)
    unfolding sign_with_bootstrap
    boot_signed cert k made answer =
        let (der, key_shown, der_shown, scalar) = read_key k in
        rw
          (
            certificate_shown cert,
            key_shown,
            read_certificate cert,
            cert.shown,
            der,
            der_shown,
            scalar,
            made,
            ◌>>=◌,
          )
          (signed answer)

    first_signed :
        IsCertificate (without_cr leaf1) first
        → build_x5c_jwt d.sha256 d.sign first r1.priv (claims d (codes "device-renewal") 1)
          ≡ some jwt2
        → Signs d.https r2.csr_pem jwt2 leaf2 rest2 t
        → sign_with_first_cert d (without_cr leaf1) r1.priv r2.csr_pem ≡ some (issued leaf2 rest2 t)
    unfolding sign_with_first_cert
    first_signed cert made answer =
        rw (read_certificate cert, cert.shown, made, ◌>>=◌) (signed answer)

    stored :
        (now : ℕ)
        → t < 2 ^ 32
        → (length (without_cr leaf2) == 0) ≡ false
        → bootstrap_issue d fs f ≡ some (record { request = r2; issued = issued leaf2 rest2 t })
        → Booted now t (provision_cert d fs false f)
    unfolding provision_cert store to_ulong
    stored now small shown e =
        rw (provision_cert, e)
          (finished now t small
            (save_device_assets-Outcome fs laws (without_cr leaf2) _ r2.priv r2.pub_xy t f)
            (stores fs laws room (without_cr leaf2) _ r2.priv r2.pub_xy t f shown))

    -- A bootstrap succeeds if everything answers: two requests were made, the files hold the PEM of
    -- a certificate of at most 597 bytes and of a private key, the signer answers for both tokens,
    -- the server answers each request and token with the status 200 or 201 and a certificate whose
    -- text is not empty and whose expiry can be read, the first of them a PEM block of at most 597
    -- bytes of DER and the second with an expiry below 2 ^ 32, and the flash has room. The next
    -- boot then decides by that expiry, without a bootstrap certificate.
    pub provision_cert-bootstraps :
        (now : ℕ)
        → gen_keypair_and_csr d 0 ≡ some r1
        → gen_keypair_and_csr d 1 ≡ some r2
        → IsCertificate (read_file fs bs_cert f) boot
        → IsKey (read_file fs bs_key f) key
        → build_x5c_jwt d.sha256 d.sign boot key (claims d (codes "device-bootstrap") 0) ≡ some jwt1
        → Signs d.https r1.csr_pem jwt1 leaf1 rest1 t1
        → IsCertificate (without_cr leaf1) first
        → build_x5c_jwt d.sha256 d.sign first r1.priv (claims d (codes "device-renewal") 1)
          ≡ some jwt2
        → Signs d.https r2.csr_pem jwt2 leaf2 rest2 t
        → t < 2 ^ 32
        → Booted now t (provision_cert d fs false f)
    unfolding bootstrap_issue
    provision_cert-bootstraps now one two cert k made answer first_cert made' answer' small =
        stored now small answer'.shown (
          rw
            (
              bootstrap_issue,
              one,
              boot_signed cert k made answer,
              two,
              first_signed first_cert made' answer',
              ◌>>=◌,
            )
            refl)
