-- ===== src/Provision.antt =====
-- Getting a certificate, end/arduino/stepca.cpp: `provision_cert` and what it calls.
pub mod Files
pub mod Renewal
pub mod Bootstrap
mod Examples
use gik_view.Prelude.{
  ℕ, zero, suc, ◌+◌, ◌-◌, ◌%◌, ◌^◌, Bool, true, false, ◌&&◌, not, Option, none, some, List, [], ◌∷◌,
  ◌++◌, Bytes, codes, length, ◌==◌, if◌then◌else◌, ◌>>=◌, require,
}
use gik_view.Prelude.Int.{ℤ, pos, negsuc}
use gik_view.Csr.{build_csr}
use gik_view.Pem.{der_to_pem_string, pem_to_der}
use gik_view.Ec.{ec_priv_from_der}
use gik_view.Jwt.{Claims, build_x5c_jwt}
use gik_view.Issue.{Https, Issued, step_ca_sign, step_ca_rekey}
use gik_view.Fs.{LittleFs, read_file, bs_cert, bs_key, dev_cert, dev_chain, dev_key}
use gik_view.Boot.{save_device_assets}

-- What the firmware calls: SHA-256, ECDSA, the key generator (by the number of the call), HTTPS,
-- the clock and the random register (by the number of the token), and the name that `derive_cn`
-- gives. `undefined_time` is what an overflow leaves in `not_after`.
pub record Device : Type 0 where
  pub sha256 : Bytes → Bytes
  pub sign : Bytes → Bytes → Option Bytes
  pub make_key : ℕ → Option (Bytes × Bytes)
  pub https : Https
  pub cn : Bytes
  pub clock : ℕ → ℕ
  pub random : ℕ → ℕ × ℕ
  pub undefined_time : ℕ

-- A key pair and the request for it.
pub record Request : Type 0 where
  pub pub_xy : Bytes
  pub priv : Bytes
  pub csr_pem : Bytes

-- A certificate with its key pair.
pub record Credential : Type 0 where
  pub request : Request
  pub issued : Issued

-- `(unsigned long) exp`
unfoldable pub to_ulong : ℕ → Option ℤ → ℕ
to_ulong junk none = junk
to_ulong junk (some (pos n)) = n
to_ulong junk (some (negsuc n)) = 2 ^ 32 - 1 - n % 2 ^ 32

module _ (d : Device) where
  unfoldable pub gen_keypair_and_csr : ℕ → Option Request
  gen_keypair_and_csr call = do
    pair ← d.make_key call
    csr ← build_csr d.sha256 d.sign d.cn pair.0 pair.1
    some (record {
      pub_xy = pair.0;
      priv = pair.1;
      csr_pem = der_to_pem_string csr (codes "CERTIFICATE REQUEST");
    })

  abbrev pub claims : Bytes → ℕ → Claims
  claims provisioner token = record {
    cn = d.cn;
    provisioner = provisioner;
    now = d.clock token;
    r0 = (d.random token).0;
    r1 = (d.random token).1;
  }

  unfoldable pub sign_with_first_cert : Bytes → Bytes → Bytes → Option Issued
  sign_with_first_cert first_leaf_pem first_priv csr_pem =
      let cert_der = pem_to_der first_leaf_pem 600 in
      do
        _ ← require (not (length cert_der == 0))
        jwt ← build_x5c_jwt d.sha256 d.sign cert_der first_priv (claims (codes "device-renewal") 1)
        step_ca_sign d.https csr_pem jwt

module _ (d : Device) (fs : LittleFs) where
  unfoldable pub sign_with_bootstrap : Bytes → fs.Files → Option Issued
  sign_with_bootstrap csr_pem f =
      let cert_pem = read_file fs bs_cert f in
      let key_pem = read_file fs bs_key f in
      let cert_der = pem_to_der cert_pem 600 in
      let key_der = pem_to_der key_pem 200 in
      do
        _ ← require (not (length cert_pem == 0) && not (length key_pem == 0))
        _ ← require (not (length cert_der == 0) && not (length key_der == 0))
        signer_priv ← ec_priv_from_der key_der
        jwt ←
            build_x5c_jwt d.sha256 d.sign cert_der signer_priv
              (claims d (codes "device-bootstrap") 0)
        step_ca_sign d.https csr_pem jwt

  -- The part of the renewal before anything is written.
  unfoldable pub renew_issue : fs.Files → Option Credential
  unfolding gen_keypair_and_csr
  renew_issue f =
      let chain_pem = read_file fs dev_cert f in
      let key_pem = read_file fs dev_key f in
      do
        r ← gen_keypair_and_csr d 0
        _ ← require (not (length chain_pem == 0) && not (length key_pem == 0))
        answer ← step_ca_rekey d.https r.csr_pem (chain_pem ++ read_file fs dev_chain f) key_pem
        some (record { request = r; issued = answer })

  -- The two steps of a bootstrap, likewise.
  unfoldable pub bootstrap_issue : fs.Files → Option Credential
  unfolding gen_keypair_and_csr sign_with_bootstrap sign_with_first_cert
  bootstrap_issue f = do
    r1 ← gen_keypair_and_csr d 0
    first ← sign_with_bootstrap r1.csr_pem f
    r2 ← gen_keypair_and_csr d 1
    second ← sign_with_first_cert d first.leaf r1.priv r2.csr_pem
    some (record { request = r2; issued = second })

  unfoldable pub store : Credential → fs.Files → Bool × fs.Files
  unfolding to_ulong
  store c f =
      save_device_assets fs c.issued.leaf c.issued.inter c.request.priv c.request.pub_xy
        (to_ulong d.undefined_time c.issued.not_after) f

  -- The bootstrap assets go when the certificate is stored.
  unfoldable pub finish_bootstrap : Bool × fs.Files → Bool × fs.Files
  finish_bootstrap (false, f) = (false, f)
  finish_bootstrap (true, f) = (true, fs.remove bs_key (fs.remove bs_cert f))

  unfoldable pub provision_cert : Bool → fs.Files → Bool × fs.Files
  unfolding renew_issue bootstrap_issue store finish_bootstrap
  provision_cert true f = elim (renew_issue f) [ none ↦ (false, f) | some c ↦ store c f ]
  provision_cert false f = elim (bootstrap_issue f) [
    | none ↦ (false, f)
    | some c ↦ finish_bootstrap (store c f)
  ]
