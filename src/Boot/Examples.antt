-- ===== src/Boot/Examples.antt =====
-- Runs of the choice of a mode and of the storing, and the theorems on a flash in memory.
use gik_view.Prelude.{◌≡◌, refl, true, false, none, some, Option, Bytes, codes, take, replicate}
use gik_view.Pem.{der_to_pem_string}
use gik_view.Base64.{base64_encode}
use gik_view.Ec.{build_ec_priv_der}
use gik_view.Asn1.{asn1_seq, tagged, asn1_len}
use gik_view.Fs.{
  FileName, ca_cert, bs_key, dev_exp, dev_cert, dev_chain, dev_key, bs_cert, new_cert, new_chain,
  new_key, same_file,
}
use gik_view.Fs.Memory.{memory, memory-IsLittleFs}
use gik_view.Boot.{
  renew, fail, mode_of, decide_mode, replace_steps, run_steps, write_assets, save_device_assets,
}
use gik_view.Boot.Replace.{AtCut, replace_steps-cut}
use gik_view.Boot.Save.{Outcome, save_device_assets-Outcome}
use gik_view.Boot.Modes.{decide_mode-cut}

window : mode_of true false 1000000 1500000 ≡ renew
unfolding mode_of
window = refl

-- A device with its three files, and new ones beside them.
abbrev renewing : FileName → Option Bytes
renewing n = elim n [
  | ca_cert ↦ some (codes "root")
  | bs_cert ↦ none
  | bs_key ↦ none
  | dev_cert ↦ some (codes "old cert")
  | dev_chain ↦ some (codes "old chain")
  | dev_key ↦ some (codes "old key")
  | dev_exp ↦ some (codes "1767225600")
  | new_cert ↦ some (codes "cert")
  | new_chain ↦ some (codes "chain")
  | new_key ↦ some (codes "key")
]

abbrev scalar : Bytes
scalar = replicate 32 7

abbrev point : Bytes
point = replicate 64 9

replace_steps-cut_example : AtCut 3 renewing (run_steps memory (take 3 replace_steps) renewing)
replace_steps-cut_example = replace_steps-cut memory memory-IsLittleFs 3 renewing

save_device_assets-Outcome_example :
    Outcome memory memory-IsLittleFs renewing
      (write_assets memory (codes "leaf") (codes "inter") scalar point renewing)
      1798761600
      (save_device_assets memory (codes "leaf") (codes "inter") scalar point 1798761600 renewing)
save_device_assets-Outcome_example =
    save_device_assets-Outcome memory memory-IsLittleFs (codes "leaf") (codes "inter") scalar point
      1798761600 renewing

saved :
    (save_device_assets memory (codes "leaf") (codes "inter") scalar point 1798761600 renewing).0
    ≡ true
unfolding save_device_assets same_file der_to_pem_string base64_encode build_ec_priv_der asn1_seq
    tagged asn1_len
saved = refl

decide_mode-cut_example :
    decide_mode memory 1767225600 (run_steps memory (take 1 replace_steps) renewing) ≡ fail
decide_mode-cut_example = decide_mode-cut memory memory-IsLittleFs renewing 1767225600 refl
