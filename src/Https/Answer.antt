-- ===== src/Https/Answer.antt =====
-- The requests of stepca.cpp over the HTTP client: what the server prints is what is issued.
use gik_view.Prelude.{
  ℕ, ◌+◌, ◌^◌, ◌<◌, ◌≡◌, refl, ap, ◌∙◌, Option, false, none, some, List, ◌∷◌, Bytes, codes, length,
  arith, ◌==◌, ◌>>=◌, ◌⊎◌, All, take_all,
}
use gik_view.CString.Laws.{Lacks}
use gik_view.Json.{json_extract}
use gik_view.Json.Escape.{without_cr}
use gik_view.X509.{parse_leaf_not_after}
use gik_view.Fs.{LittleFs}
use gik_view.Issue.{Issued, rekey_body, sign_body, step_ca_sign, step_ca_rekey, read_answer}
use gik_view.Issue.Answers.{answer_body, read_answer-leaf}
use gik_view.Https.{TlsClient, seen, post, request_text}
use gik_view.Https.Trim.{lines_text, status_line}
use gik_view.Https.Delivery.{IsDelivery, InTime}
use gik_view.Https.Response.{IsOther, header_lines, Connects, stepca_https-response}

module _ (t : TlsClient) (Delivers : t.Conn → Bytes → Type 0) (lag : t.Conn → ℕ)
    (laws : IsDelivery t Delivers lag) (fs : LittleFs) (host : Bytes) (port rounds : ℕ)
    (f : fs.Files) where
  -- The server answers a request with a certificate, as its JSON text with its length, and nothing
  -- behind it, soon enough and in few enough pieces.
  pub record Answers (path body : Bytes) (client : Option (Bytes × Bytes)) (status : ℕ)
      (leaf rest : Bytes) : Type 0 where
    pub conn : t.Conn
    pub reason : Bytes
    pub front : List Bytes
    pub back : List Bytes
    pub made : Connects t fs host port f client conn
    pub delivered : Delivers (t.print (request_text host port (codes "POST") path body) conn) (
        lines_text
          (status_line status reason ∷ header_lines front (length (answer_body leaf rest)) back)
          (answer_body leaf rest))
    pub in_time :
        let sent = t.print (request_text host port (codes "POST") path body) conn in
        InTime t lag (t.millis sent) sent
    pub one_line : Lacks 10 reason
    pub others : All IsOther front × All IsOther back
    pub size : length (answer_body leaf rest) < 2 ^ 31
    pub enough :
        length (header_lines front (length (answer_body leaf rest)) back)
          + length (answer_body leaf rest)
          + lag (t.print (request_text host port (codes "POST") path body) conn)
        < rounds

  posted :
      (path body : Bytes) (client : Option (Bytes × Bytes)) (status : ℕ) (leaf rest : Bytes)
      → Answers path body client status leaf rest
      → status < 1000
      → post t fs host port rounds f path body client ≡ some (status, answer_body leaf rest)
  unfolding post
  posted path body client status leaf rest a s =
      let text = answer_body leaf rest in
      let r =
        stepca_https-response t Delivers lag laws fs host port rounds f (codes "POST") path body
          client a.conn status (length text) a.reason a.front a.back text a.made a.delivered
          a.in_time s a.one_line a.others.0 a.others.1 (omega arith) a.size a.enough in
      ap seen r ∙ unfold seen in rw (take_all (length text) text (omega arith)) refl

  -- Over the HTTP client, with a server that answers both requests with the status 200 or 201 and a
  -- certificate whose text is not empty: each request issues that certificate with its expiry, if
  -- the expiry can be read.
  pub requests-issue :
      (csr_pem jwt chain key : Bytes) (status : ℕ) (leaf rest : Bytes)
      → (status ≡ 200) ⊎ (status ≡ 201)
      → (length (without_cr leaf) == 0) ≡ false
      → Answers (codes "/1.0/sign") (sign_body csr_pem jwt) none status leaf rest
      → Answers (codes "/1.0/rekey") (rekey_body csr_pem) (some (chain, key)) status leaf rest
      → let issued : Option Issued = parse_leaf_not_after (without_cr leaf) >>= λ n. some (record {
        leaf = without_cr leaf;
        inter = json_extract (answer_body leaf rest) (codes "ca");
        not_after = n;
      }) in
        (step_ca_sign (post t fs host port rounds f) csr_pem jwt ≡ issued)
        × (step_ca_rekey (post t fs host port rounds f) csr_pem chain key ≡ issued)
  unfolding step_ca_sign step_ca_rekey
  requests-issue csr_pem jwt chain key status leaf rest ok shown signs rekeys =
      let small : status < 1000 = ground (arith, ok) in
      let read = (read_answer-leaf status leaf rest).0 ok shown in
      (
        ap read_answer (posted _ _ _ status leaf rest signs small) ∙ read,
        ap read_answer (posted _ _ _ status leaf rest rekeys small) ∙ read,
      )
