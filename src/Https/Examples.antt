-- ===== src/Https/Examples.antt =====
-- The theorems on the HTTP client at concrete requests and responses.
use gik_view.Prelude.{
  ℕ, zero, suc, ◌+◌, ◌*◌, ◌≡◌, refl, Bool, true, false, Option, none, some, List, [], ◌∷◌, ◌++◌,
  Bytes, codes, length, arith, ◌∙◌, inr, All, ◌-◌, ◌>>=◌,
}
use gik_view.CString.{starts_with}
use gik_view.CString.Laws.{lacks-Lacks}
use gik_view.Fs.{FileName, read_file}
use gik_view.Fs.Memory.{memory}
use gik_view.Issue.{Issued, rekey_body, sign_body, step_ca_sign, step_ca_rekey}
use gik_view.Issue.Answers.{answer_body}
use gik_view.Json.{append_json_escaped, json_extract}
use gik_view.Json.Escape.{without_cr}
use gik_view.X509.{parse_leaf_not_after}
use gik_view.Https.{trim, wait_answer, read_reply, stepca_https, post, request_text}
use gik_view.Https.Trim.{lines_text, status_line}
use gik_view.Https.Request.{received, requests-received}
use gik_view.Https.Delivery.{InTime, pauses}
use gik_view.Https.Response.{IsOther, header_lines, stepca_https-response}
use gik_view.Https.Stall.{WaitEnd, wait_answer_ends, read_reply-Stalls}
use gik_view.Https.Limit.{IsClock, read_reply-Ends}
use gik_view.Https.Script.{Script, scripted, Holds, scripted-IsDelivery, scripted-IsStall}
use gik_view.Https.Answer.{Answers, requests-issue}

requests-received_example :
    (received (
        request_text
          (codes "10.0.0.1")
          31900
          (codes "POST")
          (codes "/1.0/rekey")
          (rekey_body (codes "csr\r\n")))
      ≡ some (record {
        method = codes "POST";
        path = codes "/1.0/rekey";
        fields = (codes "csr", without_cr (codes "csr\r\n")) ∷ [];
      }))
    × (received (
          request_text
            (codes "10.0.0.1")
            31900
            (codes "POST")
            (codes "/1.0/sign")
            (sign_body (codes "csr\r\n") (codes "a.b.c")))
        ≡ some (record {
          method = codes "POST";
          path = codes "/1.0/sign";
          fields = (codes "csr", without_cr (codes "csr\r\n")) ∷ (codes "ott", codes "a.b.c") ∷ [];
        }))
requests-received_example =
    requests-received (codes "10.0.0.1") 31900 (codes "csr\r\n") (codes "a.b.c")
      (lacks-Lacks 10 (codes "10.0.0.1") refl) (refl, (refl, (refl, (refl, (refl, tt)))))
      (omega arith) (unfold rekey_body append_json_escaped in omega arith)
      (unfold sign_body append_json_escaped in omega arith)

abbrev blank : FileName → Option Bytes
blank = λ n. some (codes "text")

-- A header line of Go's server.
abbrev date_line : List Bytes
date_line = codes "Date: Thu, 01 Jan 2026 00:00:00 GMT" ∷ []

date_line-IsOther : All IsOther date_line
unfolding trim starts_with
date_line-IsOther =
    (((lacks-Lacks 10 (codes "Date: Thu, 01 Jan 2026 00:00:00 GMT") refl, refl), (refl, refl)), tt)

-- A server that answers after three pauses.
abbrev answering : Bytes → Script
answering text = record { text = text; wait = 3; now = 5000 }

now-pauses :
    (stays : Bool) (here : Script) (k : ℕ) (c : Script)
    → (pauses (scripted stays here) k c).now ≡ c.now + 10 * k
unfolding pauses
now-pauses stays here zero c = omega arith
now-pauses stays here (suc k) c =
    now-pauses stays here k (record c { wait = c.wait - 1; now = c.now + 10 }) ∙ omega arith

answering-InTime :
    (text : Bytes) → InTime (scripted false (answering text)) (λ c. c.wait) 5000 (answering text)
answering-InTime text k h = omega (arith, now-pauses false (answering text) k (answering text))

abbrev not_found : Bytes
not_found =
    lines_text (status_line 404 (codes " Not Found") ∷ header_lines date_line 9 [])
      (codes "not found")

stepca_https-response_example :
    stepca_https
      (scripted false (answering not_found))
      memory
      (codes "10.0.0.1")
      31900
      50
      blank
      (codes "GET")
      (codes "/health")
      []
      none
    ≡ some (record { returned = true; out_status = 404; out_resp_body = codes "not found" })
stepca_https-response_example =
    stepca_https-response (scripted false (answering not_found)) Holds (λ c. c.wait)
      (scripted-IsDelivery (answering not_found)) memory (codes "10.0.0.1") 31900 50 blank
      (codes "GET") (codes "/health") [] none (answering not_found) 404 9 (codes " Not Found")
      date_line [] (codes "not found")
      (record { trusted = unfold read_file in refl; ip = 1; addressed = refl; made = refl }) refl
      (answering-InTime not_found) (omega arith) (lacks-Lacks 10 (codes " Not Found") refl)
      date_line-IsOther tt (omega arith) (omega arith) (omega arith)

-- A connection on which nothing comes.
abbrev silent : Script
silent = record { text = []; wait = 0; now = 5000 }

wait_answer_ends_example :
    WaitEnd (scripted true silent) 5000 (wait_answer (scripted true silent) 1001 5000 silent)
wait_answer_ends_example =
    wait_answer_ends (scripted true silent) 1001 5000 silent
      (λ j h. omega (arith, now-pauses true silent j silent)) (omega arith)

-- A server that announces nine bytes and sends three.
abbrev cut_short : Script
cut_short = record {
  text =
      lines_text (status_line 404 (codes " Not Found") ∷ header_lines date_line 9 []) (codes "not");
  wait = 0;
  now = 5000;
}

read_reply-Stalls_example : read_reply (scripted true cut_short) 1000 cut_short ≡ none
read_reply-Stalls_example =
    read_reply-Stalls (scripted true cut_short) Holds (scripted-IsStall cut_short) 1000 404 9
      (codes " Not Found") date_line [] (codes "not") cut_short refl (unfold status_line in refl)
      (omega arith) (lacks-Lacks 10 (codes " Not Found") refl) date_line-IsOther tt (omega arith)
      (omega arith)

-- An answer whose certificate cannot be read.
abbrev answer : Bytes
answer =
    lines_text
      (status_line 201 (codes " Created")
        ∷ header_lines date_line (length (answer_body (codes "pem") (codes "}"))) [])
      (answer_body (codes "pem") (codes "}"))

answered :
    (path body : Bytes) (client : Option (Bytes × Bytes))
    → Answers
        (scripted false (answering answer))
        Holds
        (λ c. c.wait)
        (scripted-IsDelivery (answering answer))
        memory
        (codes "10.0.0.1")
        31900
        100
        blank
        path
        body
        client
        201
        (codes "pem")
        (codes "}")
answered path body client = record {
  conn = answering answer;
  reason = codes " Created";
  front = date_line;
  back = [];
  made = record { trusted = unfold read_file in refl; ip = 1; addressed = refl; made = refl };
  delivered = refl;
  in_time = answering-InTime answer;
  one_line = lacks-Lacks 10 (codes " Created") refl;
  others = (date_line-IsOther, tt);
  size = unfold append_json_escaped in omega arith;
  enough = unfold append_json_escaped in omega arith;
}

requests-issue_example :
    let issued : Option Issued = parse_leaf_not_after (without_cr (codes "pem")) >>= λ n.
    some (record {
      leaf = without_cr (codes "pem");
      inter = json_extract (answer_body (codes "pem") (codes "}")) (codes "ca");
      not_after = n;
    }) in
    (step_ca_sign
        (post (scripted false (answering answer)) memory (codes "10.0.0.1") 31900 100 blank)
        (codes "csr")
        (codes "jwt")
      ≡ issued)
    × (step_ca_rekey
          (post (scripted false (answering answer)) memory (codes "10.0.0.1") 31900 100 blank)
          (codes "csr")
          (codes "chain")
          (codes "key")
        ≡ issued)
requests-issue_example =
    requests-issue (scripted false (answering answer)) Holds (λ c. c.wait)
      (scripted-IsDelivery (answering answer)) memory (codes "10.0.0.1") 31900 100 blank
      (codes "csr") (codes "jwt") (codes "chain") (codes "key") 201 (codes "pem") (codes "}")
      (inr refl) (unfold without_cr in refl)
      (answered (codes "/1.0/sign") (sign_body (codes "csr") (codes "jwt")) none)
      (answered (codes "/1.0/rekey") (rekey_body (codes "csr")) (some (codes "chain", codes "key")))

-- A server that announces no length, sends three bytes and stays.
abbrev open_ended : Script
open_ended = record {
  text = lines_text (status_line 200 (codes " OK") ∷ date_line) (codes "yes");
  wait = 0;
  now = 5000;
}

open_ended-IsClock : IsClock (scripted true open_ended) (λ c. c.now)
open_ended-IsClock = record {
  counts = λ c. refl;
  reading = λ c. (omega arith, omega arith);
  pausing = λ c. (omega arith, omega arith);
}

read_reply-Ends_example :
    (front : Bytes) × (back : Bytes) × (codes "yes" ≡ front ++ back)
    × (read_reply (scripted true open_ended) 2010 open_ended
        ≡ some (record { returned = true; out_status = 200; out_resp_body = front }))
read_reply-Ends_example =
    read_reply-Ends (scripted true open_ended) Holds (scripted-IsStall open_ended) (λ c. c.now)
      open_ended-IsClock 2010 200 (codes " OK") date_line (codes "yes") open_ended refl
      (unfold status_line in refl) (omega arith) (lacks-Lacks 10 (codes " OK") refl)
      date_line-IsOther (omega arith) (omega arith)
