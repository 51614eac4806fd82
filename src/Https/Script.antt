-- ===== src/Https/Script.antt =====
-- A connection that satisfies the laws: its text comes at once after some pauses, and then the
-- other side closes it, or stays in silence.
use gik_view.Prelude.{
  ℕ, ◌+◌, ◌-◌, ◌%◌, ◌^◌, ◌≡◌, refl, ap, ◌∙◌, Bool, true, false, ◌&&◌, ◌||◌, not, Option, none, some,
  [], ◌∷◌, ◌++◌, Bytes, arith, ◌==◌, and_false,
}
use gik_view.CString.Laws.{Lacks}
use gik_view.Https.{TlsClient}
use gik_view.CString.Split.{split_at, split_at-append}
use gik_view.Https.Delivery.{IsDelivery}
use gik_view.Https.Stall.{IsStall}

pub record Script : Type 0 where
  pub text : Bytes
  pub wait : ℕ
  pub now : ℕ

abbrev pub first : Bytes → ℕ
first [] = 0
first (b ∷ text) = b

abbrev pub rest : Bytes → Bytes
rest [] = []
rest (b ∷ text) = text

abbrev pub is_empty : Bytes → Bool
is_empty [] = true
is_empty (b ∷ text) = false

abbrev pub line_of : Option (Bytes × Bytes) → Bytes → Bytes × Bytes
line_of none text = (text, [])
line_of (some r) text = r

unfoldable pub first_line : Bytes → Bytes × Bytes
unfolding split_at
first_line text = line_of (split_at 10 text) text

-- `stays`: the other side does not close the connection. `here` is the connection that is made.
abbrev pub scripted : Bool → Script → TlsClient
scripted stays here = record {
  Conn = Script;
  from_string = λ host. some 1;
  connect = λ ca client ip port. some here;
  print = λ text c. c;
  available = λ c. c.wait == 0 && not (is_empty c.text);
  connected = λ c. stays || not (is_empty c.text);
  read = λ c. (first c.text, record c { text = rest c.text });
  read_line = λ c. ((first_line c.text).0, record c { text = (first_line c.text).1 });
  pause = λ ms c. record c { wait = c.wait - 1; now = c.now + ms };
  millis = λ c. c.now % 2 ^ 32;
}

abbrev pub Holds : Script → Bytes → Type 0
Holds c text = c.text ≡ text

first_line-append :
    (line text : Bytes) → Lacks 10 line → first_line (line ++ 10 ∷ text) ≡ (line, text)
unfolding first_line
first_line-append line text h = rw (split_at-append 10 line text h) refl

module _ (here : Script) where
  pub scripted-IsDelivery : IsDelivery (scripted false here) Holds (λ c. c.wait)
  scripted-IsDelivery = record {
    none_left = λ c h. rw h (and_false (c.wait == 0));
    not_closed = λ c b text h e. rw h refl;
    next_byte = λ c b text h e. (ap first h, ap rest h, omega arith);
    next_line = λ c line text h one.
        let r = ap first_line h ∙ first_line-append line text one in
        (ap (λ (x : Bytes × Bytes). x.0) r, ap (λ (x : Bytes × Bytes). x.1) r, omega arith);
    later = λ c text ms h e up. (h, ground (arith, e, up));
  }

  pub scripted-IsStall : IsStall (scripted true here) Holds
  scripted-IsStall = record {
    none_left = λ c h. rw h (and_false (c.wait == 0));
    still_open = λ c text h. refl;
    next_byte = λ c b text h e. (ap first h, ap rest h);
    next_line = λ c line text h one.
        let r = ap first_line h ∙ first_line-append line text one in
        (ap (λ (x : Bytes × Bytes). x.0) r, ap (λ (x : Bytes × Bytes). x.1) r);
    later = λ c text ms h e. h;
  }
