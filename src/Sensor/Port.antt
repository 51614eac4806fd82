-- ===== src/Sensor/Port.antt =====
-- A serial port that satisfies the laws.
use gik_view.Prelude.{ℕ, ◌+◌, ◌-◌, ◌%◌, ◌^◌, refl, ◌++◌, Bytes, ltb, arith}
use gik_view.Sensor.{Uart}
use gik_view.Sensor.Command.{IsUart}

-- A port on which some characters wait.
pub record Line : Type 0 where
  pub written : Bytes
  pub now : ℕ
  pub waiting : ℕ

abbrev pub line_uart : Uart
line_uart = record {
  Port = Line;
  print = λ text p. record p { written = p.written ++ text };
  available = λ p. ltb 0 p.waiting;
  read = λ p. (b'.', record p { waiting = p.waiting - 1 });
  pause = λ ms p. record p { now = p.now + ms };
  millis = λ p. p.now % 2 ^ 32;
}

pub line_uart-IsUart : IsUart line_uart (λ p. p.written) (λ p. p.waiting) (λ p. p.now)
line_uart-IsUart = record {
  sent-print = λ text p. refl;
  sent-read = λ p. refl;
  sent-pause = λ ms p. refl;
  left-print = λ text p. omega arith;
  left-read = λ p h. ground (arith, h);
  left-pause = λ ms p. omega arith;
  clock = λ p. refl;
  delayed = λ ms p. (omega arith, omega arith);
  reading = λ p. (omega arith, omega arith);
}
