-- ===== src/Prelude/U256.antt =====
-- The operators of `U256`: they wrap, and a division by zero panics (`none`).
use Prim.Native.Nat.{ℕ, ◌+◌, ◌-◌, ◌*◌, ◌/◌, ◌%◌}
use mathlib.Core.Option.{Option, none, some}
use bodkin.Prelude.Tests.{◌==◌, if◌then◌else◌}
use bodkin.Prelude.Word.{u256_mod}

abbrev pub add : ℕ → ℕ → ℕ
add a b = (a + b) % u256_mod

abbrev pub sub : ℕ → ℕ → ℕ
sub a b = (a + u256_mod - b) % u256_mod

abbrev pub mul : ℕ → ℕ → ℕ
mul a b = a * b % u256_mod

abbrev pub div : ℕ → ℕ → Option ℕ
div a b = if b == 0 then none else some (a / b)
