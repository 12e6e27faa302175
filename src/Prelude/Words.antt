-- ===== src/Prelude/Words.antt =====
-- Go's int64 (and `int`, of the same width on the supported platforms): two's complement.
use Prim.Native.Nat.{ℕ, ◌+◌, ◌-◌, ◌*◌, ◌%◌, ◌^◌, ◌≤◌}
use mathlib.Core.Path.{◌≡◌, refl}
use native.Mathlib.Omega.{arith}
use tiny_url.Prelude.Tests.{ltb, if◌then◌else◌}
use tiny_url.Prelude.Int.{ℤ, pos, negsuc}

abbrev pub max_int64 : ℕ
max_int64 = 2 ^ 63 - 1

abbrev to_bits : ℤ → ℕ
to_bits (pos n) = n % 2 ^ 64
to_bits (negsuc n) = 2 ^ 64 - 1 - n % 2 ^ 64

abbrev of_bits : ℕ → ℤ
of_bits b = if ltb b (2 ^ 63) then pos b else negsuc (2 ^ 64 - 1 - b)

unfoldable pub add64 : ℤ → ℤ → ℤ
add64 a b = of_bits ((to_bits a + to_bits b) % 2 ^ 64)

unfoldable pub mul64 : ℤ → ℤ → ℤ
mul64 a b = of_bits ((to_bits a * to_bits b) % 2 ^ 64)

unfoldable pub neg64 : ℤ → ℤ
neg64 a = of_bits ((2 ^ 64 - to_bits a) % 2 ^ 64)

pub add64-pos : (a b : ℕ) → a + b ≤ max_int64 → add64 (pos a) (pos b) ≡ pos (a + b)
unfolding add64
add64-pos a b h = ground arith

pub add64_wraps : add64 (pos max_int64) (pos 1) ≡ negsuc max_int64
unfolding add64
add64_wraps = refl
