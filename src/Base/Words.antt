-- ===== src/Base/Words.antt =====
-- Unsigned 64-bit machine words: plain numbers, with the wrap-around of Go's uint64 written out.
use Prim.Native.Nat.{ℕ, ◌+◌, ◌-◌, ◌%◌, ◌≤◌, ◌<◌}
use mathlib.Core.Path.{◌≡◌}
use native.Mathlib.Omega.{arith}

-- 2 ^ 64
abbrev pub u64_mod : ℕ
u64_mod = 18446744073709551616

abbrev pub max_uint64 : ℕ
max_uint64 = 18446744073709551615

-- `big.Int.Uint64`: the low 64 bits of a number.
abbrev pub uint64 : ℕ → ℕ
uint64 n = n % u64_mod

abbrev pub add64 : ℕ → ℕ → ℕ
add64 a b = (a + b) % u64_mod

abbrev pub sub64 : ℕ → ℕ → ℕ
sub64 a b = (a + u64_mod - b) % u64_mod

pub sub64-eq-sub : (a b : ℕ) → b ≤ a → a < u64_mod → sub64 a b ≡ a - b
sub64-eq-sub a b h l = omega arith
