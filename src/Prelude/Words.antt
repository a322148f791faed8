-- ===== src/Prelude/Words.antt =====
-- The unsigned integer operations of Rust's core library, over numbers below a modulus.
use Prim.Native.Nat.{ℕ, ◌+◌, ◌-◌, ◌*◌, ◌^◌, min}
use mathlib.Core.Option.{Option, none, some}
use y_delta.Prelude.Tests.{ltb, leb, if◌then◌else◌}

abbrev pub u16_mod : ℕ
u16_mod = 2 ^ 16

abbrev pub u32_mod : ℕ
u32_mod = 2 ^ 32

abbrev pub u64_mod : ℕ
u64_mod = 2 ^ 64

abbrev pub u128_mod : ℕ
u128_mod = 2 ^ 128

abbrev pub u256_mod : ℕ
u256_mod = 2 ^ 256

-- `u64::MAX`
abbrev pub u64_max : ℕ
u64_max = 2 ^ 64 - 1

-- `uN::try_from`, with m the modulus 2 ^ N
abbrev pub try_from : ℕ → ℕ → Option ℕ
try_from m a = if ltb a m then some a else none

-- `checked_add` and `checked_mul` of the type with modulus m
abbrev pub checked_add : ℕ → ℕ → ℕ → Option ℕ
checked_add m a b = if ltb (a + b) m then some (a + b) else none

abbrev pub checked_mul : ℕ → ℕ → ℕ → Option ℕ
checked_mul m a b = if ltb (a * b) m then some (a * b) else none

-- `checked_sub` of any unsigned type
abbrev pub checked_sub : ℕ → ℕ → Option ℕ
checked_sub a b = if leb b a then some (a - b) else none

-- `saturating_sub` of any unsigned type: `-` stops at 0
abbrev pub saturating_sub : ℕ → ℕ → ℕ
saturating_sub a b = a - b

-- `saturating_add` of the type with modulus m
abbrev pub saturating_add : ℕ → ℕ → ℕ → ℕ
saturating_add m a b = min (a + b) (m - 1)
