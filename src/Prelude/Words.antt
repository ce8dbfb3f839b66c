-- ===== src/Prelude/Words.antt =====
-- Unsigned machine words: the operations of Rust's integers that do not wrap.
use loreloom.Prelude.Tests.{leb, if◌then◌else◌}
use Prim.Native.Nat.{ℕ, ◌+◌, ◌-◌, ◌^◌, ◌≤◌}
use mathlib.Core.Option.{Option, none, some}
use native.Mathlib.Omega.{arith}

abbrev pub u8_max : ℕ
u8_max = 2 ^ 8 - 1

abbrev pub u16_max : ℕ
u16_max = 2 ^ 16 - 1

abbrev pub u32_max : ℕ
u32_max = 2 ^ 32 - 1

abbrev pub u64_max : ℕ
u64_max = 2 ^ 64 - 1

-- `usize` of the 64-bit targets.
abbrev pub usize_max : ℕ
usize_max = u64_max

-- `a.checked_add(b)` of a word with the given largest value.
abbrev pub checked_add : ℕ → ℕ → ℕ → Option ℕ
checked_add top a b = if leb (a + b) top then some (a + b) else none

-- `a.saturating_add(b)`; `saturating_sub` is `-` on ℕ.
abbrev pub saturating_add : ℕ → ℕ → ℕ → ℕ
saturating_add top a b = if leb (a + b) top then a + b else top

pub saturating_add-le : (top a b : ℕ) → saturating_add top a b ≤ top
saturating_add-le top a b = ground arith
