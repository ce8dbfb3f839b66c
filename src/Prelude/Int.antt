-- ===== src/Prelude/Int.antt =====
-- Signed integers over the native numbers, by sign and magnitude, under the library's names, with
-- the order, the checked range of an `i64`, and the truncated division of Rust's integers.
use loreloom.Prelude.Tests.{ltb, leb, ◌==◌, if◌then◌else◌}
use Prim.Native.Nat.{ℕ, zero, suc, ◌+◌, ◌-◌, ◌*◌, ◌/◌, ◌%◌, ◌^◌, ◌≤◌}
use mathlib.Core.Path.{◌≡◌, refl}
use mathlib.Core.Bool.{Bool, true, false, ◌&&◌}
use mathlib.Core.Option.{Option, none, some}
use native.Mathlib.Omega.{arith}

-- `negsuc n` is -(n + 1).
pub data ℤ : Type 0 where
  pos : ℕ → ℤ
  negsuc : ℕ → ℤ

abbrev pub pos_part : ℤ → ℕ
pos_part (pos n) = n
pos_part (negsuc n) = 0

abbrev pub neg_part : ℤ → ℕ
neg_part (pos n) = 0
neg_part (negsuc n) = suc n

-- `a.abs()` and `a.is_negative()`
abbrev pub abs : ℤ → ℕ
abs (pos n) = n
abs (negsuc n) = suc n

abbrev pub is_negative : ℤ → Bool
is_negative (pos n) = false
is_negative (negsuc n) = true

-- The integer with this magnitude, negative under `true`.
abbrev pub signed : Bool → ℕ → ℤ
signed false n = pos n
signed true zero = pos 0
signed true (suc n) = negsuc n

-- a - b, as an integer.
abbrev pub sub_ℕ : ℕ → ℕ → ℤ
sub_ℕ a b = if leb b a then pos (a - b) else negsuc (b - a - 1)

infixl 65 ◌+ℤ◌ ◌-ℤ◌
infixl 70 ◌*ℤ◌
infix 50 ◌≤ℤ◌
unfoldable pub ◌+ℤ◌ : ℤ → ℤ → ℤ
a +ℤ b = sub_ℕ (pos_part a + pos_part b) (neg_part a + neg_part b)

unfoldable pub ◌-ℤ◌ : ℤ → ℤ → ℤ
a -ℤ b = sub_ℕ (pos_part a + neg_part b) (neg_part a + pos_part b)

abbrev pub sign_differs : ℤ → ℤ → Bool
sign_differs (pos _) (pos _) = false
sign_differs (pos _) (negsuc _) = true
sign_differs (negsuc _) (pos _) = true
sign_differs (negsuc _) (negsuc _) = false

unfoldable pub ◌*ℤ◌ : ℤ → ℤ → ℤ
a *ℤ b = signed (sign_differs a b) (abs a * abs b)

-- Rust's `a / b` and `a % b`: truncation toward zero, the remainder with the sign of `a`.
unfoldable pub quot : ℤ → ℤ → ℤ
quot a b = signed (sign_differs a b) (abs a / abs b)

unfoldable pub rem : ℤ → ℤ → ℤ
rem a b = signed (is_negative a) (abs a % abs b)

abbrev pub ◌≤ℤ◌ : ℤ → ℤ → Type 0
a ≤ℤ b = pos_part a + neg_part b ≤ pos_part b + neg_part a

abbrev pub ltb_ℤ : ℤ → ℤ → Bool
ltb_ℤ a b = ltb (pos_part a + neg_part b) (pos_part b + neg_part a)

abbrev pub eqb_ℤ : ℤ → ℤ → Bool
eqb_ℤ a b = (pos_part a == pos_part b) && (neg_part a == neg_part b)

-- The value lies in the range of an `i64`.
abbrev pub fits_i64 : ℤ → Bool
fits_i64 a = leb (pos_part a) (2 ^ 63 - 1) && leb (neg_part a) (2 ^ 63)

abbrev pub IsI64 : ℤ → Type 0
IsI64 a = (pos_part a ≤ 2 ^ 63 - 1) × (neg_part a ≤ 2 ^ 63)

-- `checked_add` and the like: the exact value, if an `i64` holds it.
abbrev pub checked_i64 : ℤ → Option ℤ
checked_i64 a = if fits_i64 a then some a else none

pub abs-signed : (s : Bool) (n : ℕ) → abs (signed s n) ≡ n
abs-signed false n = refl
abs-signed true zero = refl
abs-signed true (suc n) = refl

pub +ℤ_cancel : (a b : ℤ) → a +ℤ b -ℤ b ≡ a
unfolding ◌+ℤ◌ ◌-ℤ◌
+ℤ_cancel a b = ground arith
