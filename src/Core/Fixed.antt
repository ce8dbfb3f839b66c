-- ===== src/Core/Fixed.antt =====
-- crates/loreloom-core/src/numeric.rs: signed fixed-point numbers in millionths over an `i64`.
-- Intermediate products are `i128` in the source; they are exact integers here, and `rounding` has
-- the checks that the source makes on them.
pub mod Rounding
pub mod Bounds
use loreloom.Prelude.{
  ℕ, ◌*◌, ◌%◌, ◌^◌, ◌-◌, ◌≡◌, Bool, true, false, ◌&&◌, ◌||◌, not, Option, none, some, ltb, leb,
  ◌==◌, if◌then◌else◌, Result, ok, err, ok_or, ◌>>=◌, map_ok,
}
use loreloom.Prelude.Int.{
  ℤ, pos, negsuc, abs, is_negative, ◌+ℤ◌, ◌-ℤ◌, ◌*ℤ◌, quot, rem, ltb_ℤ, fits_i64, checked_i64,
}
use loreloom.Core.Revision.{FixedError, overflow, division_by_zero}

pub record Fixed : Type 0 where
  pub micros : ℤ

abbrev pub of_micros : ℤ → Fixed
of_micros m = record { micros = m }

abbrev pub scale : ℤ
scale = pos 1_000_000

abbrev pub zero_fixed : Fixed
zero_fixed = of_micros (pos 0)

-- `value.checked_op().map(Self).ok_or(Overflow)`
abbrev pub checked : ℤ → Result FixedError Fixed
checked m = map_ok of_micros (ok_or (checked_i64 m) overflow)

unfoldable pub from_integer : ℤ → Result FixedError Fixed
from_integer value = checked (value *ℤ scale)

unfoldable pub add : Fixed → Fixed → Result FixedError Fixed
add a b = checked (a.micros +ℤ b.micros)

unfoldable pub sub : Fixed → Fixed → Result FixedError Fixed
sub a b = checked (a.micros -ℤ b.micros)

-- `signum`
pub data Sign : Type 0 where
  negative null positive : Sign

abbrev pub signum : ℤ → Sign
signum (pos n) = if n == 0 then null else positive
signum (negsuc n) = negative

abbrev pub sign_beq : Sign → Sign → Bool
sign_beq negative negative = true
sign_beq null null = true
sign_beq positive positive = true
sign_beq _ _ = false

abbrev pub i128_max : ℕ
i128_max = 2 ^ 127 - 1

-- The quotient rounded to nearest, a tie to the even one.
unfoldable pub round_ratio : ℤ → ℤ → Result FixedError ℤ
round_ratio numerator denominator =
    if abs denominator == 0
    then err division_by_zero
    else (let quotient = quot numerator denominator in
        let remainder = rem numerator denominator in
        let twice_remainder = 2 * abs remainder in
        let denominator_abs = abs denominator in
        let round_away =
          ltb denominator_abs twice_remainder
          || (twice_remainder == denominator_abs && not (abs quotient % 2 == 0)) in
        let adjustment =
          if sign_beq (signum numerator) (signum denominator) then pos 1 else negsuc 0 in
        let adjusted = quotient +ℤ adjustment in
        if leb twice_remainder i128_max
        then (if round_away
            then (if leb (abs adjusted) i128_max then ok adjusted else err overflow)
            else ok quotient)
        else err overflow)

unfoldable pub i64_from_i128 : ℤ → Result FixedError ℤ
i64_from_i128 value = ok_or (checked_i64 value) overflow

unfoldable pub mul : Fixed → Fixed → Result FixedError Fixed
mul a b = map_ok of_micros (round_ratio (a.micros *ℤ b.micros) scale >>= i64_from_i128)

unfoldable pub div : Fixed → Fixed → Result FixedError Fixed
div a b =
    if abs b.micros == 0
    then err division_by_zero
    else map_ok of_micros (round_ratio (a.micros *ℤ scale) b.micros >>= i64_from_i128)

abbrev pub ltb_fixed : Fixed → Fixed → Bool
ltb_fixed a b = ltb_ℤ a.micros b.micros

-- `Ord::clamp`, which panics where the bounds are out of order: callers pass `minimum <= maximum`.
unfoldable pub clamp : Fixed → Fixed → Fixed → Fixed
clamp a minimum maximum =
    if ltb_fixed a minimum then minimum else if ltb_fixed maximum a then maximum else a
