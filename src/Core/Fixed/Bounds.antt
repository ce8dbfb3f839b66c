-- ===== src/Core/Fixed/Bounds.antt =====
-- The checked operations of crates/loreloom-core/src/numeric.rs against exact arithmetic.
use native.Mathlib.Nat.{mul-le-mul}
use loreloom.Prelude.{
  ◌*◌, ◌^◌, ◌≤◌, ◌≡◌, inl, inr, arith, ◌==◌, ==_iff, Bool-cases, if◌then◌else◌, ok, err, ◌%◌,
}
use loreloom.Prelude.Int.{
  ℤ, abs, signed, sign_differs, ◌-ℤ◌, ◌*ℤ◌, ◌≤ℤ◌, IsI64, abs-signed, +ℤ_cancel,
}
use loreloom.Core.Revision.{division_by_zero}
use loreloom.Core.Fixed.{Fixed, scale, checked, add, sub, mul, div, clamp, i64_from_i128}
use loreloom.Core.Fixed.Rounding.{nearest, round_ratio-total, round_ratio-IsNearest}

abs-le_of_i64 : (a : ℤ) → IsI64 a → abs a ≤ 2 ^ 63
abs-le_of_i64 a h = ground arith

abs-* : (a b : ℤ) → abs (a *ℤ b) ≡ abs a * abs b
unfolding ◌*ℤ◌
abs-* a b = abs-signed (sign_differs a b) (abs a * abs b)

abs-*-le : (a b : ℤ) → IsI64 a → IsI64 b → abs (a *ℤ b) ≤ 2 ^ 126
abs-*-le a b ha hb = rw (abs-* a b) (mul-le-mul (abs-le_of_i64 a ha) (abs-le_of_i64 b hb))

-- The exact ratio rounded to nearest.
abbrev pub rounded : ℤ → ℤ → ℤ
rounded a b = signed (sign_differs a b) (nearest (abs a) (abs b))

-- The product of two `i64` values is the exact product divided by the scale and rounded to nearest,
-- a tie to even, if an `i64` holds that, and `overflow` otherwise: no check inside fails before.
pub mul-rounded :
    (a b : Fixed)
    → IsI64 a.micros
    → IsI64 b.micros
    → mul a b ≡ checked (rounded (a.micros *ℤ b.micros) scale)
unfolding mul i64_from_i128
mul-rounded a b ha hb =
    let total =
      round_ratio-total (a.micros *ℤ b.micros) scale (omega arith) (omega arith)
        (abs-*-le a.micros b.micros ha hb) in
    rw total

-- The division of two `i64` values is `division_by_zero` at a zero divisor; otherwise it is the
-- exact ratio rounded to nearest, a tie to even, if an `i64` holds that, and `overflow` if not.
pub div-rounded :
    (a b : Fixed)
    → IsI64 a.micros
    → IsI64 b.micros
    → div a b ≡ (
        if abs b.micros == 0
        then err division_by_zero
        else checked (rounded (a.micros *ℤ scale) b.micros))
unfolding div i64_from_i128
div-rounded a b ha hb = elim (Bool-cases (abs b.micros == 0)) [
  | inl z ↦ rw z
  | inr nz ↦
      let bound : abs b.micros ≤ 2 ^ 126 = omega (arith, abs-le_of_i64 b.micros hb) in
      let total =
        round_ratio-total (a.micros *ℤ scale) b.micros (ground (arith, ==_iff (abs b.micros) 0))
          bound (abs-*-le a.micros scale ha (omega arith)) in
      rw (nz, total)
]

-- A product that is returned differs from the exact product by at most half a millionth, and by
-- exactly half a millionth only where it is even.
pub mul-error :
    (a b c : Fixed)
    → mul a b ≡ ok c
    → (2 * abs (a.micros *ℤ b.micros -ℤ c.micros *ℤ scale) ≤ 1_000_000)
      × (2 * abs (a.micros *ℤ b.micros -ℤ c.micros *ℤ scale) ≡ 1_000_000 → abs c.micros % 2 ≡ 0)
unfolding mul i64_from_i128
mul-error a b c e = round_ratio-IsNearest (a.micros *ℤ b.micros) scale c.micros (ground arith)

-- A sum of an `i64` value that is returned is an `i64` again, and subtracting the other summand
-- gives the value back.
pub sub-add : (a b c : Fixed) → IsI64 a.micros → add a b ≡ ok c → (sub c b ≡ ok a) × IsI64 c.micros
unfolding add sub
sub-add a b c ha e = ground (arith, +ℤ_cancel a.micros b.micros)

-- Between bounds that are in order, `clamp` returns a value within them, and a value that is within
-- them already is returned as it is.
clamp_bounds :
    (a lo hi : Fixed)
    → lo.micros ≤ℤ hi.micros
    → (lo.micros ≤ℤ (clamp a lo hi).micros)
      × ((clamp a lo hi).micros ≤ℤ hi.micros)
      × (lo.micros ≤ℤ a.micros → a.micros ≤ℤ hi.micros → clamp a lo hi ≡ a)
unfolding clamp
clamp_bounds a lo hi h = ground arith
