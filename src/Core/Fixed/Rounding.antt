-- ===== src/Core/Fixed/Rounding.antt =====
-- `round_ratio` of crates/loreloom-core/src/numeric.rs against rounding to nearest, ties to even.
use loreloom.Prelude.{
  ℕ, suc, ◌+◌, ◌-◌, ◌*◌, ◌/◌, ◌%◌, ◌^◌, ◌≤◌, ◌<◌, ◌≡◌, inl, inr, Bool, true, false, ◌&&◌, ◌||◌, not,
  arith, ltb, ◌==◌, if◌then◌else◌, Bool-cases, ok,
}
use native.Mathlib.Nat.{div-add-mod', mod-lt, div-le_self}
use loreloom.Prelude.Int.{
  ℤ, pos, negsuc, abs, signed, sign_differs, ◌+ℤ◌, ◌-ℤ◌, ◌*ℤ◌, quot, rem, abs-signed,
}
use loreloom.Core.Fixed.{round_ratio, i128_max}

-- The rounding of a ratio of magnitudes: the reference for `round_ratio`.
away : ℕ → ℕ → ℕ → Bool
away q d r = ltb d (2 * r) || (2 * r == d && not (q % 2 == 0))

pub nearest : ℕ → ℕ → ℕ
nearest n d = if away (n / d) d (n % d) then n / d + 1 else n / d

abbrev gap : ℕ → ℕ → ℕ
gap a b = (a - b) + (b - a)

-- Within half a unit, and even at exactly half a unit.
abbrev IsNearest : ℕ → ℕ → ℕ → Type 0
IsNearest n d m = (2 * gap n (m * d) ≤ d) × (2 * gap n (m * d) ≡ d → m % 2 ≡ 0)

IsNearest-up : (n d q r : ℕ) → n ≡ q * d + r → r < d → away q d r ≡ true → IsNearest n d (q + 1)
unfolding away
IsNearest-up n d q r e h a = let p : (q + 1) * d ≡ q * d + d = omega arith in rw p (ground arith)

IsNearest-down : (n d q r : ℕ) → n ≡ q * d + r → r < d → away q d r ≡ false → IsNearest n d q
unfolding away
IsNearest-down n d q r e h a = ground arith

nearest-IsNearest : (n d : ℕ) → 0 < d → IsNearest n d (nearest n d)
unfolding nearest
nearest-IsNearest n d h =
    let e : n ≡ n / d * d + n % d = omega (arith, div-add-mod' n d) in
    elim (Bool-cases (away (n / d) d (n % d))) [
      | inl up ↦ rw (up, nearest) (IsNearest-up n d (n / d) (n % d) e (mod-lt n h) up)
      | inr down ↦ rw (down, nearest) (IsNearest-down n d (n / d) (n % d) e (mod-lt n h) down)
    ]

round_ratio-nearest :
    (a b : ℤ) {q : ℤ}
    → round_ratio a b ≡ ok q
    → (q ≡ signed (sign_differs a b) (nearest (abs a) (abs b))) × (0 < abs b)
unfolding round_ratio nearest away quot rem ◌+ℤ◌
round_ratio-nearest (pos a) (pos b) e = ground arith
round_ratio-nearest (pos a) (negsuc b) e = ground arith
round_ratio-nearest (negsuc a) (pos b) e = ground arith
round_ratio-nearest (negsuc a) (negsuc b) e = ground arith

abs-error :
    (a b : ℤ) (m : ℕ) → abs (a -ℤ signed (sign_differs a b) m *ℤ b) ≡ gap (abs a) (m * abs b)
unfolding ◌-ℤ◌ ◌*ℤ◌
abs-error (pos a) (pos b) m = ground arith
abs-error (pos a) (negsuc b) m = ground arith
abs-error (negsuc a) (pos b) m = ground arith
abs-error (negsuc a) (negsuc b) m = ground arith

-- A ratio that is returned is a nearest integer: the error is at most half of the denominator, and
-- where it is exactly half of it the integer is even.
pub round_ratio-IsNearest :
    (a b q : ℤ)
    → round_ratio a b ≡ ok q
    → (2 * abs (a -ℤ q *ℤ b) ≤ abs b) × (2 * abs (a -ℤ q *ℤ b) ≡ abs b → abs q % 2 ≡ 0)
round_ratio-IsNearest a b q e =
    let m = nearest (abs a) (abs b) in
    let (eq, p) = round_ratio-nearest a b e in
    rw (eq, abs-error a b m, abs-signed (sign_differs a b) m) (nearest-IsNearest (abs a) (abs b) p)

quotient_room : (a b : ℕ) → a ≤ 2 ^ 126 → a / b + 1 ≤ i128_max
quotient_room a b h = omega (arith, div-le_self a b)

remainder_room : (a b : ℕ) → 0 < b → b ≤ 2 ^ 126 → 2 * (a % b) ≤ i128_max
remainder_room a b p h = omega (arith, mod-lt a p)

-- On what two `i64` values can reach, no check inside `round_ratio` fails.
pub round_ratio-total :
    (a b : ℤ)
    → 0 < abs b
    → abs b ≤ 2 ^ 126
    → abs a ≤ 2 ^ 126
    → round_ratio a b ≡ ok (signed (sign_differs a b) (nearest (abs a) (abs b)))
unfolding round_ratio nearest away quot rem ◌+ℤ◌
round_ratio-total (pos a) (pos b) p hb ha = ground (arith, quotient_room a b, remainder_room a b)
round_ratio-total (pos a) (negsuc b) p hb ha =
    ground (arith, quotient_room a (suc b), remainder_room a (suc b))
round_ratio-total (negsuc a) (pos b) p hb ha =
    ground (arith, quotient_room (suc a) b, remainder_room (suc a) b)
round_ratio-total (negsuc a) (negsuc b) p hb ha =
    ground (arith, quotient_room (suc a) (suc b), remainder_room (suc a) (suc b))
