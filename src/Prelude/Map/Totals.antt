-- ===== src/Prelude/Map/Totals.antt =====
-- The sum of a number over the values of a map, and what an insertion makes of it.
use Prim.Native.Nat.{ℕ, ◌+◌}
use loreloom.Prelude.Keys.{Eq}
use loreloom.Prelude.Map.{Map, get, insert}
use mathlib.Core.Path.{◌≡◌}
use mathlib.Core.Option.{none, some}
use mathlib.Core.List.{[], ◌∷◌}
use native.Mathlib.Omega.{arith}

module _ {K V : Type 0} ⦃e : Eq K⦄ (f : V → ℕ) where
  abbrev pub total : Map K V → ℕ
  total [] = 0
  total ((k, v) ∷ m) = f v + total m

  pub total-insert :
      (k : K) (v old : V) (m : Map K V)
      → get k m ≡ some old
      → total (insert k v m) + f old ≡ total m + f v
  unfolding get insert
  total-insert k v old [] h = ground arith
  total-insert k v old ((j, w) ∷ m) h = ground (arith, total-insert k v old m)

  pub total-insert_new :
      (k : K) (v : V) (m : Map K V) → get k m ≡ none → total (insert k v m) ≡ total m + f v
  unfolding get insert
  total-insert_new k v [] h = ground arith
  total-insert_new k v ((j, w) ∷ m) h = ground (arith, total-insert_new k v m)
