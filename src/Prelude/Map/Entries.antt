-- ===== src/Prelude/Map/Entries.antt =====
-- The entries of a map: keys are distinct, a predicate holds of each, and a map is rebuilt from its
-- entries by inserting them in order.
use loreloom.Prelude.Tests.{Bool-cases}
use loreloom.Prelude.Keys.{Eq, ◌=?◌}
use mathlib.Core.Path.{◌≡◌, refl}
use mathlib.Core.Logic.{inl, inr}
use mathlib.Core.Bool.{false}
use mathlib.Core.Option.{none}
use mathlib.Core.List.{[], ◌∷◌, ◌++◌}
use native.Mathlib.Omega.{arith}
use loreloom.Prelude.Map.{Map, get, insert, remove, get-insert, get-remove}

module _ {ℓ} {K V : Type ℓ} where
  abbrev pub Entries {κ} : (K → V → Type κ) → Map K V → Type κ
  Entries P [] = Unit
  Entries P ((k, v) ∷ m) = P k v × Entries P m

module _ {ℓ} {K V : Type ℓ} ⦃e : Eq K⦄ where
  abbrev pub Distinct : Map K V → Type ℓ
  Distinct [] = Unit
  Distinct ((k, v) ∷ m) = (get k m ≡ none) × Distinct m

  pub insert-Distinct : (k : K) (v : V) (m : Map K V) → Distinct m → Distinct (insert k v m)
  unfolding insert get
  insert-Distinct k v [] d = (refl, tt)
  insert-Distinct k v ((j, w) ∷ m) d =
      ground
        (arith, e.equals_iff j k, e.equals_iff k j, get-insert k j v m, insert-Distinct k v m d.1)

  pub remove-Distinct : (k : K) (m : Map K V) → Distinct m → Distinct (remove k m)
  unfolding remove
  remove-Distinct k [] d = tt
  remove-Distinct k ((j, w) ∷ m) d =
      ground (arith, e.equals_iff j k, e.equals_iff k j, get-remove k j m, remove-Distinct k m d.1)

  pub insert-Entries {κ} :
      (P : K → V → Type κ) (k : K) (v : V) (m : Map K V)
      → P k v
      → Entries P m
      → Entries P (insert k v m)
  unfolding insert
  insert-Entries P k v [] p h = (p, tt)
  insert-Entries P k v ((j, w) ∷ m) p h = elim (Bool-cases (j =? k)) [
    | inl y ↦ rw y (p, h.1)
    | inr n ↦ rw n (h.0, insert-Entries P k v m p h.1)
  ]

  pub remove-Entries {κ} :
      (P : K → V → Type κ) (k : K) (m : Map K V) → Entries P m → Entries P (remove k m)
  unfolding remove
  remove-Entries P k [] h = tt
  remove-Entries P k ((j, w) ∷ m) h = elim (Bool-cases (j =? k)) [
    | inl y ↦ rw y (remove-Entries P k m h.1)
    | inr n ↦ rw n (h.0, remove-Entries P k m h.1)
  ]

  -- A key that is not there is inserted at the end.
  pub insert-append :
      (k : K) (v : V) (m : Map K V) → get k m ≡ none → insert k v m ≡ m ++ (k, v) ∷ []
  unfolding insert get
  insert-append k v [] h = refl
  insert-append k v ((j, w) ∷ m) h = ground (arith, insert-append k v m)

  get-append_ne :
      (k j : K) (v : V) (m n : Map K V) → get j (m ++ (k, v) ∷ n) ≡ none → (k =? j) ≡ false
  unfolding get
  get-append_ne k j v [] n h = ground arith
  get-append_ne k j v ((i, w) ∷ m) n h = ground (arith, get-append_ne k j v m n)

  -- In a map with distinct keys no earlier entry has the key of a later one.
  pub get-prefix : (k : K) (v : V) (m n : Map K V) → Distinct (m ++ (k, v) ∷ n) → get k m ≡ none
  unfolding get
  get-prefix k v [] n d = refl
  get-prefix k v ((j, w) ∷ m) n d =
      ground
        (arith, e.equals_iff j k, e.equals_iff k j, get-append_ne k j v m n, get-prefix k v m n d.1)
