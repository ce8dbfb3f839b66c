-- ===== src/Core/Locks/Dependencies.antt =====
-- What an accepted mod lock says of its dependencies, for `ModLock::validate` of
-- crates/loreloom-core/src/persistence.rs.
use loreloom.Prelude.{
  ℕ, zero, suc, ◌+◌, ◌<◌, ◌≡◌, ◌⊎◌, inl, inr, refl, Bool, true, false, ◌||◌, Option, none, some,
  List, [], ◌∷◌, arith, ltb, ltb→lt, ok, Text, text_eq, Eq, ◌=?◌, get_elem?, >>=-eq-ok,
  Option-cases, Bool-cases, text_beq_iff,
}
use loreloom.Prelude.Map.{Map, get, insert, get-insert, get-insert_self}
use loreloom.Core.Locks.{
  LockedMod, LockedDependency, ModLock, mod_positions, check_position, check_dependencies,
  check_mods, validate_mod_lock,
}

module _ {Version : Type 0} where
  -- Some mod has the identifier.
  abbrev pub mentions : Text → List (LockedMod Version) → Bool
  mentions k [] = false
  mentions k (locked ∷ rest) = locked.mod_id =? k || mentions k rest

  -- At the position stands a mod with the identifier.
  abbrev pub Stands : List (LockedMod Version) → Text → ℕ → Type 0
  Stands mods k i =
      (locked : LockedMod Version) × (get_elem? mods i ≡ some locked) × (locked.mod_id ≡ k)

  mod_positions-rest :
      (start : ℕ) (locked : LockedMod Version) (rest : List (LockedMod Version))
      (before after : Map Text ℕ)
      → mod_positions start (locked ∷ rest) before ≡ ok after
      → mod_positions (suc start) rest (insert locked.mod_id start before) ≡ ok after
  unfolding mod_positions
  mod_positions-rest start locked rest before after h = ground arith

  mod_positions-fresh :
      (start : ℕ) (locked : LockedMod Version) (rest : List (LockedMod Version))
      (before after : Map Text ℕ)
      → mod_positions start (locked ∷ rest) before ≡ ok after
      → get locked.mod_id before ≡ none
  unfolding mod_positions
  mod_positions-fresh start locked rest before after h =
      elim (Option-cases (get locked.mod_id before)) [
        | inl missing ↦ missing
        | inr (j, found) ↦ ground arith
      ]

  -- A position that is recorded stays.
  mod_positions-kept :
      (start : ℕ) (mods : List (LockedMod Version)) (before after : Map Text ℕ) (k : Text) (j : ℕ)
      → mod_positions start mods before ≡ ok after
      → get k before ≡ some j
      → get k after ≡ some j
  unfolding mod_positions
  mod_positions-kept start [] before after k j h found = ground arith
  mod_positions-kept start (locked ∷ rest) before after k j h found = ground (
    arith,
    mod_positions-rest start locked rest before after h,
    mod_positions-fresh start locked rest before after h,
    mod_positions-kept (suc start) rest (insert locked.mod_id start before) after k j,
    text_beq_iff locked.mod_id k,
    get-insert locked.mod_id k start before,
  )

  mod_positions-at :
      (start : ℕ) (mods : List (LockedMod Version)) (before after : Map Text ℕ) (i : ℕ)
      (locked : LockedMod Version)
      → mod_positions start mods before ≡ ok after
      → get_elem? mods i ≡ some locked
      → get locked.mod_id after ≡ some (start + i)
  mod_positions-at start [] before after i locked h at = cc
  mod_positions-at start (l ∷ rest) before after zero locked h at =
      let kept =
        mod_positions-kept (suc start) rest _ after l.mod_id start
          (mod_positions-rest start l rest before after h)
          (get-insert_self l.mod_id start before) in
      ground arith
  mod_positions-at start (l ∷ rest) before after (suc i) locked h at = ground (
    arith,
    mod_positions-at (suc start) rest _ after i locked
        (mod_positions-rest start l rest before after h) at,
  )

  mod_positions-Stands :
      (start : ℕ) (mods : List (LockedMod Version)) (before after : Map Text ℕ) (k : Text) (j : ℕ)
      → mod_positions start mods before ≡ ok after
      → get k after ≡ some j
      → (get k before ≡ some j) ⊎ ((i : ℕ) × (j ≡ start + i) × Stands mods k i)
  unfolding mod_positions
  mod_positions-Stands start [] before after k j h found = inl (ground arith)
  mod_positions-Stands start (locked ∷ rest) before after k j h found =
      elim (mod_positions-Stands (suc start) rest _ after k j
        (mod_positions-rest start locked rest before after h) found) [
          | inr (i, e, stands) ↦ inr (suc i, omega arith, stands)
          | inl old ↦ elim (Bool-cases (locked.mod_id =? k)) [
            | inl same ↦ inr (
              0,
              ground (arith, get-insert locked.mod_id k start before),
              (locked, refl, (text_beq_iff _ _).0 same),
            )
            | inr other ↦ inl (ground (arith, get-insert locked.mod_id k start before))
          ]
        ]

  mod_positions-missing :
      (start : ℕ) (mods : List (LockedMod Version)) (before after : Map Text ℕ) (k : Text)
      → mod_positions start mods before ≡ ok after
      → get k after ≡ none
      → (get k before ≡ none) × (mentions k mods ≡ false)
  unfolding mod_positions
  mod_positions-missing start [] before after k h found = ground arith
  mod_positions-missing start (locked ∷ rest) before after k h found = ground (
    arith,
    mod_positions-rest start locked rest before after,
    mod_positions-missing (suc start) rest (insert locked.mod_id start before) after k,
    get-insert locked.mod_id k start before,
  )

module _ {Version : Type 0} ⦃same : Eq Version⦄ where
  -- An earlier mod has the identifier and the version of the dependency.
  abbrev pub Precedes : List (LockedMod Version) → ℕ → LockedDependency Version → Type 0
  Precedes mods index d =
      (i : ℕ) × (i < index)
      × ((locked : LockedMod Version) × (get_elem? mods i ≡ some locked)
          × (locked.mod_id ≡ d.mod_id)
          × (locked.version ≡ d.version))

  -- The dependency is fulfilled by an earlier mod, or it is optional and no mod has its identifier.
  abbrev pub IsFulfilled : List (LockedMod Version) → ℕ → LockedDependency Version → Type 0
  IsFulfilled mods index d =
      Precedes mods index d ⊎ ((d.optional ≡ true) × (mentions d.mod_id mods ≡ false))

  check_mods-at :
      (mods : List (LockedMod Version)) (positions : Map Text ℕ) (start : ℕ)
      (rest : List (LockedMod Version)) (i index : ℕ) (locked : LockedMod Version)
      → index ≡ start + i
      → check_mods mods positions start rest ≡ ok tt
      → get_elem? rest i ≡ some locked
      → check_dependencies mods positions index none locked.dependencies ≡ ok tt
  unfolding check_mods
  check_mods-at mods positions start [] i index locked e h at = cc
  check_mods-at mods positions start (l ∷ rest) zero index locked e h at = rw e (ground arith)
  check_mods-at mods positions start (l ∷ rest) (suc i) index locked e h at =
      ground (arith, check_mods-at mods positions (suc start) rest i index locked)

  check_dependencies-at :
      (mods : List (LockedMod Version)) (positions : Map Text ℕ) (index : ℕ)
      (previous : Option Text) (ds : List (LockedDependency Version)) (k : ℕ)
      (d : LockedDependency Version)
      → check_dependencies mods positions index previous ds ≡ ok tt
      → get_elem? ds k ≡ some d
      → check_position mods index d (get d.mod_id positions) ≡ ok tt
  unfolding check_dependencies
  check_dependencies-at mods positions index previous [] k d h at = cc
  check_dependencies-at mods positions index previous (c ∷ ds) zero d h at = ground arith
  check_dependencies-at mods positions index previous (c ∷ ds) (suc k) d h at =
      ground (arith, check_dependencies-at mods positions index (some c.mod_id) ds k d)

  check_position-Precedes :
      (mods : List (LockedMod Version)) (index i : ℕ) (d : LockedDependency Version)
      → Stands mods d.mod_id i
      → check_position mods index d (some i) ≡ ok tt
      → Precedes mods index d
  unfolding check_position
  check_position-Precedes mods index i d (locked, at, e) h =
      let version = same.equals_iff locked.version d.version in
      elim (Bool-cases (ltb i index)) [
        | inl earlier ↦ (i, ltb→lt i index earlier, (locked, at, e, ground arith))
        | inr later ↦ ground arith
      ]

  check_position-optional :
      (mods : List (LockedMod Version)) (index : ℕ) (d : LockedDependency Version)
      → check_position mods index d none ≡ ok tt
      → d.optional ≡ true
  unfolding check_position
  check_position-optional mods index d h = ground arith

  check_position-IsFulfilled :
      (mods : List (LockedMod Version)) (positions : Map Text ℕ) (index : ℕ)
      (d : LockedDependency Version)
      → mod_positions 0 mods [] ≡ ok positions
      → check_position mods index d (get d.mod_id positions) ≡ ok tt
      → IsFulfilled mods index d
  unfolding get
  check_position-IsFulfilled mods positions index d made h =
      elim (Option-cases (get d.mod_id positions)) [
        | inl missing ↦ inr (
          check_position-optional mods index d (rw missing at h),
          (mod_positions-missing 0 mods [] positions d.mod_id made missing).1,
        )
        | inr (j, found) ↦ elim (mod_positions-Stands 0 mods [] positions d.mod_id j made found) [
          | inl old ↦ cc
          | inr (i, e, stands) ↦
              let first : j ≡ i = omega arith in
              inl (check_position-Precedes mods index i d stands (rw (first) at (rw found at h)))
        ]
      ]

  validate_mod_lock-parts :
      (lock : ModLock Version)
      → validate_mod_lock lock ≡ ok tt
      → (positions : Map Text ℕ) × (mod_positions 0 lock.mods [] ≡ ok positions)
        × (check_mods lock.mods positions 0 lock.mods ≡ ok tt)
  unfolding validate_mod_lock
  validate_mod_lock-parts lock h = >>=-eq-ok _ _ h

  -- In a mod lock that is accepted, every dependency of every mod is fulfilled: a mod that stands
  -- earlier in the lock has the identifier and the version that the dependency names, or the
  -- dependency is optional and no mod of the lock has its identifier.
  pub validate_mod_lock-IsFulfilled :
      (lock : ModLock Version) (i k : ℕ) (locked : LockedMod Version) (d : LockedDependency Version)
      → validate_mod_lock lock ≡ ok tt
      → get_elem? lock.mods i ≡ some locked
      → get_elem? locked.dependencies k ≡ some d
      → IsFulfilled lock.mods i d
  validate_mod_lock-IsFulfilled lock i k locked d h at at' =
      let (positions, made, checked) = validate_mod_lock-parts lock h in
      check_position-IsFulfilled lock.mods positions i d made (
        check_dependencies-at lock.mods positions i none locked.dependencies k d
          (check_mods-at lock.mods positions 0 lock.mods i i locked (omega arith) checked at) at')

  -- In a mod lock that is accepted, no two mods have the same identifier.
  pub validate_mod_lock-distinct :
      (lock : ModLock Version) (i j : ℕ) (locked other : LockedMod Version)
      → validate_mod_lock lock ≡ ok tt
      → get_elem? lock.mods i ≡ some locked
      → get_elem? lock.mods j ≡ some other
      → locked.mod_id ≡ other.mod_id
      → i ≡ j
  validate_mod_lock-distinct lock i j locked other h at at' e =
      let (positions, made, checked) = validate_mod_lock-parts lock h in
      ground (
        arith,
        mod_positions-at 0 lock.mods [] positions i locked made at,
        mod_positions-at 0 lock.mods [] positions j other made at',
      )
