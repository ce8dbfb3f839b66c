-- ===== src/Core/Migration/Upgrade.antt =====
-- The upgrade of records by a registry of migrations, in crates/loreloom-core/src/record.rs.
use loreloom.Prelude.{
  ℕ, zero, suc, ◌-◌, ◌+◌, ◌∙◌, ◌≤◌, ◌<◌, ◌≡◌, ◌≢◌, refl, ap, true, Option, none, some, arith, ltb,
  ◌==◌, ==_iff, Text, text_eq, Result, ok, err, >>=-eq-ok, Result-cases, Option-cases, Bool-cases,
  inl, inr, ◌⊎◌,
}
use loreloom.Prelude.Map.{get, insert, get-insert}
use loreloom.Core.Record.{
  RecordEnvelope, RecordError, unknown_record_type, newer_schema, missing_migration, key,
}
use loreloom.Core.Migration.{
  SchemaVersion, Value, MigrationStep, MigrationRegistry, StepKey, step_eq, step_key, next_version,
  register_record_type, register_migration, empty_registry, migrate_once, migrate_to, upgrade_to,
  upgrade, validate_payload,
}

-- Each step raises the version that it is registered for by one.
pub record IsLinked (g : MigrationRegistry) : Type 0 where
  pub linked :
      (k : StepKey) (s : MigrationStep) → get k g.steps ≡ some s → s.to_version ≡ suc k.from_version

empty_registry-IsLinked : IsLinked empty_registry
unfolding get
empty_registry-IsLinked = record { linked = λ k s e. cc e }

next_version-ok : (v : SchemaVersion) {w : SchemaVersion} → next_version v ≡ ok w → w ≡ suc v
unfolding next_version
next_version-ok v e = ground arith

register_record_type-IsLinked :
    (t : Text) (v : SchemaVersion) (g : MigrationRegistry) {g' : MigrationRegistry}
    → register_record_type t v g ≡ ok g'
    → IsLinked g
    → IsLinked g'
unfolding register_record_type
register_record_type-IsLinked t v g {g'} e l =
    let same : g.steps ≡ g'.steps = ground arith in
    record { linked = λ k s found. l.linked k s (rw same found) }

register_migration-parts :
    (s : MigrationStep) (g : MigrationRegistry) {g' : MigrationRegistry}
    → register_migration s g ≡ ok g'
    → (s.to_version ≡ suc s.from_version) × (g'.steps ≡ insert (step_key s) s g.steps)
unfolding register_migration
register_migration-parts s g {g'} e =
    let (v, next, e1) = >>=-eq-ok (next_version s.from_version) _ e in
    let up = next_version-ok s.from_version next in ground (arith, ==_iff v s.to_version)

register_migration-IsLinked :
    (s : MigrationStep) (g : MigrationRegistry) {g' : MigrationRegistry}
    → register_migration s g ≡ ok g'
    → IsLinked g
    → IsLinked g'
register_migration-IsLinked s g {g'} e l =
    let (up, steps) = register_migration-parts s g e in
    record {
      linked = λ k s' found. ground (
        arith,
        rw (steps, get-insert) at found,
        l.linked k s',
        step_eq.equals_iff (step_key s) k,
      );
    }

-- The key of the step for the version of a record.
abbrev pub version_key : RecordEnvelope Value → StepKey
version_key e = record { step_type = e.record_type; from_version = e.schema_version }

-- What a registered migration keeps: everything but the payload and the version, which goes up by one,
-- and the payload is valid.
record IsNext (e d : RecordEnvelope Value) : Type 0 where
  version : d.schema_version ≡ suc e.schema_version
  same_key : key d ≡ key e
  same_revision : d.revision ≡ e.revision
  same_provenance : d.provenance ≡ e.provenance
  valid : validate_payload d.payload ≡ ok tt

migrate_once-IsNext :
    (g : MigrationRegistry) (e : RecordEnvelope Value) {d : RecordEnvelope Value}
    → IsLinked g
    → migrate_once g e ≡ ok d
    → IsNext e d
unfolding migrate_once
migrate_once-IsNext g e {d} l done =
    let k : StepKey = record { step_type = e.record_type; from_version = e.schema_version } in
    elim (Option-cases (get k g.steps)) [
      | inl missing ↦ absurd (cc (rw (missing, migrate_once) at done))
      | inr (s, found) ↦
          let up = l.linked k s found in
          let (payload, moved, e1) =
            >>=-eq-ok (s.migrate e.payload) _ (rw (found, migrate_once) at done) in
          let (u, good, e2) = >>=-eq-ok (validate_payload payload) _ e1 in
          let same : record e { payload = payload; schema_version = s.to_version } ≡ d =
            ground arith in
          rw (← same) (record {
            version = up;
            same_key = refl;
            same_revision = refl;
            same_provenance = refl;
            valid = good;
          })
    ]

-- What an upgrade to a version returns: an error, or the record at that version, with its key, its
-- revision and its provenance, and with a valid payload if it was changed.
pub record IsMigrated (supported : SchemaVersion) (e d : RecordEnvelope Value) : Type 0 where
  pub version : d.schema_version ≡ supported
  pub same_key : key d ≡ key e
  pub same_revision : d.revision ≡ e.revision
  pub same_provenance : d.provenance ≡ e.provenance
  pub valid : e.schema_version ≢ supported → validate_payload d.payload ≡ ok tt
  pub same : e.schema_version ≡ supported → d ≡ e

abbrev pub Ends :
    (supported : SchemaVersion) (e : RecordEnvelope Value)
    → Result RecordError (RecordEnvelope Value)
    → Type 0
Ends supported e (err problem) = Unit
Ends supported e (ok d) = IsMigrated supported e d

stays-IsMigrated :
    (supported : SchemaVersion) (e : RecordEnvelope Value)
    → e.schema_version ≡ supported
    → IsMigrated supported e e
stays-IsMigrated supported e v = record {
  version = v;
  same_key = refl;
  same_revision = refl;
  same_provenance = refl;
  valid = λ differs. absurd (differs v);
  same = λ h. refl;
}

next-Ends :
    (supported : SchemaVersion) (e d : RecordEnvelope Value)
    → e.schema_version < supported
    → IsNext e d
    → (r : Result RecordError (RecordEnvelope Value)) → Ends supported d r
    → Ends supported e r
next-Ends supported e d low n (err problem) ends = tt
next-Ends supported e d low n (ok c) ends = record {
  version = ends.version;
  same_key = ends.same_key ∙ n.same_key;
  same_revision = ends.same_revision ∙ n.same_revision;
  same_provenance = ends.same_provenance ∙ n.same_provenance;
  valid = λ differs. elim (Bool-cases (d.schema_version == supported)) [
    | inl at_once ↦
        ap (λ (a : RecordEnvelope Value). validate_payload a.payload)
          (ends.same ((==_iff _ _).0 at_once))
        ∙ n.valid
    | inr later ↦ ends.valid (λ v. cc ((==_iff d.schema_version supported).1 v, later))
  ];
  same = λ v. absurd (omega (arith, low, v));
}

migrate_to-total :
    (g : MigrationRegistry)
    → IsLinked g
    → (fuel supported : ℕ) (e : RecordEnvelope Value) → e.schema_version + fuel ≡ supported
    → (r : Result RecordError (RecordEnvelope Value)) × (migrate_to fuel supported g e ≡ some r)
      × Ends supported e r
unfolding migrate_to
migrate_to-total g l zero supported e room =
    let same : e.schema_version ≡ supported = omega (arith, room) in
    (ok e, ground arith, stays-IsMigrated supported e same)
migrate_to-total g l (suc fuel) supported e room =
    let low : ltb e.schema_version supported ≡ true = ground arith in
    elim (Result-cases (migrate_once g e)) [
      | inr (problem, bad) ↦ (err problem, rw (low, migrate_to, bad), tt)
      | inl (d, good) ↦
          let n = migrate_once-IsNext g e l good in
          let (r, at', ends) =
            migrate_to-total g l fuel supported d (omega (arith, room, n.version)) in
          (
            r,
            rw (low, migrate_to, good) at',
            next-Ends supported e d (omega (arith, room)) n r ends,
          )
    ]

-- Step by step: at the supported version the record is the result; below it the step that is
-- registered for its version is applied, and the error of a missing or failed step, or of a bad
-- payload, is the result.
pub data Migrates (g : MigrationRegistry) (supported : SchemaVersion)
    : RecordEnvelope Value → Result RecordError (RecordEnvelope Value) → Type 0 where
  arrived :
      (e : RecordEnvelope Value) → e.schema_version ≡ supported → Migrates g supported e (ok e)
  missing :
      (e : RecordEnvelope Value)
      → e.schema_version < supported
      → get (version_key e) g.steps ≡ none
      → Migrates g supported e (err (missing_migration e.record_type e.schema_version))
  failed :
      (e : RecordEnvelope Value) (s : MigrationStep) (problem : RecordError)
      → e.schema_version < supported
      → get (version_key e) g.steps ≡ some s
      → s.migrate e.payload ≡ err problem
      → Migrates g supported e (err problem)
  invalid :
      (e : RecordEnvelope Value) (s : MigrationStep) (payload : Value) (problem : RecordError)
      → e.schema_version < supported
      → get (version_key e) g.steps ≡ some s
      → s.migrate e.payload ≡ ok payload
      → validate_payload payload ≡ err problem
      → Migrates g supported e (err problem)
  stepped :
      (e : RecordEnvelope Value) (s : MigrationStep) (payload : Value)
      {r : Result RecordError (RecordEnvelope Value)}
      → e.schema_version < supported
      → get (version_key e) g.steps ≡ some s
      → s.migrate e.payload ≡ ok payload
      → validate_payload payload ≡ ok tt
      → Migrates g supported
          (record e { payload = payload; schema_version = suc e.schema_version })
          r
      → Migrates g supported e r

migrate_once-Migrates :
    (g : MigrationRegistry) (supported : SchemaVersion) (e : RecordEnvelope Value)
    → IsLinked g
    → e.schema_version < supported
    → ((problem : RecordError) × (migrate_once g e ≡ err problem)
        × Migrates g supported e (err problem))
      ⊎ ((d : RecordEnvelope Value) × (migrate_once g e ≡ ok d)
          × ((r : Result RecordError (RecordEnvelope Value))
              → Migrates g supported d r
              → Migrates g supported e r))
unfolding migrate_once
migrate_once-Migrates g supported e l low = elim (Option-cases (get (version_key e) g.steps)) [
  | inl none_there ↦ inl (
    missing_migration e.record_type e.schema_version,
    rw none_there refl,
    missing e low none_there,
  )
  | inr (s, found) ↦ elim (Result-cases (s.migrate e.payload)) [
    | inr (problem, bad) ↦ inl (problem, rw (found, bad) refl, failed e s problem low found bad)
    | inl (payload, moved) ↦ elim (Result-cases (validate_payload payload)) [
      | inr (problem, bad) ↦
          inl
            (problem, rw (found, moved, bad) refl, invalid e s payload problem low found moved bad)
      | inl (u, good) ↦ inr (
        record e { payload = payload; schema_version = s.to_version },
        rw (found, moved, good) refl,
        λ r rest.
            stepped e s payload low found moved good
              (rw (l.linked (version_key e) s found) at rest),
      )
    ]
  ]
]

migrate_to-Migrates :
    (g : MigrationRegistry)
    → IsLinked g
    → (fuel supported : ℕ) (e : RecordEnvelope Value)
      (r : Result RecordError (RecordEnvelope Value))
    → e.schema_version + fuel ≡ supported
    → migrate_to fuel supported g e ≡ some r
    → Migrates g supported e r
unfolding migrate_to
migrate_to-Migrates g l zero supported e r room done =
    let same : e.schema_version ≡ supported = omega (arith, room) in
    let this : ok e ≡ r = ground arith in rw (← this) (arrived e same)
migrate_to-Migrates g l (suc fuel) supported e r room done =
    let low : ltb e.schema_version supported ≡ true = ground arith in
    elim (migrate_once-Migrates g supported e l (omega (arith, room))) [
      | inl (problem, bad, ends) ↦
          let this : err problem ≡ r = ground (arith, rw (low, migrate_to, bad) at done) in
          rw (← this) ends
      | inr (d, good, on) ↦
          let n = migrate_once-IsNext g e l good in
          on r (
            migrate_to-Migrates g l fuel supported d r (omega (arith, room, n.version))
              (rw (low, migrate_to, good) at done))
    ]

-- What `upgrade` returns, by the current version of the record's type.
abbrev pub Upgraded :
    MigrationRegistry
    → RecordEnvelope Value
    → Option SchemaVersion
    → Result RecordError (RecordEnvelope Value)
    → Type 0
Upgraded g e none r = r ≡ err (unknown_record_type e.record_type)
Upgraded g e (some supported) r =
    (supported < e.schema_version → r ≡ err (newer_schema e.record_type e.schema_version supported))
    × (e.schema_version ≤ supported → Migrates g supported e r × Ends supported e r)

upgrade_to-total :
    (g : MigrationRegistry) (e : RecordEnvelope Value)
    → IsLinked g
    → (o : Option SchemaVersion)
    → (r : Result RecordError (RecordEnvelope Value)) × (upgrade_to g e o ≡ some r)
      × Upgraded g e o r
unfolding upgrade_to
upgrade_to-total g e l none = (err (unknown_record_type e.record_type), refl, refl)
upgrade_to-total g e l (some supported) = elim (Bool-cases (ltb supported e.schema_version)) [
  | inl newer ↦ (
    err (newer_schema e.record_type e.schema_version supported),
    rw newer,
    (λ h. refl, λ h. absurd (ground arith)),
  )
  | inr older ↦
      let (r, at', ends) =
        migrate_to-total g l (supported - e.schema_version) supported e (ground arith) in
      (
        r,
        rw older at',
        (
          λ h. absurd (ground arith),
          λ h. (
            migrate_to-Migrates g l (supported - e.schema_version) supported e r (ground arith) at',
            ends,
          ),
        ),
      )
]

-- A registry that was made by successful registrations.
pub data Built : MigrationRegistry → Type 0 where
  fresh : Built empty_registry
  with_type :
      {g g' : MigrationRegistry} (record_type : Text) (current : SchemaVersion)
      → register_record_type record_type current g ≡ ok g'
      → Built g
      → Built g'
  with_step :
      {g g' : MigrationRegistry} (s : MigrationStep)
      → register_migration s g ≡ ok g'
      → Built g
      → Built g'

Built-IsLinked : (g : MigrationRegistry) → Built g → IsLinked g
Built-IsLinked g fresh = empty_registry-IsLinked
Built-IsLinked g (with_type {g = h} t v e b) =
    register_record_type-IsLinked t v h e (Built-IsLinked h b)
Built-IsLinked g (with_step {g = h} s e b) = register_migration-IsLinked s h e (Built-IsLinked h b)

-- Over a registry made by successful registrations an upgrade ends: it refuses a type that is not
-- registered and a schema newer than the current one, and otherwise applies, version by version, the
-- step that is registered for the version of the record, until the record is at the current version;
-- an error is that of the first step that is missing, that fails or whose payload is not valid. A
-- record that is returned is at exactly the current version, with its key, its revision and its
-- provenance, with a valid payload if it was migrated, and unchanged if it was current.
pub upgrade-total :
    (g : MigrationRegistry) (e : RecordEnvelope Value)
    → Built g
    → (r : Result RecordError (RecordEnvelope Value)) × (upgrade g e ≡ some r)
      × Upgraded g e (get e.record_type g.current) r
unfolding upgrade
upgrade-total g e b = upgrade_to-total g e (Built-IsLinked g b) (get e.record_type g.current)
