-- ===== src/Core/Migration.antt =====
-- Schema versions, the check of payloads and `MigrationRegistry` of crates/loreloom-core/src/record.rs.
-- A JSON value is the enum of serde_json, with its numbers and with the keys of its objects.
pub mod Upgrade
use loreloom.Prelude.{
  ℕ, zero, suc, ◌-◌, ◌≡◌, ◌↔◌, refl, Bool, true, false, ◌&&◌, not, Option, none, some, List, [],
  ◌∷◌, arith, ltb, ◌==◌, ==_iff, if◌then◌else◌, Text, text_beq, text_beq_iff, text_eq, Eq, Result,
  ok, err, ◌>>=◌, ◌>>◌, ok_or, ensure,
}
use loreloom.Prelude.Int.{ℤ}
use loreloom.Prelude.Words.{u32_max, checked_add}
use loreloom.Prelude.Map.{Map, get, insert}
use loreloom.Core.Record.{
  RecordEnvelope, RecordProvenance, RecordError, invalid_schema_version, payload_must_be_object,
  unsupported_number, invalid_migration, unknown_record_type, newer_schema, missing_migration,
}
use loreloom.Core.Revision.{Revision}

abbrev pub SchemaVersion : Type 0
SchemaVersion = ℕ

unfoldable pub new_version : ℕ → Result RecordError SchemaVersion
new_version n = if n == 0 then err invalid_schema_version else ok n

unfoldable pub next_version : SchemaVersion → Result RecordError SchemaVersion
unfolding new_version
next_version v = ok_or (checked_add u32_max v 1) invalid_schema_version >>= new_version

-- `serde_json::Number`: a `u64`, an `i64` below zero, or the bits of an `f64`.
pub data Number : Type 0 where
  pos_int : ℕ → Number
  neg_int : ℤ → Number
  float : ℕ → Number

-- `number.is_i64() || number.is_u64()`
abbrev pub is_integer : Number → Bool
is_integer (pos_int n) = true
is_integer (neg_int z) = true
is_integer (float bits) = false

mutual
  pub data Value : Type 0 where
    null : Value
    boolean : Bool → Value
    number : Number → Value
    string : Text → Value
    array : Values → Value
    object : Entries → Value

  pub data Values : Type 0 where
    nil : Values
    cons : Value → Values → Values

  -- The keys of an object with their values, in the order of the map.
  pub data Entries : Type 0 where
    no_entries : Entries
    entry : Text → Value → Entries → Entries

unfoldable mutual
  pub validate_json_value : Value → Result RecordError (Unit {0})
  validate_json_value null = ok tt
  validate_json_value (boolean b) = ok tt
  validate_json_value (number n) = ensure (is_integer n) unsupported_number
  validate_json_value (string s) = ok tt
  validate_json_value (array vs) = validate_all vs
  validate_json_value (object es) = validate_entries es

  pub validate_all : Values → Result RecordError (Unit {0})
  validate_all nil = ok tt
  validate_all (cons v vs) = validate_json_value v >> validate_all vs

  pub validate_entries : Entries → Result RecordError (Unit {0})
  validate_entries no_entries = ok tt
  validate_entries (entry key v es) = validate_json_value v >> validate_entries es

abbrev is_object : Value → Bool
is_object null = false
is_object (boolean b) = false
is_object (number n) = false
is_object (string s) = false
is_object (array vs) = false
is_object (object vs) = true

unfoldable pub validate_payload : Value → Result RecordError (Unit {0})
validate_payload payload =
    ensure (is_object payload) payload_must_be_object >> validate_json_value payload

-- `RecordEnvelope::new`
unfoldable pub new_envelope :
    Text
    → SchemaVersion
    → Text
    → Revision
    → Value
    → Option RecordProvenance
    → Result RecordError (RecordEnvelope Value)
unfolding validate_payload
new_envelope record_type schema_version record_id revision payload provenance =
    validate_payload payload
    >> ok (record {
      record_type = record_type;
      schema_version = schema_version;
      record_id = record_id;
      revision = revision;
      payload = payload;
      provenance = provenance;
    })

-- The key of `steps`.
pub record StepKey : Type 0 where
  pub step_type : Text
  pub from_version : SchemaVersion

abbrev step_test : StepKey → StepKey → Bool
step_test a b = text_beq a.step_type b.step_type && a.from_version == b.from_version

pub step_test_iff : (a b : StepKey) → (step_test a b ≡ true) ↔ (a ≡ b)
step_test_iff a b =
    ground (arith, text_beq_iff a.step_type b.step_type, ==_iff a.from_version b.from_version)

instance abbrev pub step_eq : Eq StepKey
step_eq = record { equals = step_test; equals_iff = step_test_iff }

pub record MigrationStep : Type 0 where
  pub record_type : Text
  pub from_version : SchemaVersion
  pub to_version : SchemaVersion
  pub migrate : Value → Result RecordError Value

pub record MigrationRegistry : Type 0 where
  pub current : Map Text SchemaVersion
  pub steps : Map StepKey MigrationStep

abbrev pub empty_registry : MigrationRegistry
empty_registry = record { current = []; steps = [] }

abbrev is_some {ℓ} : {A : Type ℓ} → Option A → Bool
is_some none = false
is_some (some a) = true

unfoldable pub register_record_type :
    Text → SchemaVersion → MigrationRegistry → Result RecordError MigrationRegistry
register_record_type record_type current g =
    if is_some (get record_type g.current)
    then err invalid_migration
    else ok (record g { current = insert record_type current g.current })

abbrev pub step_key : MigrationStep → StepKey
step_key s = record { step_type = s.record_type; from_version = s.from_version }

unfoldable pub register_migration :
    MigrationStep → MigrationRegistry → Result RecordError MigrationRegistry
unfolding next_version
register_migration s g = do
  expected ← next_version s.from_version
  ensure (expected == s.to_version && not (is_some (get (step_key s) g.steps))) invalid_migration
  ok (record g { steps = insert (step_key s) s g.steps })

-- One round of the loop of `upgrade`.
unfoldable pub migrate_once :
    MigrationRegistry → RecordEnvelope Value → Result RecordError (RecordEnvelope Value)
unfolding validate_payload
migrate_once g e = do
  s ←
      ok_or (get (record { step_type = e.record_type; from_version = e.schema_version }) g.steps)
        (missing_migration e.record_type e.schema_version)
  payload ← s.migrate e.payload
  validate_payload payload
  ok (record e { payload = payload; schema_version = s.to_version })

-- `none` is no more fuel.
unfoldable pub migrate_to :
    ℕ
    → SchemaVersion
    → MigrationRegistry
    → RecordEnvelope Value
    → Option (Result RecordError (RecordEnvelope Value))
migrate_to zero supported g e = if ltb e.schema_version supported then none else some (ok e)
migrate_to (suc fuel) supported g e =
    if not (ltb e.schema_version supported) then some (ok e) else elim (migrate_once g e) [
      | err problem ↦ some (err problem)
      | ok next ↦ migrate_to fuel supported g next
    ]

upgrade_to :
    MigrationRegistry
    → RecordEnvelope Value
    → Option SchemaVersion
    → Option (Result RecordError (RecordEnvelope Value))
upgrade_to g e none = some (err (unknown_record_type e.record_type))
upgrade_to g e (some supported) =
    if ltb supported e.schema_version
    then some (err (newer_schema e.record_type e.schema_version supported))
    else migrate_to (supported - e.schema_version) supported g e

-- A step raises the version by one, so the versions that are missing are enough fuel.
unfoldable pub upgrade :
    MigrationRegistry → RecordEnvelope Value → Option (Result RecordError (RecordEnvelope Value))
unfolding migrate_to upgrade_to
upgrade g e = upgrade_to g e (get e.record_type g.current)
