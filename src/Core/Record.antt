-- ===== src/Core/Record.antt =====
-- crates/loreloom-core/src/record.rs: keys, envelopes and versioned operations, and `rebuild_records`,
-- which replays the operations over a checkpoint. Payloads are JSON objects, of any type here. The
-- text of a key is its UTF-8 bytes, an action identifier its 128-bit number.
pub mod Replay
pub mod Checkpoint
use loreloom.Prelude.{
  ℕ, ◌≡◌, ◌↔◌, refl, Bool, true, false, ◌&&◌, Option, none, some, List, [], ◌∷◌, arith, ltb, ◌==◌,
  if◌then◌else◌, Result, ok, err, ◌>>=◌, ◌>>◌, map_err, ok_or, ensure, Text, text_beq, text_beq_iff,
  Eq, ◌=?◌, not,
}
use loreloom.Prelude.Words.{u32_max, checked_add}
use loreloom.Prelude.Map.{Map, get, insert, remove}
use loreloom.Core.Revision.{Revision, RevisionError, next}

pub record RecordKey : Type 0 where
  pub record_type : Text
  pub record_id : Text

abbrev key_beq : RecordKey → RecordKey → Bool
key_beq a b = text_beq a.record_type b.record_type && text_beq a.record_id b.record_id

pub key_beq_iff : (a b : RecordKey) → (key_beq a b ≡ true) ↔ (a ≡ b)
key_beq_iff a b =
    ground (arith, text_beq_iff a.record_type b.record_type, text_beq_iff a.record_id b.record_id)

instance abbrev pub key_eq : Eq RecordKey
key_eq = record { equals = key_beq; equals_iff = key_beq_iff }

pub record RecordProvenance : Type 0 where
  pub action_id : Option ℕ
  pub mod_id : Option Text
  pub definition_id : Option Text

pub record RecordEnvelope (Value : Type 0) : Type 0 where
  pub record_type : Text
  pub schema_version : ℕ
  pub record_id : Text
  pub revision : Revision
  pub payload : Value
  pub provenance : Option RecordProvenance

pub data RecordMutation (Value : Type 0) : Type 0 where
  upsert : RecordEnvelope Value → RecordMutation Value
  delete : RecordKey → RecordMutation Value

pub record VersionedRecordOp (Value : Type 0) : Type 0 where
  pub revision : Revision
  pub action_id : ℕ
  pub order : ℕ
  pub mutation : RecordMutation Value

-- The errors of the two name parsers are those of `NameError`.
pub data RecordError : Type 0 where
  invalid_schema_version payload_must_be_object unsupported_number invalid_migration : RecordError
  unknown_record_type : Text → RecordError
  newer_schema : Text → ℕ → ℕ → RecordError
  missing_migration : Text → ℕ → RecordError
  migration_failed : Text → RecordError
  revision_gap : Revision → RecordError
  invalid_operation_order : Revision → ℕ → RecordError
  action_changed : Revision → RecordError
  envelope_revision_mismatch : RecordError
  duplicate_checkpoint_record : RecordKey → RecordError
  delete_missing_record : RecordKey → RecordError
  revision_error : RevisionError → RecordError

abbrev pub RecordSet : Type 0 → Type 0
RecordSet Value = Map RecordKey (RecordEnvelope Value)

-- The variables of the loop in `rebuild_records`.
pub record Cursor (Value : Type 0) : Type 0 where
  pub revision : Revision
  pub action : Option ℕ
  pub expected_order : ℕ
  pub records : RecordSet Value

abbrev pub is_action : Option ℕ → ℕ → Bool
is_action none a = false
is_action (some b) a = b == a

module _ {Value : Type 0} where
  abbrev pub key : RecordEnvelope Value → RecordKey
  key r = record { record_type = r.record_type; record_id = r.record_id }

  pub insert_checkpoint :
      Revision → RecordSet Value → RecordEnvelope Value → Result RecordError (RecordSet Value)
  insert_checkpoint checkpoint_revision records r =
      if ltb checkpoint_revision r.revision
      then err envelope_revision_mismatch
      else elim (get (key r) records) [
        | some _ ↦ err (duplicate_checkpoint_record (key r))
        | none ↦ ok (insert (key r) r records)
      ]

  unfoldable pub load_checkpoint :
      Revision
      → RecordSet Value
      → List (RecordEnvelope Value)
      → Result RecordError (RecordSet Value)
  unfolding insert_checkpoint
  load_checkpoint revision records [] = ok records
  load_checkpoint revision records (r ∷ rest) =
      insert_checkpoint revision records r >>= λ more. load_checkpoint revision more rest

  -- An operation continues the current revision, or opens the next one.
  unfoldable pub enter : Cursor Value → VersionedRecordOp Value → Result RecordError (Cursor Value)
  enter c op =
      if op.revision == c.revision
      then elim c.action [ none ↦ err (revision_gap c.revision) | some _ ↦ ok c ]
      else do
        expected_revision ← map_err revision_error (next c.revision)
        if op.revision == expected_revision
            then ok (record c {
              revision = op.revision;
              action = some op.action_id;
              expected_order = 0;
            })
            else err (revision_gap c.revision)

  unfoldable pub mutate :
      Revision → RecordSet Value → RecordMutation Value → Result RecordError (RecordSet Value)
  mutate current records (upsert r) =
      if r.revision == current
      then ok (insert (key r) r records)
      else err envelope_revision_mismatch
  mutate current records (delete k) = elim (get k records) [
    | none ↦ err (delete_missing_record k)
    | some _ ↦ ok (remove k records)
  ]

  -- The checks on an operation of the current revision, and its effect.
  unfoldable pub perform :
      Cursor Value → VersionedRecordOp Value → Result RecordError (Cursor Value)
  unfolding mutate
  perform c op = do
    ensure (is_action c.action op.action_id) (action_changed c.revision)
    ensure (op.order == c.expected_order) (invalid_operation_order c.revision c.expected_order)
    order ←
        ok_or (checked_add u32_max c.expected_order 1) (invalid_operation_order c.revision u32_max)
    records ← mutate c.revision c.records op.mutation
    ok (record c { expected_order = order; records = records })

  unfoldable pub replay :
      Cursor Value → List (VersionedRecordOp Value) → Result RecordError (Cursor Value)
  replay c [] = ok c
  replay c (op ∷ rest) = do
    entered ← enter c op
    performed ← perform entered op
    replay performed rest

  abbrev pub fresh : Revision → RecordSet Value → Cursor Value
  fresh revision records = record {
    revision = revision;
    action = none;
    expected_order = 0;
    records = records;
  }

  unfoldable pub rebuild_records :
      Revision
      → List (RecordEnvelope Value)
      → List (VersionedRecordOp Value)
      → Result RecordError (Revision × RecordSet Value)
  rebuild_records checkpoint_revision checkpoint operations = do
    records ← load_checkpoint checkpoint_revision [] checkpoint
    c ← replay (fresh checkpoint_revision records) operations
    ok (c.revision, c.records)
