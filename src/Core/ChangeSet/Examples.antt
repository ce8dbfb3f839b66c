-- ===== src/Core/ChangeSet/Examples.antt =====
-- Runs on concrete values for the theorems of change sets and envelopes.
use loreloom.Prelude.{◌≡◌, ◌≢◌, refl, true, arith, none, List, [], ◌∷◌, bytes, ok}
use loreloom.Prelude.Map.{get, contains}
use loreloom.Core.Revision.{next}
use loreloom.Core.Record.{
  RecordKey, key_eq, RecordEnvelope, VersionedRecordOp, RecordSet, Cursor, replay, fresh, upsert,
  delete,
}
use loreloom.Core.Migration.{
  Value, object, no_entries, new_envelope, validate_payload, validate_json_value, validate_all,
  validate_entries,
}
use loreloom.Core.Names.{parse_record_type, parse_record_id}
use loreloom.Core.Domain.{world_state}
use loreloom.Core.Domain.Objects.{WorldStateRecord}
use loreloom.Core.Codec.{to_envelope, from_envelope, record_type, record_id, domain_key, encode}
use loreloom.Core.Codec.Coders.Objects.{world_state_record_coder}
use loreloom.Core.Codec.Coders.Records.{wrapped, all_records, all_records-Lawful}
use loreloom.Core.Codec.Validation.{validate_domain}
use loreloom.Core.Codec.Envelopes.{from_envelope-to_envelope}
use loreloom.Core.ChangeSet.{
  ExecutionChangeSet, record_ops, collect, collect_deletes, sort_mutations, insert_sorted,
  enumerate, provenance_of,
}
use loreloom.Core.ChangeSet.Effect.{replay-record_ops, outcome}

abbrev sample_state : WorldStateRecord
sample_state = record { id = 1; player_actor = 2; active_scene = 3; clock = 4; rng_seed = 5 ∷ [] }

abbrev sample_envelope : RecordEnvelope Value
sample_envelope = record {
  record_type = bytes "world_state";
  schema_version = 1;
  record_id = bytes "wld_01890f6a-2b3c-7d4e-8f90-123456789abc";
  revision = 8;
  payload = wrapped (world_state_record_coder.write sample_state);
  provenance = provenance_of 9;
}

sample-written :
    to_envelope all_records (world_state sample_state) 8 (provenance_of 9) ≡ ok sample_envelope
unfolding to_envelope validate_domain encode record_type record_id parse_record_type parse_record_id
    new_envelope validate_payload validate_json_value validate_all validate_entries
sample-written = refl

from_envelope-to_envelope_example :
    from_envelope all_records sample_envelope ≡ ok (world_state sample_state)
from_envelope-to_envelope_example =
    from_envelope-to_envelope all_records all_records-Lawful (world_state sample_state) 8
      (provenance_of 9) sample-written

abbrev old_key : RecordKey
old_key = record { record_type = bytes "item"; record_id = bytes "obj_1" }

abbrev old_record : RecordEnvelope Value
old_record = record {
  record_type = bytes "item";
  schema_version = 1;
  record_id = bytes "obj_1";
  revision = 7;
  payload = object no_entries;
  provenance = none;
}

abbrev old_records : RecordSet Value
old_records = (old_key, old_record) ∷ []

abbrev changes : ExecutionChangeSet
changes = record {
  action_id = 9;
  expected_revision = 7;
  revision = 8;
  upserts = world_state sample_state ∷ [];
  deletes = old_key ∷ [];
  events = [];
  safe_summary = [];
}

-- The deletion sorts before the upsert.
abbrev expected_ops : List (VersionedRecordOp Value)
expected_ops =
    record { revision = 8; action_id = 9; order = 0; mutation = delete old_key }
    ∷ record { revision = 8; action_id = 9; order = 1; mutation = upsert sample_envelope }
    ∷ []

changes-ops : record_ops all_records changes ≡ ok expected_ops
unfolding record_ops collect collect_deletes contains domain_key sort_mutations insert_sorted
    enumerate to_envelope validate_domain encode record_type record_id parse_record_type
    parse_record_id new_envelope validate_payload validate_json_value validate_all validate_entries
changes-ops = refl

old_key-present : (k : RecordKey) → contains k changes.deletes ≡ true → get k old_records ≢ none
unfolding contains get
old_key-present k h = ground arith

replay-record_ops_example :
    (d : Cursor Value) × (replay (fresh 7 old_records) expected_ops ≡ ok d)
    × ((k : RecordKey) → get k d.records ≡ outcome all_records changes old_records k)
unfolding next
replay-record_ops_example =
    replay-record_ops all_records changes 7 old_records changes-ops refl old_key-present
      (omega arith)
