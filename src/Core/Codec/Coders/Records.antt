-- ===== src/Core/Codec/Coders/Records.antt =====
-- A codec of all the records of crates/loreloom-core/src/domain.rs, for runs of codec.rs.
use loreloom.Prelude.{◌≡◌, refl, Option, none, some, [], arith, Result, ok, err, bytes, Text}
use loreloom.Core.Migration.{Value, object, entry, no_entries}
use loreloom.Core.Domain.{
  DomainRecord, world_state, scene, place, character, item, condition, skill_grant, relationship,
  known_fact, goal, event_instance, parameter_set, rule_state, transcript_item,
}
use loreloom.Core.Codec.{Codec, Lawful}
use loreloom.Core.Codec.Coders.{Coder}
use loreloom.Core.Codec.Coders.Objects.{
  world_state_record_coder, scene_record_coder, place_record_coder, character_record_coder,
  item_record_coder,
}
use loreloom.Core.Codec.Coders.Facts.{
  condition_record_coder, skill_grant_record_coder, relationship_record_coder,
  known_fact_record_coder, goal_record_coder, event_instance_record_coder,
  parameter_set_record_coder, rule_state_record_coder, transcript_item_record_coder,
}

-- A payload is an object with one key.
abbrev pub wrapped : Value → Value
wrapped v = object (entry (bytes "data") v no_entries)

module _ {A : Type 0} (c : Coder A) where
  abbrev or_error : Option A → Result Text A
  or_error none = err []
  or_error (some a) = ok a

  abbrev pub unwrapped : Value → Result Text A
  unwrapped (object (entry key v no_entries)) = or_error (c.read v)
  unwrapped _ = err []

  unwrapped-wrapped :
      (a : A) {v : Value}
      → ◌≡◌ {A = Result Text Value} (ok (wrapped (c.write a))) (ok v)
      → unwrapped v ≡ ok a
  unwrapped-wrapped a {v} h =
      let same : wrapped (c.write a) ≡ v = ground arith in rw (← same, c.law a) refl

abbrev write_record : DomainRecord → Value
write_record (world_state r) = world_state_record_coder.write r
write_record (scene r) = scene_record_coder.write r
write_record (place r) = place_record_coder.write r
write_record (character r) = character_record_coder.write r
write_record (item r) = item_record_coder.write r
write_record (condition r) = condition_record_coder.write r
write_record (skill_grant r) = skill_grant_record_coder.write r
write_record (relationship r) = relationship_record_coder.write r
write_record (known_fact r) = known_fact_record_coder.write r
write_record (goal r) = goal_record_coder.write r
write_record (event_instance r) = event_instance_record_coder.write r
write_record (parameter_set r) = parameter_set_record_coder.write r
write_record (rule_state r) = rule_state_record_coder.write r
write_record (transcript_item r) = transcript_item_record_coder.write r

-- The runs use one identifier of each type, so one text stands for every UUID.
abbrev pub all_records : Codec
all_records = record {
  hyphenated = λ n. bytes "01890f6a-2b3c-7d4e-8f90-123456789abc";
  schema_message = λ a b. [];
  to_value = λ r. ok (wrapped (write_record r));
  world_state_from = unwrapped world_state_record_coder;
  scene_from = unwrapped scene_record_coder;
  place_from = unwrapped place_record_coder;
  character_from = unwrapped character_record_coder;
  item_from = unwrapped item_record_coder;
  condition_from = unwrapped condition_record_coder;
  skill_grant_from = unwrapped skill_grant_record_coder;
  relationship_from = unwrapped relationship_record_coder;
  known_fact_from = unwrapped known_fact_record_coder;
  goal_from = unwrapped goal_record_coder;
  event_instance_from = unwrapped event_instance_record_coder;
  parameter_set_from = unwrapped parameter_set_record_coder;
  rule_state_from = unwrapped rule_state_record_coder;
  transcript_item_from = unwrapped transcript_item_record_coder;
}

pub all_records-Lawful : Lawful all_records
all_records-Lawful = record {
  world_state_law = λ r h. unwrapped-wrapped world_state_record_coder r h;
  scene_law = λ r h. unwrapped-wrapped scene_record_coder r h;
  place_law = λ r h. unwrapped-wrapped place_record_coder r h;
  character_law = λ r h. unwrapped-wrapped character_record_coder r h;
  item_law = λ r h. unwrapped-wrapped item_record_coder r h;
  condition_law = λ r h. unwrapped-wrapped condition_record_coder r h;
  skill_grant_law = λ r h. unwrapped-wrapped skill_grant_record_coder r h;
  relationship_law = λ r h. unwrapped-wrapped relationship_record_coder r h;
  known_fact_law = λ r h. unwrapped-wrapped known_fact_record_coder r h;
  goal_law = λ r h. unwrapped-wrapped goal_record_coder r h;
  event_instance_law = λ r h. unwrapped-wrapped event_instance_record_coder r h;
  parameter_set_law = λ r h. unwrapped-wrapped parameter_set_record_coder r h;
  rule_state_law = λ r h. unwrapped-wrapped rule_state_record_coder r h;
  transcript_item_law = λ r h. unwrapped-wrapped transcript_item_record_coder r h;
}
