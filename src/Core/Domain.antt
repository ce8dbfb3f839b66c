-- ===== src/Core/Domain.antt =====
-- The domain records of crates/loreloom-core/src/domain.rs and codec.rs. A `BTreeSet` is a list, a
-- `NonZeroU32` and the other unsigned integers are natural numbers.
pub mod Identities
pub mod Origins
pub mod Objects
pub mod Facts
pub mod Spawning
pub mod Protocol
use loreloom.Prelude.{Option, none, some, Text, bytes}
use loreloom.Core.Domain.Identities.{ObjectId}
use loreloom.Core.Domain.Objects.{
  WorldStateRecord, SceneRecord, PlaceRecord, CharacterRecord, ItemRecord,
}
use loreloom.Core.Domain.Facts.{
  ConditionRecord, SkillGrantRecord, RelationshipRecord, KnownFactRecord, GoalRecord,
  EventInstanceRecord, ParameterSetRecord, RuleStateRecord, TranscriptItemRecord,
}

pub data DomainRecord : Type 0 where
  world_state : WorldStateRecord → DomainRecord
  scene : SceneRecord → DomainRecord
  place : PlaceRecord → DomainRecord
  character : CharacterRecord → DomainRecord
  item : ItemRecord → DomainRecord
  condition : ConditionRecord → DomainRecord
  skill_grant : SkillGrantRecord → DomainRecord
  relationship : RelationshipRecord → DomainRecord
  known_fact : KnownFactRecord → DomainRecord
  goal : GoalRecord → DomainRecord
  event_instance : EventInstanceRecord → DomainRecord
  parameter_set : ParameterSetRecord → DomainRecord
  rule_state : RuleStateRecord → DomainRecord
  transcript_item : TranscriptItemRecord → DomainRecord

-- The entities of the world; the state of the world and the transcripts are kept apart.
unfoldable pub object_id : DomainRecord → Option ObjectId
object_id (scene value) = some value.id
object_id (place value) = some value.id
object_id (character value) = some value.id
object_id (item value) = some value.id
object_id (condition value) = some value.id
object_id (skill_grant value) = some value.id
object_id (relationship value) = some value.id
object_id (known_fact value) = some value.id
object_id (goal value) = some value.id
object_id (event_instance value) = some value.id
object_id (parameter_set value) = some value.id
object_id (rule_state value) = some value.id
object_id (world_state _) = none
object_id (transcript_item _) = none

abbrev pub record_type_name : DomainRecord → Text
record_type_name (world_state _) = bytes "world_state"
record_type_name (scene _) = bytes "scene"
record_type_name (place _) = bytes "place"
record_type_name (character _) = bytes "character"
record_type_name (item _) = bytes "item"
record_type_name (condition _) = bytes "condition"
record_type_name (skill_grant _) = bytes "skill_grant"
record_type_name (relationship _) = bytes "relationship"
record_type_name (known_fact _) = bytes "known_fact"
record_type_name (goal _) = bytes "goal"
record_type_name (event_instance _) = bytes "event_instance"
record_type_name (parameter_set _) = bytes "parameter_set"
record_type_name (rule_state _) = bytes "rule_state"
record_type_name (transcript_item _) = bytes "transcript_item"
