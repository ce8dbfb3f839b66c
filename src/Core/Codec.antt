-- ===== src/Core/Codec.antt =====
-- `DomainRecord` of crates/loreloom-core/src/codec.rs with its envelopes, and `ExecutionChangeSet` of
-- protocol.rs. `Codec` is serde_json and the printing of UUIDs, which are outside of the program.
pub mod Validation
pub mod Coders
pub mod Envelopes
use loreloom.Prelude.{
  ℕ, zero, suc, Bool, true, false, ◌&&◌, ◌||◌, not, Option, none, some, List, [], ◌∷◌, ◌++◌, leb,
  ltb, ◌==◌, ◌≡◌, if◌then◌else◌, Result, ok, err, ◌>>=◌, ◌>>◌, ok_or, map_err, map_ok, ensure, Text,
  text_beq, bytes,
}
use loreloom.Prelude.Words.{u32_max}
use loreloom.Prelude.Map.{Map, contains}
use loreloom.Core.Revision.{Revision}
use loreloom.Core.Record.{
  RecordKey, key_eq, RecordProvenance, RecordEnvelope, RecordMutation, upsert, delete,
  VersionedRecordOp, RecordError, unknown_record_type,
}
use loreloom.Core.Names.{NameError, parse_record_type, parse_record_id}
use loreloom.Core.Migration.{Value, SchemaVersion, new_envelope}
use loreloom.Core.Domain.{
  DomainRecord, record_type_name, world_state, scene, place, character, item, condition,
  skill_grant, relationship, known_fact, goal, event_instance, parameter_set, rule_state,
  transcript_item,
}
use loreloom.Core.Domain.Identities.{ActionId, ActorId, EventId, ShortText}
use loreloom.Core.Domain.Objects.{
  WorldStateRecord, SceneRecord, PlaceRecord, CharacterRecord, ItemRecord,
}
use loreloom.Core.Domain.Facts.{
  ConditionRecord, SkillGrantRecord, RelationshipRecord, KnownFactRecord, GoalRecord,
  EventInstanceRecord, ParameterSetRecord, RuleStateRecord, TranscriptItemRecord,
}
use loreloom.Core.Domain.Protocol.{WorldEventKind}
use loreloom.Core.Codec.Validation.{
  DomainError, record_error, codec, record_identity_mismatch, invalid_value, validate_domain,
  text_ltb,
}

-- `to_value` and `from_value` of serde_json, `Uuid::hyphenated`, and the text that `format!` makes of two
-- versions
pub record Codec : Type 0 where
  pub hyphenated : ℕ → Text
  pub schema_message : SchemaVersion → SchemaVersion → Text
  pub to_value : DomainRecord → Result Text Value
  pub world_state_from : Value → Result Text WorldStateRecord
  pub scene_from : Value → Result Text SceneRecord
  pub place_from : Value → Result Text PlaceRecord
  pub character_from : Value → Result Text CharacterRecord
  pub item_from : Value → Result Text ItemRecord
  pub condition_from : Value → Result Text ConditionRecord
  pub skill_grant_from : Value → Result Text SkillGrantRecord
  pub relationship_from : Value → Result Text RelationshipRecord
  pub known_fact_from : Value → Result Text KnownFactRecord
  pub goal_from : Value → Result Text GoalRecord
  pub event_instance_from : Value → Result Text EventInstanceRecord
  pub parameter_set_from : Value → Result Text ParameterSetRecord
  pub rule_state_from : Value → Result Text RuleStateRecord
  pub transcript_item_from : Value → Result Text TranscriptItemRecord

-- What the program relies on: each value is read back as it was written.
pub record Lawful (c : Codec) : Type 0 where
  pub world_state_law :
      (r : WorldStateRecord) {v : Value}
      → c.to_value (world_state r) ≡ ok v
      → c.world_state_from v ≡ ok r
  pub scene_law :
      (r : SceneRecord) {v : Value} → c.to_value (scene r) ≡ ok v → c.scene_from v ≡ ok r
  pub place_law :
      (r : PlaceRecord) {v : Value} → c.to_value (place r) ≡ ok v → c.place_from v ≡ ok r
  pub character_law :
      (r : CharacterRecord) {v : Value}
      → c.to_value (character r) ≡ ok v
      → c.character_from v ≡ ok r
  pub item_law : (r : ItemRecord) {v : Value} → c.to_value (item r) ≡ ok v → c.item_from v ≡ ok r
  pub condition_law :
      (r : ConditionRecord) {v : Value}
      → c.to_value (condition r) ≡ ok v
      → c.condition_from v ≡ ok r
  pub skill_grant_law :
      (r : SkillGrantRecord) {v : Value}
      → c.to_value (skill_grant r) ≡ ok v
      → c.skill_grant_from v ≡ ok r
  pub relationship_law :
      (r : RelationshipRecord) {v : Value}
      → c.to_value (relationship r) ≡ ok v
      → c.relationship_from v ≡ ok r
  pub known_fact_law :
      (r : KnownFactRecord) {v : Value}
      → c.to_value (known_fact r) ≡ ok v
      → c.known_fact_from v ≡ ok r
  pub goal_law : (r : GoalRecord) {v : Value} → c.to_value (goal r) ≡ ok v → c.goal_from v ≡ ok r
  pub event_instance_law :
      (r : EventInstanceRecord) {v : Value}
      → c.to_value (event_instance r) ≡ ok v
      → c.event_instance_from v ≡ ok r
  pub parameter_set_law :
      (r : ParameterSetRecord) {v : Value}
      → c.to_value (parameter_set r) ≡ ok v
      → c.parameter_set_from v ≡ ok r
  pub rule_state_law :
      (r : RuleStateRecord) {v : Value}
      → c.to_value (rule_state r) ≡ ok v
      → c.rule_state_from v ≡ ok r
  pub transcript_item_law :
      (r : TranscriptItemRecord) {v : Value}
      → c.to_value (transcript_item r) ≡ ok v
      → c.transcript_item_from v ≡ ok r

-- The error of the two name parsers is one of `RecordError` in the program.
pub data CodecError : Type 0 where
  domain : DomainError → CodecError
  name : NameError → CodecError

abbrev schema_v1 : SchemaVersion
schema_v1 = 1

-- The identifier of the value in a record.
abbrev pub domain_id : DomainRecord → ℕ
domain_id (world_state value) = value.id
domain_id (scene value) = value.id
domain_id (place value) = value.id
domain_id (character value) = value.id
domain_id (item value) = value.id
domain_id (condition value) = value.id
domain_id (skill_grant value) = value.id
domain_id (relationship value) = value.id
domain_id (known_fact value) = value.id
domain_id (goal value) = value.id
domain_id (event_instance value) = value.id
domain_id (parameter_set value) = value.id
domain_id (rule_state value) = value.id
domain_id (transcript_item value) = value.id

abbrev id_prefix : DomainRecord → Text
id_prefix (world_state _) = bytes "wld_"
id_prefix (transcript_item _) = bytes "trn_"
id_prefix _ = bytes "obj_"

module _ (c : Codec) where
  unfoldable pub record_type : DomainRecord → Result CodecError Text
  record_type r = map_err name (parse_record_type (record_type_name r))

  unfoldable pub record_id : DomainRecord → Result CodecError Text
  record_id r = map_err name (parse_record_id (id_prefix r ++ c.hyphenated (domain_id r)))

  -- `DomainRecord::key`
  unfoldable pub domain_key : DomainRecord → Result CodecError RecordKey
  unfolding record_type record_id
  domain_key r = do
    kind ← record_type r
    id ← record_id r
    ok (record { record_type = kind; record_id = id })

  unfoldable pub encode : DomainRecord → Result CodecError Value
  encode r = map_err (λ message. domain (codec (record_type_name r) message)) (c.to_value r)

  unfoldable pub to_envelope :
      DomainRecord → Revision → Option RecordProvenance → Result CodecError (RecordEnvelope Value)
  unfolding encode record_type record_id
  to_envelope r revision provenance = do
    map_err domain (validate_domain r)
    payload ← encode r
    kind ← record_type r
    id ← record_id r
    map_err (λ e. domain (record_error e))
        (new_envelope kind schema_v1 id revision payload provenance)

  abbrev decode : {A : Type 0} → Result Text A → Text → Result CodecError A
  decode r kind = map_err (λ message. domain (codec kind message)) r

  -- The `match` on the type of an envelope.
  unfoldable pub decode_payload : Text → Value → Result CodecError DomainRecord
  decode_payload kind payload =
      if text_beq kind (bytes "world_state")
      then map_ok world_state (decode (c.world_state_from payload) kind)
      else if text_beq kind (bytes "scene")
      then map_ok scene (decode (c.scene_from payload) kind)
      else if text_beq kind (bytes "place")
      then map_ok place (decode (c.place_from payload) kind)
      else if text_beq kind (bytes "character")
      then map_ok character (decode (c.character_from payload) kind)
      else if text_beq kind (bytes "item")
      then map_ok item (decode (c.item_from payload) kind)
      else if text_beq kind (bytes "condition")
      then map_ok condition (decode (c.condition_from payload) kind)
      else if text_beq kind (bytes "skill_grant")
      then map_ok skill_grant (decode (c.skill_grant_from payload) kind)
      else if text_beq kind (bytes "relationship")
      then map_ok relationship (decode (c.relationship_from payload) kind)
      else if text_beq kind (bytes "known_fact")
      then map_ok known_fact (decode (c.known_fact_from payload) kind)
      else if text_beq kind (bytes "goal")
      then map_ok goal (decode (c.goal_from payload) kind)
      else if text_beq kind (bytes "event_instance")
      then map_ok event_instance (decode (c.event_instance_from payload) kind)
      else if text_beq kind (bytes "parameter_set")
      then map_ok parameter_set (decode (c.parameter_set_from payload) kind)
      else if text_beq kind (bytes "rule_state")
      then map_ok rule_state (decode (c.rule_state_from payload) kind)
      else if text_beq kind (bytes "transcript_item")
      then map_ok transcript_item (decode (c.transcript_item_from payload) kind)
      else err (domain (record_error (unknown_record_type kind)))

  unfoldable pub from_envelope : RecordEnvelope Value → Result CodecError DomainRecord
  unfolding record_id decode_payload
  from_envelope envelope = do
    ensure (envelope.schema_version == schema_v1)
        (domain (codec envelope.record_type (c.schema_message schema_v1 envelope.schema_version)))
    r ← decode_payload envelope.record_type envelope.payload
    id ← record_id r
    ensure (text_beq id envelope.record_id) (domain record_identity_mismatch)
    map_err domain (validate_domain r)
    ok r
