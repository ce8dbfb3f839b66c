-- ===== src/Core/Codec/Envelopes.antt =====
-- The round trip of a domain record through its envelope, crates/loreloom-core/src/codec.rs.
use loreloom.Prelude.{◌≡◌, arith, refl, Option, ok, inl, inr, Result-cases, text_beq_iff}
use loreloom.Core.Revision.{Revision}
use loreloom.Core.Names.{parse_record_type}
use loreloom.Core.Record.{RecordProvenance, RecordEnvelope}
use loreloom.Core.Migration.{Value, new_envelope}
use loreloom.Core.Domain.{
  DomainRecord, record_type_name, world_state, scene, place, character, item, condition,
  skill_grant, relationship, known_fact, goal, event_instance, parameter_set, rule_state,
  transcript_item,
}
use loreloom.Core.Codec.Validation.{validate_domain}
use loreloom.Core.Codec.{
  Codec, Lawful, to_envelope, from_envelope, encode, decode_payload, record_type, record_id,
}

module _ (c : Codec) (l : Lawful c) where
  decode_payload-to_value :
      (r : DomainRecord) {v : Value}
      → c.to_value r ≡ ok v
      → decode_payload c (record_type_name r) v ≡ ok r
  unfolding decode_payload
  decode_payload-to_value (world_state r) h = rw (l.world_state_law r h)
  decode_payload-to_value (scene r) h = rw (l.scene_law r h)
  decode_payload-to_value (place r) h = rw (l.place_law r h)
  decode_payload-to_value (character r) h = rw (l.character_law r h)
  decode_payload-to_value (item r) h = rw (l.item_law r h)
  decode_payload-to_value (condition r) h = rw (l.condition_law r h)
  decode_payload-to_value (skill_grant r) h = rw (l.skill_grant_law r h)
  decode_payload-to_value (relationship r) h = rw (l.relationship_law r h)
  decode_payload-to_value (known_fact r) h = rw (l.known_fact_law r h)
  decode_payload-to_value (goal r) h = rw (l.goal_law r h)
  decode_payload-to_value (event_instance r) h = rw (l.event_instance_law r h)
  decode_payload-to_value (parameter_set r) h = rw (l.parameter_set_law r h)
  decode_payload-to_value (rule_state r) h = rw (l.rule_state_law r h)
  decode_payload-to_value (transcript_item r) h = rw (l.transcript_item_law r h)

record_type-name : (r : DomainRecord) (c : Codec) → record_type c r ≡ ok (record_type_name r)
unfolding record_type parse_record_type
record_type-name (world_state r) c = refl
record_type-name (scene r) c = refl
record_type-name (place r) c = refl
record_type-name (character r) c = refl
record_type-name (item r) c = refl
record_type-name (condition r) c = refl
record_type-name (skill_grant r) c = refl
record_type-name (relationship r) c = refl
record_type-name (known_fact r) c = refl
record_type-name (goal r) c = refl
record_type-name (event_instance r) c = refl
record_type-name (parameter_set r) c = refl
record_type-name (rule_state r) c = refl
record_type-name (transcript_item r) c = refl

module _ (c : Codec) (l : Lawful c) where
  -- Over a codec that reads each value back as it was written, a domain record that is put into an
  -- envelope is read back from it as it was.
  pub from_envelope-to_envelope :
      (r : DomainRecord) (revision : Revision) (provenance : Option RecordProvenance)
      {e : RecordEnvelope Value}
      → to_envelope c r revision provenance ≡ ok e
      → from_envelope c e ≡ ok r
  unfolding to_envelope from_envelope encode new_envelope
  from_envelope-to_envelope r revision provenance h = elim (Result-cases (validate_domain r)) [
    | inr (x, n) ↦ ground (arith, n)
    | inl (u, v) ↦ elim (Result-cases (c.to_value r)) [
      | inr (x, n) ↦ ground (arith, v, n)
      | inl (p, w) ↦ elim (Result-cases (record_id c r)) [
        | inr (x, n) ↦ ground (arith, v, w, n, record_type-name r c)
        | inl (i, k) ↦ ground (
          arith,
          v,
          w,
          k,
          record_type-name r c,
          decode_payload-to_value c l r w,
          text_beq_iff i i,
        )
      ]
    ]
  ]
