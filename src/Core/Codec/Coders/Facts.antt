-- ===== src/Core/Codec/Coders/Facts.antt =====
-- The records and enums of Core/Domain/Facts as JSON values, and back.
use loreloom.Prelude.{◌≡◌, refl, ◌⊎◌, inl, inr, ℕ, Bool, Option, List}
use loreloom.Prelude.Int.{ℤ}
use loreloom.Prelude.Map.{Map}
use loreloom.Core.Fixed.{Fixed}
use loreloom.Core.Revision.{Revision}
use loreloom.Core.Revision.{WorldTime}
use loreloom.Core.Domain.Identities.{
  ObjectId, ActorId, EventId, TranscriptItemId, SessionId, ContentDefinitionId, DisplayName,
  ShortText, LongText,
}
use loreloom.Core.Domain.Origins.{EntityOrigin}
use loreloom.Core.Codec.Coders.Origins.{entity_origin_coder, fixed_coder}
use loreloom.Core.Domain.Objects.{ParameterValue}
use loreloom.Core.Codec.Coders.Objects.{parameter_value_coder}
use loreloom.Core.Domain.Facts.{
  ConditionSource, IntensityPolicy, ConditionRecord, SkillSource, SkillGrantRecord,
  RelationshipRecord, FactSubject, FactValue, KnowledgeStatus, FactSource, KnownFactRecord,
  GoalStatus, GoalSource, GoalRecord, EventStatus, EventInstanceRecord, ParameterSetRecord,
  RuleStateRecord, TranscriptSpeaker, TranscriptState, TranscriptAudience, TranscriptItemRecord,
}
use loreloom.Core.Codec.Coders.{
  Coder, a_number, an_integer, a_boolean, a_text, nothing, pair, either, made, list_of, option_of,
}

abbrev condition_source_of :
    ObjectId ⊎ (ObjectId ⊎ (ObjectId ⊎ (ActorId ⊎ ContentDefinitionId))) → ConditionSource
condition_source_of (inl x0) = ConditionSource.item x0
condition_source_of (inr (inl x0)) = ConditionSource.skill x0
condition_source_of (inr (inr (inl x0))) = ConditionSource.environment x0
condition_source_of (inr (inr (inr (inl x0)))) = ConditionSource.character x0
condition_source_of (inr (inr (inr (inr x0)))) = ConditionSource.system x0

abbrev condition_source_cases :
    ConditionSource → ObjectId ⊎ (ObjectId ⊎ (ObjectId ⊎ (ActorId ⊎ ContentDefinitionId)))
condition_source_cases (ConditionSource.item x0) = inl x0
condition_source_cases (ConditionSource.skill x0) = inr (inl x0)
condition_source_cases (ConditionSource.environment x0) = inr (inr (inl x0))
condition_source_cases (ConditionSource.character x0) = inr (inr (inr (inl x0)))
condition_source_cases (ConditionSource.system x0) = inr (inr (inr (inr x0)))

pub condition_source_of-cases :
    (x : ConditionSource) → condition_source_of (condition_source_cases x) ≡ x
condition_source_of-cases (ConditionSource.item x0) = refl
condition_source_of-cases (ConditionSource.skill x0) = refl
condition_source_of-cases (ConditionSource.environment x0) = refl
condition_source_of-cases (ConditionSource.character x0) = refl
condition_source_of-cases (ConditionSource.system x0) = refl

abbrev pub condition_source_coder : Coder ConditionSource
condition_source_coder =
    made (either a_number (either a_number (either a_number (either a_number a_text))))
      condition_source_of condition_source_cases condition_source_of-cases

abbrev intensity_policy_of : (Unit {0}) ⊎ ((Unit {0}) ⊎ (Unit {0})) → IntensityPolicy
intensity_policy_of (inl u) = IntensityPolicy.keep
intensity_policy_of (inr (inl u)) = IntensityPolicy.replace
intensity_policy_of (inr (inr u)) = IntensityPolicy.maximum

abbrev intensity_policy_cases : IntensityPolicy → (Unit {0}) ⊎ ((Unit {0}) ⊎ (Unit {0}))
intensity_policy_cases IntensityPolicy.keep = inl tt
intensity_policy_cases IntensityPolicy.replace = inr (inl tt)
intensity_policy_cases IntensityPolicy.maximum = inr (inr tt)

pub intensity_policy_of-cases :
    (x : IntensityPolicy) → intensity_policy_of (intensity_policy_cases x) ≡ x
intensity_policy_of-cases IntensityPolicy.keep = refl
intensity_policy_of-cases IntensityPolicy.replace = refl
intensity_policy_of-cases IntensityPolicy.maximum = refl

abbrev pub intensity_policy_coder : Coder IntensityPolicy
intensity_policy_coder =
    made (either nothing (either nothing nothing)) intensity_policy_of intensity_policy_cases
      intensity_policy_of-cases

abbrev condition_record_of :
    ObjectId
      × (ActorId
          × (ContentDefinitionId
              × (ConditionSource
                  × (ℕ
                      × (Fixed
                          × (WorldTime
                              × ((Option WorldTime) × ((Option WorldTime) × EntityOrigin))))))))
    → ConditionRecord
condition_record_of (x0, (x1, (x2, (x3, (x4, (x5, (x6, (x7, (x8, x9))))))))) = record {
  id = x0;
  target_id = x1;
  condition_id = x2;
  source = x3;
  stacks = x4;
  intensity = x5;
  applied_at = x6;
  expires_at = x7;
  next_periodic_at = x8;
  origin = x9;
}

abbrev condition_record_fields :
    ConditionRecord
    → ObjectId
      × (ActorId
          × (ContentDefinitionId
              × (ConditionSource
                  × (ℕ
                      × (Fixed
                          × (WorldTime
                              × ((Option WorldTime) × ((Option WorldTime) × EntityOrigin))))))))
condition_record_fields r = (
  r.id,
  (
    r.target_id,
    (
      r.condition_id,
      (
        r.source,
        (r.stacks, (r.intensity, (r.applied_at, (r.expires_at, (r.next_periodic_at, r.origin))))),
      ),
    ),
  ),
)

abbrev pub condition_record_coder : Coder ConditionRecord
condition_record_coder =
    made
      (pair a_number (
        pair a_number (
          pair a_text (
            pair condition_source_coder (
              pair a_number (
                pair fixed_coder (
                  pair a_number (
                    pair (option_of a_number)
                      (pair (option_of a_number) entity_origin_coder)))))))))
      condition_record_of condition_record_fields (λ r. refl)

abbrev skill_source_of :
    ContentDefinitionId ⊎ (ObjectId ⊎ (ObjectId ⊎ ContentDefinitionId)) → SkillSource
skill_source_of (inl x0) = SkillSource.character_definition x0
skill_source_of (inr (inl x0)) = SkillSource.item x0
skill_source_of (inr (inr (inl x0))) = SkillSource.condition x0
skill_source_of (inr (inr (inr x0))) = SkillSource.rule x0

abbrev skill_source_cases :
    SkillSource → ContentDefinitionId ⊎ (ObjectId ⊎ (ObjectId ⊎ ContentDefinitionId))
skill_source_cases (SkillSource.character_definition x0) = inl x0
skill_source_cases (SkillSource.item x0) = inr (inl x0)
skill_source_cases (SkillSource.condition x0) = inr (inr (inl x0))
skill_source_cases (SkillSource.rule x0) = inr (inr (inr x0))

pub skill_source_of-cases : (x : SkillSource) → skill_source_of (skill_source_cases x) ≡ x
skill_source_of-cases (SkillSource.character_definition x0) = refl
skill_source_of-cases (SkillSource.item x0) = refl
skill_source_of-cases (SkillSource.condition x0) = refl
skill_source_of-cases (SkillSource.rule x0) = refl

abbrev pub skill_source_coder : Coder SkillSource
skill_source_coder =
    made (either a_text (either a_number (either a_number a_text))) skill_source_of
      skill_source_cases skill_source_of-cases

abbrev skill_grant_record_of :
    ObjectId
      × (ActorId
          × (ContentDefinitionId
              × (ℕ × (ℕ × (SkillSource × (Bool × ((Option WorldTime) × EntityOrigin)))))))
    → SkillGrantRecord
skill_grant_record_of (x0, (x1, (x2, (x3, (x4, (x5, (x6, (x7, x8)))))))) = record {
  id = x0;
  owner_id = x1;
  skill_id = x2;
  rank = x3;
  proficiency = x4;
  source = x5;
  enabled = x6;
  ready_at = x7;
  origin = x8;
}

abbrev skill_grant_record_fields :
    SkillGrantRecord
    → ObjectId
      × (ActorId
          × (ContentDefinitionId
              × (ℕ × (ℕ × (SkillSource × (Bool × ((Option WorldTime) × EntityOrigin)))))))
skill_grant_record_fields r = (
  r.id,
  (
    r.owner_id,
    (r.skill_id, (r.rank, (r.proficiency, (r.source, (r.enabled, (r.ready_at, r.origin)))))),
  ),
)

abbrev pub skill_grant_record_coder : Coder SkillGrantRecord
skill_grant_record_coder =
    made
      (pair a_number (
        pair a_number (
          pair a_text (
            pair a_number (
              pair a_number (
                pair skill_source_coder
                  (pair a_boolean (pair (option_of a_number) entity_origin_coder))))))))
      skill_grant_record_of skill_grant_record_fields (λ r. refl)

abbrev relationship_record_of :
    ObjectId × (ObjectId × (ObjectId × (ContentDefinitionId × (Fixed × EntityOrigin))))
    → RelationshipRecord
relationship_record_of (x0, (x1, (x2, (x3, (x4, x5))))) = record {
  id = x0;
  source_id = x1;
  target_id = x2;
  kind_id = x3;
  strength = x4;
  origin = x5;
}

abbrev relationship_record_fields :
    RelationshipRecord
    → ObjectId × (ObjectId × (ObjectId × (ContentDefinitionId × (Fixed × EntityOrigin))))
relationship_record_fields r =
    (r.id, (r.source_id, (r.target_id, (r.kind_id, (r.strength, r.origin)))))

abbrev pub relationship_record_coder : Coder RelationshipRecord
relationship_record_coder =
    made
      (pair a_number
        (pair a_number (pair a_number (pair a_text (pair fixed_coder entity_origin_coder)))))
      relationship_record_of relationship_record_fields (λ r. refl)

abbrev fact_subject_of : (Unit {0}) ⊎ (ObjectId ⊎ ObjectId) → FactSubject
fact_subject_of (inl u) = FactSubject.world
fact_subject_of (inr (inl x0)) = FactSubject.object x0
fact_subject_of (inr (inr x0)) = FactSubject.scene x0

abbrev fact_subject_cases : FactSubject → (Unit {0}) ⊎ (ObjectId ⊎ ObjectId)
fact_subject_cases FactSubject.world = inl tt
fact_subject_cases (FactSubject.object x0) = inr (inl x0)
fact_subject_cases (FactSubject.scene x0) = inr (inr x0)

pub fact_subject_of-cases : (x : FactSubject) → fact_subject_of (fact_subject_cases x) ≡ x
fact_subject_of-cases FactSubject.world = refl
fact_subject_of-cases (FactSubject.object x0) = refl
fact_subject_of-cases (FactSubject.scene x0) = refl

abbrev pub fact_subject_coder : Coder FactSubject
fact_subject_coder =
    made (either nothing (either a_number a_number)) fact_subject_of fact_subject_cases
      fact_subject_of-cases

abbrev fact_value_of :
    Bool ⊎ (Fixed ⊎ (ℤ ⊎ (ShortText ⊎ (ObjectId ⊎ ContentDefinitionId)))) → FactValue
fact_value_of (inl x0) = FactValue.bool x0
fact_value_of (inr (inl x0)) = FactValue.fixed x0
fact_value_of (inr (inr (inl x0))) = FactValue.counter x0
fact_value_of (inr (inr (inr (inl x0)))) = FactValue.bounded_text x0
fact_value_of (inr (inr (inr (inr (inl x0))))) = FactValue.object_ref x0
fact_value_of (inr (inr (inr (inr (inr x0))))) = FactValue.tag x0

abbrev fact_value_cases :
    FactValue → Bool ⊎ (Fixed ⊎ (ℤ ⊎ (ShortText ⊎ (ObjectId ⊎ ContentDefinitionId))))
fact_value_cases (FactValue.bool x0) = inl x0
fact_value_cases (FactValue.fixed x0) = inr (inl x0)
fact_value_cases (FactValue.counter x0) = inr (inr (inl x0))
fact_value_cases (FactValue.bounded_text x0) = inr (inr (inr (inl x0)))
fact_value_cases (FactValue.object_ref x0) = inr (inr (inr (inr (inl x0))))
fact_value_cases (FactValue.tag x0) = inr (inr (inr (inr (inr x0))))

pub fact_value_of-cases : (x : FactValue) → fact_value_of (fact_value_cases x) ≡ x
fact_value_of-cases (FactValue.bool x0) = refl
fact_value_of-cases (FactValue.fixed x0) = refl
fact_value_of-cases (FactValue.counter x0) = refl
fact_value_of-cases (FactValue.bounded_text x0) = refl
fact_value_of-cases (FactValue.object_ref x0) = refl
fact_value_of-cases (FactValue.tag x0) = refl

abbrev pub fact_value_coder : Coder FactValue
fact_value_coder =
    made
      (either a_boolean
        (either fixed_coder (either an_integer (either a_text (either a_number a_text)))))
      fact_value_of fact_value_cases fact_value_of-cases

abbrev knowledge_status_of : (Unit {0}) ⊎ ((Unit {0}) ⊎ ((Unit {0}) ⊎ (Unit {0}))) → KnowledgeStatus
knowledge_status_of (inl u) = KnowledgeStatus.believed
knowledge_status_of (inr (inl u)) = KnowledgeStatus.confirmed
knowledge_status_of (inr (inr (inl u))) = KnowledgeStatus.disputed
knowledge_status_of (inr (inr (inr u))) = KnowledgeStatus.forgotten

abbrev knowledge_status_cases :
    KnowledgeStatus → (Unit {0}) ⊎ ((Unit {0}) ⊎ ((Unit {0}) ⊎ (Unit {0})))
knowledge_status_cases KnowledgeStatus.believed = inl tt
knowledge_status_cases KnowledgeStatus.confirmed = inr (inl tt)
knowledge_status_cases KnowledgeStatus.disputed = inr (inr (inl tt))
knowledge_status_cases KnowledgeStatus.forgotten = inr (inr (inr tt))

pub knowledge_status_of-cases :
    (x : KnowledgeStatus) → knowledge_status_of (knowledge_status_cases x) ≡ x
knowledge_status_of-cases KnowledgeStatus.believed = refl
knowledge_status_of-cases KnowledgeStatus.confirmed = refl
knowledge_status_of-cases KnowledgeStatus.disputed = refl
knowledge_status_of-cases KnowledgeStatus.forgotten = refl

abbrev pub knowledge_status_coder : Coder KnowledgeStatus
knowledge_status_coder =
    made (either nothing (either nothing (either nothing nothing))) knowledge_status_of
      knowledge_status_cases knowledge_status_of-cases

abbrev fact_source_of :
    EventId ⊎ (ActorId ⊎ (ContentDefinitionId ⊎ ContentDefinitionId)) → FactSource
fact_source_of (inl x0) = FactSource.direct_observation x0
fact_source_of (inr (inl x0)) = FactSource.actor x0
fact_source_of (inr (inr (inl x0))) = FactSource.rule x0
fact_source_of (inr (inr (inr x0))) = FactSource.content x0

abbrev fact_source_cases :
    FactSource → EventId ⊎ (ActorId ⊎ (ContentDefinitionId ⊎ ContentDefinitionId))
fact_source_cases (FactSource.direct_observation x0) = inl x0
fact_source_cases (FactSource.actor x0) = inr (inl x0)
fact_source_cases (FactSource.rule x0) = inr (inr (inl x0))
fact_source_cases (FactSource.content x0) = inr (inr (inr x0))

pub fact_source_of-cases : (x : FactSource) → fact_source_of (fact_source_cases x) ≡ x
fact_source_of-cases (FactSource.direct_observation x0) = refl
fact_source_of-cases (FactSource.actor x0) = refl
fact_source_of-cases (FactSource.rule x0) = refl
fact_source_of-cases (FactSource.content x0) = refl

abbrev pub fact_source_coder : Coder FactSource
fact_source_coder =
    made (either a_number (either a_number (either a_text a_text))) fact_source_of fact_source_cases
      fact_source_of-cases

abbrev known_fact_record_of :
    ObjectId
      × (ActorId
          × (FactSubject
              × (ContentDefinitionId
                  × (FactValue
                      × (KnowledgeStatus × (Fixed × (FactSource × (WorldTime × WorldTime))))))))
    → KnownFactRecord
known_fact_record_of (x0, (x1, (x2, (x3, (x4, (x5, (x6, (x7, (x8, x9))))))))) = record {
  id = x0;
  owner_id = x1;
  subject = x2;
  predicate_id = x3;
  value = x4;
  status = x5;
  confidence = x6;
  source = x7;
  first_known_at = x8;
  last_confirmed_at = x9;
}

abbrev known_fact_record_fields :
    KnownFactRecord
    → ObjectId
      × (ActorId
          × (FactSubject
              × (ContentDefinitionId
                  × (FactValue
                      × (KnowledgeStatus × (Fixed × (FactSource × (WorldTime × WorldTime))))))))
known_fact_record_fields r = (
  r.id,
  (
    r.owner_id,
    (
      r.subject,
      (
        r.predicate_id,
        (r.value, (r.status, (r.confidence, (r.source, (r.first_known_at, r.last_confirmed_at))))),
      ),
    ),
  ),
)

abbrev pub known_fact_record_coder : Coder KnownFactRecord
known_fact_record_coder =
    made
      (pair a_number (
        pair a_number (
          pair fact_subject_coder (
            pair a_text (
              pair fact_value_coder (
                pair knowledge_status_coder
                  (pair fixed_coder (pair fact_source_coder (pair a_number a_number)))))))))
      known_fact_record_of known_fact_record_fields (λ r. refl)

abbrev goal_status_of : (Unit {0}) ⊎ ((Unit {0}) ⊎ ((Unit {0}) ⊎ (Unit {0}))) → GoalStatus
goal_status_of (inl u) = GoalStatus.active
goal_status_of (inr (inl u)) = GoalStatus.achieved
goal_status_of (inr (inr (inl u))) = GoalStatus.abandoned
goal_status_of (inr (inr (inr u))) = GoalStatus.blocked

abbrev goal_status_cases : GoalStatus → (Unit {0}) ⊎ ((Unit {0}) ⊎ ((Unit {0}) ⊎ (Unit {0})))
goal_status_cases GoalStatus.active = inl tt
goal_status_cases GoalStatus.achieved = inr (inl tt)
goal_status_cases GoalStatus.abandoned = inr (inr (inl tt))
goal_status_cases GoalStatus.blocked = inr (inr (inr tt))

pub goal_status_of-cases : (x : GoalStatus) → goal_status_of (goal_status_cases x) ≡ x
goal_status_of-cases GoalStatus.active = refl
goal_status_of-cases GoalStatus.achieved = refl
goal_status_of-cases GoalStatus.abandoned = refl
goal_status_of-cases GoalStatus.blocked = refl

abbrev pub goal_status_coder : Coder GoalStatus
goal_status_coder =
    made (either nothing (either nothing (either nothing nothing))) goal_status_of goal_status_cases
      goal_status_of-cases

abbrev goal_source_of :
    ContentDefinitionId ⊎ (ActorId ⊎ (ContentDefinitionId ⊎ EventId)) → GoalSource
goal_source_of (inl x0) = GoalSource.character_definition x0
goal_source_of (inr (inl x0)) = GoalSource.actor x0
goal_source_of (inr (inr (inl x0))) = GoalSource.rule x0
goal_source_of (inr (inr (inr x0))) = GoalSource.event x0

abbrev goal_source_cases :
    GoalSource → ContentDefinitionId ⊎ (ActorId ⊎ (ContentDefinitionId ⊎ EventId))
goal_source_cases (GoalSource.character_definition x0) = inl x0
goal_source_cases (GoalSource.actor x0) = inr (inl x0)
goal_source_cases (GoalSource.rule x0) = inr (inr (inl x0))
goal_source_cases (GoalSource.event x0) = inr (inr (inr x0))

pub goal_source_of-cases : (x : GoalSource) → goal_source_of (goal_source_cases x) ≡ x
goal_source_of-cases (GoalSource.character_definition x0) = refl
goal_source_of-cases (GoalSource.actor x0) = refl
goal_source_of-cases (GoalSource.rule x0) = refl
goal_source_of-cases (GoalSource.event x0) = refl

abbrev pub goal_source_coder : Coder GoalSource
goal_source_coder =
    made (either a_text (either a_number (either a_text a_number))) goal_source_of goal_source_cases
      goal_source_of-cases

abbrev goal_record_of :
    ObjectId × (ActorId × (ShortText × (ℤ × (GoalStatus × (GoalSource × WorldTime))))) → GoalRecord
goal_record_of (x0, (x1, (x2, (x3, (x4, (x5, x6)))))) = record {
  id = x0;
  owner_id = x1;
  description = x2;
  priority = x3;
  status = x4;
  source = x5;
  updated_at = x6;
}

abbrev goal_record_fields :
    GoalRecord → ObjectId × (ActorId × (ShortText × (ℤ × (GoalStatus × (GoalSource × WorldTime)))))
goal_record_fields r =
    (r.id, (r.owner_id, (r.description, (r.priority, (r.status, (r.source, r.updated_at))))))

abbrev pub goal_record_coder : Coder GoalRecord
goal_record_coder =
    made
      (pair a_number (
        pair a_number (
          pair a_text
            (pair an_integer (pair goal_status_coder (pair goal_source_coder a_number))))))
      goal_record_of goal_record_fields (λ r. refl)

abbrev event_status_of : (Unit {0}) ⊎ ((Unit {0}) ⊎ (Unit {0})) → EventStatus
event_status_of (inl u) = EventStatus.active
event_status_of (inr (inl u)) = EventStatus.completed
event_status_of (inr (inr u)) = EventStatus.cancelled

abbrev event_status_cases : EventStatus → (Unit {0}) ⊎ ((Unit {0}) ⊎ (Unit {0}))
event_status_cases EventStatus.active = inl tt
event_status_cases EventStatus.completed = inr (inl tt)
event_status_cases EventStatus.cancelled = inr (inr tt)

pub event_status_of-cases : (x : EventStatus) → event_status_of (event_status_cases x) ≡ x
event_status_of-cases EventStatus.active = refl
event_status_of-cases EventStatus.completed = refl
event_status_of-cases EventStatus.cancelled = refl

abbrev pub event_status_coder : Coder EventStatus
event_status_coder =
    made (either nothing (either nothing nothing)) event_status_of event_status_cases
      event_status_of-cases

abbrev event_instance_record_of :
    ObjectId
      × (ContentDefinitionId
          × (ContentDefinitionId
              × ((Option ObjectId) × (WorldTime × (EventStatus × (List ContentDefinitionId))))))
    → EventInstanceRecord
event_instance_record_of (x0, (x1, (x2, (x3, (x4, (x5, x6)))))) = record {
  id = x0;
  definition_id = x1;
  current_node = x2;
  scene_id = x3;
  started_at = x4;
  status = x5;
  committed_options = x6;
}

abbrev event_instance_record_fields :
    EventInstanceRecord
    → ObjectId
      × (ContentDefinitionId
          × (ContentDefinitionId
              × ((Option ObjectId) × (WorldTime × (EventStatus × (List ContentDefinitionId))))))
event_instance_record_fields r = (
  r.id,
  (
    r.definition_id,
    (r.current_node, (r.scene_id, (r.started_at, (r.status, r.committed_options)))),
  ),
)

abbrev pub event_instance_record_coder : Coder EventInstanceRecord
event_instance_record_coder =
    made
      (pair a_number (
        pair a_text (
          pair a_text (
            pair (option_of a_number) (pair a_number (pair event_status_coder (list_of a_text)))))))
      event_instance_record_of event_instance_record_fields (λ r. refl)

abbrev parameter_set_record_of :
    ObjectId × (ContentDefinitionId × (Map ContentDefinitionId ParameterValue)) → ParameterSetRecord
parameter_set_record_of (x0, (x1, x2)) = record { id = x0; schema_id = x1; values = x2 }

abbrev parameter_set_record_fields :
    ParameterSetRecord → ObjectId × (ContentDefinitionId × (Map ContentDefinitionId ParameterValue))
parameter_set_record_fields r = (r.id, (r.schema_id, r.values))

abbrev pub parameter_set_record_coder : Coder ParameterSetRecord
parameter_set_record_coder =
    made (pair a_number (pair a_text (list_of (pair a_text parameter_value_coder))))
      parameter_set_record_of parameter_set_record_fields (λ r. refl)

abbrev rule_state_record_of :
    ObjectId
      × (ContentDefinitionId
          × ((Map ContentDefinitionId ParameterValue) × (ℕ × (Option WorldTime))))
    → RuleStateRecord
rule_state_record_of (x0, (x1, (x2, (x3, x4)))) = record {
  id = x0;
  definition_id = x1;
  values = x2;
  trigger_count = x3;
  last_triggered_at = x4;
}

abbrev rule_state_record_fields :
    RuleStateRecord
    → ObjectId
      × (ContentDefinitionId
          × ((Map ContentDefinitionId ParameterValue) × (ℕ × (Option WorldTime))))
rule_state_record_fields r =
    (r.id, (r.definition_id, (r.values, (r.trigger_count, r.last_triggered_at))))

abbrev pub rule_state_record_coder : Coder RuleStateRecord
rule_state_record_coder =
    made
      (pair a_number (
        pair a_text (
          pair (list_of (pair a_text parameter_value_coder)) (pair a_number (option_of a_number)))))
      rule_state_record_of rule_state_record_fields (λ r. refl)

abbrev transcript_speaker_of :
    (Unit {0}) ⊎ ((Unit {0}) ⊎ ((ActorId × DisplayName) ⊎ ((Option ActorId) × DisplayName)))
    → TranscriptSpeaker
transcript_speaker_of (inl u) = TranscriptSpeaker.narrator
transcript_speaker_of (inr (inl u)) = TranscriptSpeaker.system
transcript_speaker_of (inr (inr (inl (x0, x1)))) = TranscriptSpeaker.player x0 x1
transcript_speaker_of (inr (inr (inr (x0, x1)))) = TranscriptSpeaker.actor x0 x1

abbrev transcript_speaker_cases :
    TranscriptSpeaker
    → (Unit {0}) ⊎ ((Unit {0}) ⊎ ((ActorId × DisplayName) ⊎ ((Option ActorId) × DisplayName)))
transcript_speaker_cases TranscriptSpeaker.narrator = inl tt
transcript_speaker_cases TranscriptSpeaker.system = inr (inl tt)
transcript_speaker_cases (TranscriptSpeaker.player x0 x1) = inr (inr (inl (x0, x1)))
transcript_speaker_cases (TranscriptSpeaker.actor x0 x1) = inr (inr (inr (x0, x1)))

pub transcript_speaker_of-cases :
    (x : TranscriptSpeaker) → transcript_speaker_of (transcript_speaker_cases x) ≡ x
transcript_speaker_of-cases TranscriptSpeaker.narrator = refl
transcript_speaker_of-cases TranscriptSpeaker.system = refl
transcript_speaker_of-cases (TranscriptSpeaker.player x0 x1) = refl
transcript_speaker_of-cases (TranscriptSpeaker.actor x0 x1) = refl

abbrev pub transcript_speaker_coder : Coder TranscriptSpeaker
transcript_speaker_coder =
    made
      (either nothing
        (either nothing (either (pair a_number a_text) (pair (option_of a_number) a_text))))
      transcript_speaker_of transcript_speaker_cases transcript_speaker_of-cases

abbrev transcript_state_of : (Unit {0}) ⊎ (Unit {0}) → TranscriptState
transcript_state_of (inl u) = TranscriptState.committed
transcript_state_of (inr u) = TranscriptState.interrupted

abbrev transcript_state_cases : TranscriptState → (Unit {0}) ⊎ (Unit {0})
transcript_state_cases TranscriptState.committed = inl tt
transcript_state_cases TranscriptState.interrupted = inr tt

pub transcript_state_of-cases :
    (x : TranscriptState) → transcript_state_of (transcript_state_cases x) ≡ x
transcript_state_of-cases TranscriptState.committed = refl
transcript_state_of-cases TranscriptState.interrupted = refl

abbrev pub transcript_state_coder : Coder TranscriptState
transcript_state_coder =
    made (either nothing nothing) transcript_state_of transcript_state_cases
      transcript_state_of-cases

abbrev transcript_audience_of : (Unit {0}) ⊎ ActorId → TranscriptAudience
transcript_audience_of (inl u) = TranscriptAudience.player
transcript_audience_of (inr x0) = TranscriptAudience.npc x0

abbrev transcript_audience_cases : TranscriptAudience → (Unit {0}) ⊎ ActorId
transcript_audience_cases TranscriptAudience.player = inl tt
transcript_audience_cases (TranscriptAudience.npc x0) = inr x0

pub transcript_audience_of-cases :
    (x : TranscriptAudience) → transcript_audience_of (transcript_audience_cases x) ≡ x
transcript_audience_of-cases TranscriptAudience.player = refl
transcript_audience_of-cases (TranscriptAudience.npc x0) = refl

abbrev pub transcript_audience_coder : Coder TranscriptAudience
transcript_audience_coder =
    made (either nothing a_number) transcript_audience_of transcript_audience_cases
      transcript_audience_of-cases

abbrev transcript_item_record_of :
    TranscriptAudience
      × ((Option TranscriptItemId)
          × (TranscriptItemId
              × (SessionId
                  × ((Option Revision)
                      × (TranscriptSpeaker × (LongText × (TranscriptState × (List EventId))))))))
    → TranscriptItemRecord
transcript_item_record_of (x0, (x1, (x2, (x3, (x4, (x5, (x6, (x7, x8)))))))) = record {
  audience = x0;
  source_id = x1;
  id = x2;
  session_id = x3;
  revision = x4;
  speaker = x5;
  text = x6;
  state = x7;
  supporting_events = x8;
}

abbrev transcript_item_record_fields :
    TranscriptItemRecord
    → TranscriptAudience
      × ((Option TranscriptItemId)
          × (TranscriptItemId
              × (SessionId
                  × ((Option Revision)
                      × (TranscriptSpeaker × (LongText × (TranscriptState × (List EventId))))))))
transcript_item_record_fields r = (
  r.audience,
  (
    r.source_id,
    (r.id, (r.session_id, (r.revision, (r.speaker, (r.text, (r.state, r.supporting_events)))))),
  ),
)

abbrev pub transcript_item_record_coder : Coder TranscriptItemRecord
transcript_item_record_coder =
    made
      (pair transcript_audience_coder (
        pair (option_of a_number) (
          pair a_number (
            pair a_number (
              pair (option_of a_number) (
                pair transcript_speaker_coder
                  (pair a_text (pair transcript_state_coder (list_of a_number)))))))))
      transcript_item_record_of transcript_item_record_fields (λ r. refl)
