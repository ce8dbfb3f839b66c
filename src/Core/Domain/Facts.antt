-- ===== src/Core/Domain/Facts.antt =====
-- What is attached to characters and scenes: conditions, skills, relationships, facts, goals, events,
-- parameters and transcripts of crates/loreloom-core/src/domain.rs.
use loreloom.Prelude.{ℕ, Bool, Option, List}
use loreloom.Prelude.Int.{ℤ}
use loreloom.Prelude.Map.{Map}
use loreloom.Core.Revision.{Revision, WorldTime}
use loreloom.Core.Fixed.{Fixed}
use loreloom.Core.Domain.Identities.{
  TranscriptItemId, EventId, ObjectId, ActorId, SessionId, ContentDefinitionId, ShortText,
  DisplayName, LongText,
}
use loreloom.Core.Domain.Origins.{EntityOrigin}
use loreloom.Core.Domain.Objects.{ParameterValue}

pub data ConditionSource : Type 0 where
  item : ObjectId → ConditionSource
  skill : ObjectId → ConditionSource
  environment : ObjectId → ConditionSource
  character : ActorId → ConditionSource
  system : ContentDefinitionId → ConditionSource

pub data IntensityPolicy : Type 0 where
  keep replace maximum : IntensityPolicy

pub record ConditionRecord : Type 0 where
  pub id : ObjectId
  pub target_id : ActorId
  pub condition_id : ContentDefinitionId
  pub source : ConditionSource
  pub stacks : ℕ
  pub intensity : Fixed
  pub applied_at : WorldTime
  pub expires_at : Option WorldTime
  pub next_periodic_at : Option WorldTime
  pub origin : EntityOrigin

pub data SkillSource : Type 0 where
  character_definition : ContentDefinitionId → SkillSource
  item : ObjectId → SkillSource
  condition : ObjectId → SkillSource
  rule : ContentDefinitionId → SkillSource

pub record SkillGrantRecord : Type 0 where
  pub id : ObjectId
  pub owner_id : ActorId
  pub skill_id : ContentDefinitionId
  pub rank : ℕ
  pub proficiency : ℕ
  pub source : SkillSource
  pub enabled : Bool
  pub ready_at : Option WorldTime
  pub origin : EntityOrigin

pub record RelationshipRecord : Type 0 where
  pub id : ObjectId
  pub source_id : ObjectId
  pub target_id : ObjectId
  pub kind_id : ContentDefinitionId
  pub strength : Fixed
  pub origin : EntityOrigin

pub data FactSubject : Type 0 where
  world : FactSubject
  object : ObjectId → FactSubject
  scene : ObjectId → FactSubject

pub data FactValue : Type 0 where
  bool : Bool → FactValue
  fixed : Fixed → FactValue
  counter : ℤ → FactValue
  bounded_text : ShortText → FactValue
  object_ref : ObjectId → FactValue
  tag : ContentDefinitionId → FactValue

pub data KnowledgeStatus : Type 0 where
  believed confirmed disputed forgotten : KnowledgeStatus

pub data FactSource : Type 0 where
  direct_observation : EventId → FactSource
  actor : ActorId → FactSource
  rule : ContentDefinitionId → FactSource
  content : ContentDefinitionId → FactSource

pub record KnownFactRecord : Type 0 where
  pub id : ObjectId
  pub owner_id : ActorId
  pub subject : FactSubject
  pub predicate_id : ContentDefinitionId
  pub value : FactValue
  pub status : KnowledgeStatus
  pub confidence : Fixed
  pub source : FactSource
  pub first_known_at : WorldTime
  pub last_confirmed_at : WorldTime

pub data GoalStatus : Type 0 where
  active achieved abandoned blocked : GoalStatus

pub data GoalSource : Type 0 where
  character_definition : ContentDefinitionId → GoalSource
  actor : ActorId → GoalSource
  rule : ContentDefinitionId → GoalSource
  event : EventId → GoalSource

pub record GoalRecord : Type 0 where
  pub id : ObjectId
  pub owner_id : ActorId
  pub description : ShortText
  pub priority : ℤ
  pub status : GoalStatus
  pub source : GoalSource
  pub updated_at : WorldTime

pub data EventStatus : Type 0 where
  active completed cancelled : EventStatus

pub record EventInstanceRecord : Type 0 where
  pub id : ObjectId
  pub definition_id : ContentDefinitionId
  pub current_node : ContentDefinitionId
  pub scene_id : Option ObjectId
  pub started_at : WorldTime
  pub status : EventStatus
  pub committed_options : List ContentDefinitionId

pub record ParameterSetRecord : Type 0 where
  pub id : ObjectId
  pub schema_id : ContentDefinitionId
  pub values : Map ContentDefinitionId ParameterValue

pub record RuleStateRecord : Type 0 where
  pub id : ObjectId
  pub definition_id : ContentDefinitionId
  pub values : Map ContentDefinitionId ParameterValue
  pub trigger_count : ℕ
  pub last_triggered_at : Option WorldTime

pub data TranscriptSpeaker : Type 0 where
  narrator system : TranscriptSpeaker
  player : ActorId → DisplayName → TranscriptSpeaker
  actor : Option ActorId → DisplayName → TranscriptSpeaker

pub data TranscriptState : Type 0 where
  committed interrupted : TranscriptState

pub data TranscriptAudience : Type 0 where
  player : TranscriptAudience
  npc : ActorId → TranscriptAudience

pub record TranscriptItemRecord : Type 0 where
  pub audience : TranscriptAudience
  pub source_id : Option TranscriptItemId
  pub id : TranscriptItemId
  pub session_id : SessionId
  pub revision : Option Revision
  pub speaker : TranscriptSpeaker
  pub text : LongText
  pub state : TranscriptState
  pub supporting_events : List EventId
