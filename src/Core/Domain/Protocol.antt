-- ===== src/Core/Domain/Protocol.antt =====
-- The commands and events of crates/loreloom-core/src/protocol.rs.
use loreloom.Prelude.{ℕ, List}
use loreloom.Prelude.Map.{Map}
use loreloom.Core.Revision.{WorldTime}
use loreloom.Core.Fixed.{Fixed}
use loreloom.Core.Domain.Identities.{ObjectId, ActorId, ContentDefinitionId, ShortText, DisplayName}
use loreloom.Core.Domain.Origins.{GeneratedOrigin}
use loreloom.Core.Domain.Objects.{ParameterValue}
use loreloom.Core.Domain.Facts.{TranscriptItemRecord}
use loreloom.Core.Domain.Spawning.{CharacterSpawnSpec}

pub data SceneTransitionTarget : Type 0 where
  existing : ObjectId → SceneTransitionTarget
  definition : ContentDefinitionId → SceneTransitionTarget

pub data SkillTargetRef : Type 0 where
  self_target : SkillTargetRef
  object : ObjectId → SkillTargetRef
  place : ObjectId → SkillTargetRef

pub data WorldCommandKind : Type 0 where
  move : ObjectId → WorldCommandKind
  transfer_item : ObjectId → ObjectId → WorldCommandKind
  equip_item : ObjectId → ContentDefinitionId → WorldCommandKind
  split_stack : ObjectId → ℕ → WorldCommandKind
  use_skill : ObjectId → SkillTargetRef → WorldCommandKind
  advance_time : ℕ → WorldCommandKind
  spawn_character : CharacterSpawnSpec → WorldCommandKind
  promote_character : ActorId → WorldCommandKind
  transition_scene : SceneTransitionTarget → WorldCommandKind
  create_scene :
      DisplayName → ShortText → DisplayName → ShortText → GeneratedOrigin → WorldCommandKind
  create_place : DisplayName → ShortText → GeneratedOrigin → WorldCommandKind
  append_transcript : List TranscriptItemRecord → WorldCommandKind
  choose_event_option : ObjectId → ContentDefinitionId → WorldCommandKind
  perform_gameplay_action :
      ContentDefinitionId → Map ContentDefinitionId ParameterValue → WorldCommandKind

pub data WorldEventKind : Type 0 where
  character_moved : ActorId → ObjectId → ObjectId → WorldEventKind
  item_transferred : ObjectId → ObjectId → ObjectId → WorldEventKind
  item_equipped : ObjectId → ActorId → ContentDefinitionId → WorldEventKind
  stack_split : ObjectId → ObjectId → ℕ → WorldEventKind
  skill_used : ObjectId → ContentDefinitionId → SkillTargetRef → WorldEventKind
  clock_advanced : ℕ → ℕ → WorldEventKind
  character_spawned : ActorId → WorldEventKind
  character_promoted : ActorId → WorldEventKind
  scene_left : ObjectId → WorldEventKind
  scene_entered : ObjectId → WorldEventKind
  scene_created : ObjectId → ObjectId → WorldEventKind
  place_created : ObjectId → ObjectId → ObjectId → WorldEventKind
  condition_expired : ObjectId → WorldEventKind
  condition_ticked : ObjectId → WorldTime → WorldEventKind
  resource_changed : ActorId → ContentDefinitionId → Fixed → WorldEventKind
  condition_applied : ActorId → ContentDefinitionId → ObjectId → WorldEventKind
  item_granted : ActorId → ObjectId → ContentDefinitionId → ℕ → WorldEventKind
  skill_granted : ActorId → ObjectId → ContentDefinitionId → WorldEventKind
  parameter_changed : ContentDefinitionId → WorldEventKind
  gameplay_action_performed : ContentDefinitionId → WorldEventKind
  event_option_chosen : ObjectId → ContentDefinitionId → WorldEventKind
  rule_triggered : ContentDefinitionId → ShortText → WorldEventKind
  declarative_event_emitted : ShortText → ContentDefinitionId → WorldEventKind
