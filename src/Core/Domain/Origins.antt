-- ===== src/Core/Domain/Origins.antt =====
-- Where an entity comes from, and the texts of a character: the first structs of
-- crates/loreloom-core/src/domain.rs.
use loreloom.Prelude.{ℕ, Bool, Option, some, none, List, Text}
use loreloom.Prelude.Int.{ℤ}
use loreloom.Prelude.Map.{Map}
use loreloom.Core.Fixed.{Fixed}
use loreloom.Core.Domain.Identities.{
  GenerationId, TranscriptItemId, EventId, ObjectId, ActionId, ModId, ContentDefinitionId,
  ShortText,
}

abbrev pub ContentHash : Type 0
ContentHash = Text

pub record ContentOrigin : Type 0 where
  pub mod_id : ModId
  pub mod_version : ShortText
  pub pack_id : ContentDefinitionId
  pub definition_id : ContentDefinitionId
  pub content_version : ℕ
  pub content_hash : ContentHash

pub data GenerationSource : Type 0 where
  player_input : TranscriptItemId → GenerationSource
  world_event : EventId → GenerationSource

pub record GeneratedOrigin : Type 0 where
  pub generation_id : GenerationId
  pub generator_version : ShortText
  pub source : GenerationSource

pub data EntityOrigin : Type 0 where
  content : ContentOrigin → EntityOrigin
  generated : GeneratedOrigin → EntityOrigin
  player_created : ContentOrigin → EntityOrigin
  system : ContentDefinitionId → EntityOrigin

pub data AutonomyMode : Type 0 where
  directed reactive : AutonomyMode

pub record AgentBinding : Type 0 where
  pub profile_id : ContentDefinitionId
  pub enabled : Bool
  pub autonomy : AutonomyMode

pub data CharacterController : Type 0 where
  player narrator_proxy rules agent : CharacterController

pub data CharacterLifetime : Type 0 where
  persistent : CharacterLifetime
  scene : ObjectId → CharacterLifetime

pub record CharacterProfile : Type 0 where
  pub summary : ShortText
  pub values : List ShortText
  pub speaking_style : ShortText
  pub narrative_tags : List ContentDefinitionId

abbrev pub BaseAttributes : Type 0
BaseAttributes = Map ContentDefinitionId Fixed

pub data AttributeOperation : Type 0 where
  flat multiply override clamp_minimum clamp_maximum : AttributeOperation

pub record AttributeAdjustment : Type 0 where
  pub source_id : ObjectId
  pub attribute_id : ContentDefinitionId
  pub operation : AttributeOperation
  pub value : Fixed
  pub priority : ℤ

pub data LifeState : Type 0 where
  alive downed dead : LifeState

pub data ActionState : Type 0 where
  idle waiting : ActionState
  acting : ActionId → ActionState

pub data Posture : Type 0 where
  standing sitting prone : Posture

pub record ResourcePool : Type 0 where
  pub resource_id : ContentDefinitionId
  pub current : Fixed
  pub base_maximum : Fixed

pub data AppearanceValue : Type 0 where
  color : List ℕ → AppearanceValue
  variant : ContentDefinitionId → AppearanceValue
  boolean : Bool → AppearanceValue

pub record CharacterAppearance : Type 0 where
  pub model_id : ContentDefinitionId
  pub parameters : Map ContentDefinitionId AppearanceValue

-- `EntityOrigin::content`
abbrev pub content_of : EntityOrigin → Option ContentOrigin
content_of (content origin) = some origin
content_of (player_created template) = some template
content_of (generated _) = none
content_of (system _) = none
