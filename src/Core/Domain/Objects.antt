-- ===== src/Core/Domain/Objects.antt =====
-- The world, its scenes, places, characters and items: the records of crates/loreloom-core/src/domain.rs
-- that commands move about.
use loreloom.Prelude.{ℕ, Bool, Option, List}
use loreloom.Prelude.Int.{ℤ}
use loreloom.Prelude.Map.{Map}
use loreloom.Core.Revision.{WorldTime}
use loreloom.Core.Fixed.{Fixed}
use loreloom.Core.Domain.Identities.{
  ObjectId, ActorId, WorldId, ContentDefinitionId, ShortText, DisplayName,
}
use loreloom.Core.Domain.Origins.{
  EntityOrigin, CharacterProfile, CharacterAppearance, CharacterController, CharacterLifetime,
  AgentBinding, BaseAttributes, AttributeAdjustment, ResourcePool, LifeState, ActionState, Posture,
}

abbrev pub CharacterOrigin : Type 0
CharacterOrigin = EntityOrigin

pub record WorldStateRecord : Type 0 where
  pub id : WorldId
  pub player_actor : ActorId
  pub active_scene : ObjectId
  pub clock : WorldTime
  pub rng_seed : List ℕ

pub record SceneRecord : Type 0 where
  pub id : ObjectId
  pub display_name : DisplayName
  pub framing : ShortText
  pub entry_place : ObjectId
  pub active : Bool
  pub origin : EntityOrigin

pub record PlaceRecord : Type 0 where
  pub id : ObjectId
  pub scene_id : ObjectId
  pub display_name : DisplayName
  pub description : ShortText
  pub tags : List ContentDefinitionId
  pub edges : List ObjectId
  pub origin : EntityOrigin

pub record CharacterRecord : Type 0 where
  pub id : ActorId
  pub display_name : DisplayName
  pub profile : CharacterProfile
  pub appearance : Option CharacterAppearance
  pub controller : CharacterController
  pub lifetime : CharacterLifetime
  pub location : ObjectId
  pub inventory_root : ObjectId
  pub agent_binding : Option AgentBinding
  pub base_attributes : BaseAttributes
  pub attribute_adjustments : List AttributeAdjustment
  pub resources : Map ContentDefinitionId ResourcePool
  pub life_state : LifeState
  pub action_state : ActionState
  pub posture : Posture
  pub origin : CharacterOrigin

abbrev pub StackState : Type 0
StackState = ℕ

pub record Durability : Type 0 where
  pub current : Fixed
  pub maximum : Fixed

pub record ContainerState : Type 0 where
  pub max_weight_grams : Fixed
  pub max_children : ℕ

pub record EquippedState : Type 0 where
  pub wearer_id : ActorId
  pub slot_id : ContentDefinitionId

pub data ParameterValue : Type 0 where
  bool : Bool → ParameterValue
  fixed : Fixed → ParameterValue
  counter : ℤ → ParameterValue
  enum : ContentDefinitionId → ParameterValue
  tag_set : List ContentDefinitionId → ParameterValue
  object_ref : ObjectId → ParameterValue

pub record ItemRecord : Type 0 where
  pub id : ObjectId
  pub definition_id : ContentDefinitionId
  pub stack : StackState
  pub durability : Option Durability
  pub container : Option ContainerState
  pub contained_by : Option ObjectId
  pub owned_by : Option ActorId
  pub equipped : Option EquippedState
  pub located_at : Option ObjectId
  pub custom_name : Option DisplayName
  pub bound_actor : Option ActorId
  pub parameters : Map ContentDefinitionId ParameterValue
  pub instance_adjustments : List AttributeAdjustment
  pub origin : EntityOrigin
