-- ===== src/Core/Domain/Spawning.antt =====
-- The specification of a new character: the inputs at the end of crates/loreloom-core/src/domain.rs.
use loreloom.Prelude.{ℕ, Bool, Option, List}
use loreloom.Prelude.Int.{ℤ}
use loreloom.Prelude.Map.{Map}
use loreloom.Core.Fixed.{Fixed}
use loreloom.Core.Domain.Identities.{ObjectId, ContentDefinitionId, ShortText, DisplayName}
use loreloom.Core.Domain.Origins.{
  CharacterProfile, CharacterAppearance, CharacterController, CharacterLifetime, AgentBinding,
  BaseAttributes, ResourcePool,
}
use loreloom.Core.Domain.Objects.{CharacterOrigin}
use loreloom.Core.Domain.Facts.{
  ConditionSource, FactSubject, FactValue, FactSource, KnowledgeStatus, GoalSource,
}

pub record PlacementInput : Type 0 where
  pub scene_id : ObjectId
  pub place_id : ObjectId

pub record ConditionGrantInput : Type 0 where
  pub condition_id : ContentDefinitionId
  pub source : ConditionSource
  pub stacks : ℕ
  pub intensity : Fixed

pub record ItemGrantInput : Type 0 where
  pub local_key : ShortText
  pub definition_id : ContentDefinitionId
  pub quantity : ℕ
  pub parent_local_key : Option ShortText

pub record SkillGrantInput : Type 0 where
  pub skill_id : ContentDefinitionId
  pub rank : ℕ
  pub proficiency : ℕ
  pub enabled : Bool

pub record KnownFactInput : Type 0 where
  pub subject : FactSubject
  pub predicate_id : ContentDefinitionId
  pub value : FactValue
  pub status : KnowledgeStatus
  pub confidence : Fixed
  pub source : FactSource

pub record GoalInput : Type 0 where
  pub description : ShortText
  pub priority : ℤ
  pub source : GoalSource

pub record SpawnConstraints : Type 0 where
  pub minimum_attributes : Map ContentDefinitionId Fixed
  pub maximum_attributes : Map ContentDefinitionId Fixed
  pub maximum_attribute_points : Fixed
  pub maximum_items : ℕ
  pub maximum_skills : ℕ
  pub allowed_definitions : List ContentDefinitionId

pub record CharacterSpawnSpec : Type 0 where
  pub origin : CharacterOrigin
  pub display_name : DisplayName
  pub profile : CharacterProfile
  pub appearance : Option CharacterAppearance
  pub controller : CharacterController
  pub lifetime : CharacterLifetime
  pub agent_binding : Option AgentBinding
  pub placement : PlacementInput
  pub attributes : BaseAttributes
  pub resources : Map ContentDefinitionId ResourcePool
  pub conditions : List ConditionGrantInput
  pub inventory : List ItemGrantInput
  pub skills : List SkillGrantInput
  pub knowledge : List KnownFactInput
  pub goals : List GoalInput
  pub trusted_constraints : SpawnConstraints
