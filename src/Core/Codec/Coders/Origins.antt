-- ===== src/Core/Codec/Coders/Origins.antt =====
-- The records and enums of Core/Domain/Origins as JSON values, and back.
use loreloom.Prelude.{◌≡◌, refl, ◌⊎◌, inl, inr, ℕ, Bool, List}
use loreloom.Prelude.Int.{ℤ}
use loreloom.Prelude.Map.{Map}
use loreloom.Core.Fixed.{Fixed, of_micros}
use loreloom.Core.Domain.Identities.{
  ObjectId, ActionId, EventId, GenerationId, TranscriptItemId, ModId, ContentDefinitionId,
  ShortText,
}
use loreloom.Core.Domain.Origins.{
  ContentOrigin, GenerationSource, GeneratedOrigin, EntityOrigin, AutonomyMode, AgentBinding,
  CharacterController, CharacterLifetime, CharacterProfile, AttributeOperation, AttributeAdjustment,
  LifeState, ActionState, Posture, ResourcePool, AppearanceValue, CharacterAppearance, ContentHash,
}
use loreloom.Core.Codec.Coders.{
  Coder, a_number, an_integer, a_boolean, a_text, nothing, pair, either, made, list_of,
}

abbrev pub fixed_coder : Coder Fixed
fixed_coder = made an_integer of_micros (λ f. f.micros) (λ f. refl)

abbrev content_origin_of :
    ModId × (ShortText × (ContentDefinitionId × (ContentDefinitionId × (ℕ × ContentHash))))
    → ContentOrigin
content_origin_of (x0, (x1, (x2, (x3, (x4, x5))))) = record {
  mod_id = x0;
  mod_version = x1;
  pack_id = x2;
  definition_id = x3;
  content_version = x4;
  content_hash = x5;
}

abbrev content_origin_fields :
    ContentOrigin
    → ModId × (ShortText × (ContentDefinitionId × (ContentDefinitionId × (ℕ × ContentHash))))
content_origin_fields r =
    (r.mod_id, (r.mod_version, (r.pack_id, (r.definition_id, (r.content_version, r.content_hash)))))

abbrev pub content_origin_coder : Coder ContentOrigin
content_origin_coder =
    made (pair a_text (pair a_text (pair a_text (pair a_text (pair a_number a_text)))))
      content_origin_of content_origin_fields (λ r. refl)

abbrev generation_source_of : TranscriptItemId ⊎ EventId → GenerationSource
generation_source_of (inl x0) = GenerationSource.player_input x0
generation_source_of (inr x0) = GenerationSource.world_event x0

abbrev generation_source_cases : GenerationSource → TranscriptItemId ⊎ EventId
generation_source_cases (GenerationSource.player_input x0) = inl x0
generation_source_cases (GenerationSource.world_event x0) = inr x0

pub generation_source_of-cases :
    (x : GenerationSource) → generation_source_of (generation_source_cases x) ≡ x
generation_source_of-cases (GenerationSource.player_input x0) = refl
generation_source_of-cases (GenerationSource.world_event x0) = refl

abbrev pub generation_source_coder : Coder GenerationSource
generation_source_coder =
    made (either a_number a_number) generation_source_of generation_source_cases
      generation_source_of-cases

abbrev generated_origin_of : GenerationId × (ShortText × GenerationSource) → GeneratedOrigin
generated_origin_of (x0, (x1, x2)) = record {
  generation_id = x0;
  generator_version = x1;
  source = x2;
}

abbrev generated_origin_fields : GeneratedOrigin → GenerationId × (ShortText × GenerationSource)
generated_origin_fields r = (r.generation_id, (r.generator_version, r.source))

abbrev pub generated_origin_coder : Coder GeneratedOrigin
generated_origin_coder =
    made (pair a_number (pair a_text generation_source_coder)) generated_origin_of
      generated_origin_fields (λ r. refl)

abbrev entity_origin_of :
    ContentOrigin ⊎ (GeneratedOrigin ⊎ (ContentOrigin ⊎ ContentDefinitionId)) → EntityOrigin
entity_origin_of (inl x0) = EntityOrigin.content x0
entity_origin_of (inr (inl x0)) = EntityOrigin.generated x0
entity_origin_of (inr (inr (inl x0))) = EntityOrigin.player_created x0
entity_origin_of (inr (inr (inr x0))) = EntityOrigin.system x0

abbrev entity_origin_cases :
    EntityOrigin → ContentOrigin ⊎ (GeneratedOrigin ⊎ (ContentOrigin ⊎ ContentDefinitionId))
entity_origin_cases (EntityOrigin.content x0) = inl x0
entity_origin_cases (EntityOrigin.generated x0) = inr (inl x0)
entity_origin_cases (EntityOrigin.player_created x0) = inr (inr (inl x0))
entity_origin_cases (EntityOrigin.system x0) = inr (inr (inr x0))

pub entity_origin_of-cases : (x : EntityOrigin) → entity_origin_of (entity_origin_cases x) ≡ x
entity_origin_of-cases (EntityOrigin.content x0) = refl
entity_origin_of-cases (EntityOrigin.generated x0) = refl
entity_origin_of-cases (EntityOrigin.player_created x0) = refl
entity_origin_of-cases (EntityOrigin.system x0) = refl

abbrev pub entity_origin_coder : Coder EntityOrigin
entity_origin_coder =
    made
      (either content_origin_coder
        (either generated_origin_coder (either content_origin_coder a_text)))
      entity_origin_of entity_origin_cases entity_origin_of-cases

abbrev autonomy_mode_of : (Unit {0}) ⊎ (Unit {0}) → AutonomyMode
autonomy_mode_of (inl u) = AutonomyMode.directed
autonomy_mode_of (inr u) = AutonomyMode.reactive

abbrev autonomy_mode_cases : AutonomyMode → (Unit {0}) ⊎ (Unit {0})
autonomy_mode_cases AutonomyMode.directed = inl tt
autonomy_mode_cases AutonomyMode.reactive = inr tt

pub autonomy_mode_of-cases : (x : AutonomyMode) → autonomy_mode_of (autonomy_mode_cases x) ≡ x
autonomy_mode_of-cases AutonomyMode.directed = refl
autonomy_mode_of-cases AutonomyMode.reactive = refl

abbrev pub autonomy_mode_coder : Coder AutonomyMode
autonomy_mode_coder =
    made (either nothing nothing) autonomy_mode_of autonomy_mode_cases autonomy_mode_of-cases

abbrev agent_binding_of : ContentDefinitionId × (Bool × AutonomyMode) → AgentBinding
agent_binding_of (x0, (x1, x2)) = record { profile_id = x0; enabled = x1; autonomy = x2 }

abbrev agent_binding_fields : AgentBinding → ContentDefinitionId × (Bool × AutonomyMode)
agent_binding_fields r = (r.profile_id, (r.enabled, r.autonomy))

abbrev pub agent_binding_coder : Coder AgentBinding
agent_binding_coder =
    made (pair a_text (pair a_boolean autonomy_mode_coder)) agent_binding_of agent_binding_fields
      (λ r. refl)

abbrev character_controller_of :
    (Unit {0}) ⊎ ((Unit {0}) ⊎ ((Unit {0}) ⊎ (Unit {0}))) → CharacterController
character_controller_of (inl u) = CharacterController.player
character_controller_of (inr (inl u)) = CharacterController.narrator_proxy
character_controller_of (inr (inr (inl u))) = CharacterController.rules
character_controller_of (inr (inr (inr u))) = CharacterController.agent

abbrev character_controller_cases :
    CharacterController → (Unit {0}) ⊎ ((Unit {0}) ⊎ ((Unit {0}) ⊎ (Unit {0})))
character_controller_cases CharacterController.player = inl tt
character_controller_cases CharacterController.narrator_proxy = inr (inl tt)
character_controller_cases CharacterController.rules = inr (inr (inl tt))
character_controller_cases CharacterController.agent = inr (inr (inr tt))

pub character_controller_of-cases :
    (x : CharacterController) → character_controller_of (character_controller_cases x) ≡ x
character_controller_of-cases CharacterController.player = refl
character_controller_of-cases CharacterController.narrator_proxy = refl
character_controller_of-cases CharacterController.rules = refl
character_controller_of-cases CharacterController.agent = refl

abbrev pub character_controller_coder : Coder CharacterController
character_controller_coder =
    made (either nothing (either nothing (either nothing nothing))) character_controller_of
      character_controller_cases character_controller_of-cases

abbrev character_lifetime_of : (Unit {0}) ⊎ ObjectId → CharacterLifetime
character_lifetime_of (inl u) = CharacterLifetime.persistent
character_lifetime_of (inr x0) = CharacterLifetime.scene x0

abbrev character_lifetime_cases : CharacterLifetime → (Unit {0}) ⊎ ObjectId
character_lifetime_cases CharacterLifetime.persistent = inl tt
character_lifetime_cases (CharacterLifetime.scene x0) = inr x0

pub character_lifetime_of-cases :
    (x : CharacterLifetime) → character_lifetime_of (character_lifetime_cases x) ≡ x
character_lifetime_of-cases CharacterLifetime.persistent = refl
character_lifetime_of-cases (CharacterLifetime.scene x0) = refl

abbrev pub character_lifetime_coder : Coder CharacterLifetime
character_lifetime_coder =
    made (either nothing a_number) character_lifetime_of character_lifetime_cases
      character_lifetime_of-cases

abbrev character_profile_of :
    ShortText × ((List ShortText) × (ShortText × (List ContentDefinitionId))) → CharacterProfile
character_profile_of (x0, (x1, (x2, x3))) = record {
  summary = x0;
  values = x1;
  speaking_style = x2;
  narrative_tags = x3;
}

abbrev character_profile_fields :
    CharacterProfile → ShortText × ((List ShortText) × (ShortText × (List ContentDefinitionId)))
character_profile_fields r = (r.summary, (r.values, (r.speaking_style, r.narrative_tags)))

abbrev pub character_profile_coder : Coder CharacterProfile
character_profile_coder =
    made (pair a_text (pair (list_of a_text) (pair a_text (list_of a_text)))) character_profile_of
      character_profile_fields (λ r. refl)

abbrev attribute_operation_of :
    (Unit {0}) ⊎ ((Unit {0}) ⊎ ((Unit {0}) ⊎ ((Unit {0}) ⊎ (Unit {0})))) → AttributeOperation
attribute_operation_of (inl u) = AttributeOperation.flat
attribute_operation_of (inr (inl u)) = AttributeOperation.multiply
attribute_operation_of (inr (inr (inl u))) = AttributeOperation.override
attribute_operation_of (inr (inr (inr (inl u)))) = AttributeOperation.clamp_minimum
attribute_operation_of (inr (inr (inr (inr u)))) = AttributeOperation.clamp_maximum

abbrev attribute_operation_cases :
    AttributeOperation → (Unit {0}) ⊎ ((Unit {0}) ⊎ ((Unit {0}) ⊎ ((Unit {0}) ⊎ (Unit {0}))))
attribute_operation_cases AttributeOperation.flat = inl tt
attribute_operation_cases AttributeOperation.multiply = inr (inl tt)
attribute_operation_cases AttributeOperation.override = inr (inr (inl tt))
attribute_operation_cases AttributeOperation.clamp_minimum = inr (inr (inr (inl tt)))
attribute_operation_cases AttributeOperation.clamp_maximum = inr (inr (inr (inr tt)))

pub attribute_operation_of-cases :
    (x : AttributeOperation) → attribute_operation_of (attribute_operation_cases x) ≡ x
attribute_operation_of-cases AttributeOperation.flat = refl
attribute_operation_of-cases AttributeOperation.multiply = refl
attribute_operation_of-cases AttributeOperation.override = refl
attribute_operation_of-cases AttributeOperation.clamp_minimum = refl
attribute_operation_of-cases AttributeOperation.clamp_maximum = refl

abbrev pub attribute_operation_coder : Coder AttributeOperation
attribute_operation_coder =
    made (either nothing (either nothing (either nothing (either nothing nothing))))
      attribute_operation_of attribute_operation_cases attribute_operation_of-cases

abbrev attribute_adjustment_of :
    ObjectId × (ContentDefinitionId × (AttributeOperation × (Fixed × ℤ))) → AttributeAdjustment
attribute_adjustment_of (x0, (x1, (x2, (x3, x4)))) = record {
  source_id = x0;
  attribute_id = x1;
  operation = x2;
  value = x3;
  priority = x4;
}

abbrev attribute_adjustment_fields :
    AttributeAdjustment → ObjectId × (ContentDefinitionId × (AttributeOperation × (Fixed × ℤ)))
attribute_adjustment_fields r =
    (r.source_id, (r.attribute_id, (r.operation, (r.value, r.priority))))

abbrev pub attribute_adjustment_coder : Coder AttributeAdjustment
attribute_adjustment_coder =
    made
      (pair a_number (pair a_text (pair attribute_operation_coder (pair fixed_coder an_integer))))
      attribute_adjustment_of attribute_adjustment_fields (λ r. refl)

abbrev life_state_of : (Unit {0}) ⊎ ((Unit {0}) ⊎ (Unit {0})) → LifeState
life_state_of (inl u) = LifeState.alive
life_state_of (inr (inl u)) = LifeState.downed
life_state_of (inr (inr u)) = LifeState.dead

abbrev life_state_cases : LifeState → (Unit {0}) ⊎ ((Unit {0}) ⊎ (Unit {0}))
life_state_cases LifeState.alive = inl tt
life_state_cases LifeState.downed = inr (inl tt)
life_state_cases LifeState.dead = inr (inr tt)

pub life_state_of-cases : (x : LifeState) → life_state_of (life_state_cases x) ≡ x
life_state_of-cases LifeState.alive = refl
life_state_of-cases LifeState.downed = refl
life_state_of-cases LifeState.dead = refl

abbrev pub life_state_coder : Coder LifeState
life_state_coder =
    made (either nothing (either nothing nothing)) life_state_of life_state_cases
      life_state_of-cases

abbrev action_state_of : (Unit {0}) ⊎ ((Unit {0}) ⊎ ActionId) → ActionState
action_state_of (inl u) = ActionState.idle
action_state_of (inr (inl u)) = ActionState.waiting
action_state_of (inr (inr x0)) = ActionState.acting x0

abbrev action_state_cases : ActionState → (Unit {0}) ⊎ ((Unit {0}) ⊎ ActionId)
action_state_cases ActionState.idle = inl tt
action_state_cases ActionState.waiting = inr (inl tt)
action_state_cases (ActionState.acting x0) = inr (inr x0)

pub action_state_of-cases : (x : ActionState) → action_state_of (action_state_cases x) ≡ x
action_state_of-cases ActionState.idle = refl
action_state_of-cases ActionState.waiting = refl
action_state_of-cases (ActionState.acting x0) = refl

abbrev pub action_state_coder : Coder ActionState
action_state_coder =
    made (either nothing (either nothing a_number)) action_state_of action_state_cases
      action_state_of-cases

abbrev posture_of : (Unit {0}) ⊎ ((Unit {0}) ⊎ (Unit {0})) → Posture
posture_of (inl u) = Posture.standing
posture_of (inr (inl u)) = Posture.sitting
posture_of (inr (inr u)) = Posture.prone

abbrev posture_cases : Posture → (Unit {0}) ⊎ ((Unit {0}) ⊎ (Unit {0}))
posture_cases Posture.standing = inl tt
posture_cases Posture.sitting = inr (inl tt)
posture_cases Posture.prone = inr (inr tt)

pub posture_of-cases : (x : Posture) → posture_of (posture_cases x) ≡ x
posture_of-cases Posture.standing = refl
posture_of-cases Posture.sitting = refl
posture_of-cases Posture.prone = refl

abbrev pub posture_coder : Coder Posture
posture_coder =
    made (either nothing (either nothing nothing)) posture_of posture_cases posture_of-cases

abbrev resource_pool_of : ContentDefinitionId × (Fixed × Fixed) → ResourcePool
resource_pool_of (x0, (x1, x2)) = record { resource_id = x0; current = x1; base_maximum = x2 }

abbrev resource_pool_fields : ResourcePool → ContentDefinitionId × (Fixed × Fixed)
resource_pool_fields r = (r.resource_id, (r.current, r.base_maximum))

abbrev pub resource_pool_coder : Coder ResourcePool
resource_pool_coder =
    made (pair a_text (pair fixed_coder fixed_coder)) resource_pool_of resource_pool_fields
      (λ r. refl)

abbrev appearance_value_of : ((List ℕ)) ⊎ (ContentDefinitionId ⊎ Bool) → AppearanceValue
appearance_value_of (inl x0) = AppearanceValue.color x0
appearance_value_of (inr (inl x0)) = AppearanceValue.variant x0
appearance_value_of (inr (inr x0)) = AppearanceValue.boolean x0

abbrev appearance_value_cases : AppearanceValue → ((List ℕ)) ⊎ (ContentDefinitionId ⊎ Bool)
appearance_value_cases (AppearanceValue.color x0) = inl x0
appearance_value_cases (AppearanceValue.variant x0) = inr (inl x0)
appearance_value_cases (AppearanceValue.boolean x0) = inr (inr x0)

pub appearance_value_of-cases :
    (x : AppearanceValue) → appearance_value_of (appearance_value_cases x) ≡ x
appearance_value_of-cases (AppearanceValue.color x0) = refl
appearance_value_of-cases (AppearanceValue.variant x0) = refl
appearance_value_of-cases (AppearanceValue.boolean x0) = refl

abbrev pub appearance_value_coder : Coder AppearanceValue
appearance_value_coder =
    made (either (list_of a_number) (either a_text a_boolean)) appearance_value_of
      appearance_value_cases appearance_value_of-cases

abbrev character_appearance_of :
    ContentDefinitionId × (Map ContentDefinitionId AppearanceValue) → CharacterAppearance
character_appearance_of (x0, x1) = record { model_id = x0; parameters = x1 }

abbrev character_appearance_fields :
    CharacterAppearance → ContentDefinitionId × (Map ContentDefinitionId AppearanceValue)
character_appearance_fields r = (r.model_id, r.parameters)

abbrev pub character_appearance_coder : Coder CharacterAppearance
character_appearance_coder =
    made (pair a_text (list_of (pair a_text appearance_value_coder))) character_appearance_of
      character_appearance_fields (λ r. refl)
