-- ===== src/Core/Codec/Coders/Objects.antt =====
-- The records and enums of Core/Domain/Objects as JSON values, and back.
use loreloom.Prelude.{◌≡◌, refl, ◌⊎◌, inl, inr, ℕ, Bool, Option, List}
use loreloom.Prelude.Int.{ℤ}
use loreloom.Prelude.Map.{Map}
use loreloom.Core.Fixed.{Fixed}
use loreloom.Core.Revision.{WorldTime}
use loreloom.Core.Domain.Identities.{
  ObjectId, ActorId, WorldId, ContentDefinitionId, DisplayName, ShortText,
}
use loreloom.Core.Domain.Origins.{
  EntityOrigin, AgentBinding, CharacterController, CharacterLifetime, CharacterProfile,
  AttributeAdjustment, LifeState, ActionState, Posture, ResourcePool, CharacterAppearance,
  BaseAttributes,
}
use loreloom.Core.Codec.Coders.Origins.{
  entity_origin_coder, agent_binding_coder, character_controller_coder, character_lifetime_coder,
  character_profile_coder, attribute_adjustment_coder, life_state_coder, action_state_coder,
  posture_coder, resource_pool_coder, character_appearance_coder, fixed_coder,
}
use loreloom.Core.Domain.Objects.{
  WorldStateRecord, SceneRecord, PlaceRecord, CharacterRecord, Durability, ContainerState,
  EquippedState, ParameterValue, ItemRecord, CharacterOrigin, StackState,
}
use loreloom.Core.Codec.Coders.{
  Coder, a_number, an_integer, a_boolean, a_text, pair, either, made, list_of, option_of,
}

abbrev world_state_record_of :
    WorldId × (ActorId × (ObjectId × (WorldTime × (List ℕ)))) → WorldStateRecord
world_state_record_of (x0, (x1, (x2, (x3, x4)))) = record {
  id = x0;
  player_actor = x1;
  active_scene = x2;
  clock = x3;
  rng_seed = x4;
}

abbrev world_state_record_fields :
    WorldStateRecord → WorldId × (ActorId × (ObjectId × (WorldTime × (List ℕ))))
world_state_record_fields r = (r.id, (r.player_actor, (r.active_scene, (r.clock, r.rng_seed))))

abbrev pub world_state_record_coder : Coder WorldStateRecord
world_state_record_coder =
    made (pair a_number (pair a_number (pair a_number (pair a_number (list_of a_number)))))
      world_state_record_of world_state_record_fields (λ r. refl)

abbrev scene_record_of :
    ObjectId × (DisplayName × (ShortText × (ObjectId × (Bool × EntityOrigin)))) → SceneRecord
scene_record_of (x0, (x1, (x2, (x3, (x4, x5))))) = record {
  id = x0;
  display_name = x1;
  framing = x2;
  entry_place = x3;
  active = x4;
  origin = x5;
}

abbrev scene_record_fields :
    SceneRecord → ObjectId × (DisplayName × (ShortText × (ObjectId × (Bool × EntityOrigin))))
scene_record_fields r = (r.id, (r.display_name, (r.framing, (r.entry_place, (r.active, r.origin)))))

abbrev pub scene_record_coder : Coder SceneRecord
scene_record_coder =
    made
      (pair a_number
        (pair a_text (pair a_text (pair a_number (pair a_boolean entity_origin_coder)))))
      scene_record_of scene_record_fields (λ r. refl)

abbrev place_record_of :
    ObjectId
      × (ObjectId
          × (DisplayName
              × (ShortText × ((List ContentDefinitionId) × ((List ObjectId) × EntityOrigin)))))
    → PlaceRecord
place_record_of (x0, (x1, (x2, (x3, (x4, (x5, x6)))))) = record {
  id = x0;
  scene_id = x1;
  display_name = x2;
  description = x3;
  tags = x4;
  edges = x5;
  origin = x6;
}

abbrev place_record_fields :
    PlaceRecord
    → ObjectId
      × (ObjectId
          × (DisplayName
              × (ShortText × ((List ContentDefinitionId) × ((List ObjectId) × EntityOrigin)))))
place_record_fields r =
    (r.id, (r.scene_id, (r.display_name, (r.description, (r.tags, (r.edges, r.origin))))))

abbrev pub place_record_coder : Coder PlaceRecord
place_record_coder =
    made
      (pair a_number (
        pair a_number (
          pair a_text
            (pair a_text (pair (list_of a_text) (pair (list_of a_number) entity_origin_coder))))))
      place_record_of place_record_fields (λ r. refl)

abbrev character_record_of :
    ActorId
      × (DisplayName
          × (CharacterProfile
              × ((Option CharacterAppearance)
                  × (CharacterController
                      × (CharacterLifetime
                          × (ObjectId
                              × (ObjectId
                                  × ((Option AgentBinding)
                                      × (BaseAttributes
                                          × ((List AttributeAdjustment)
                                              × ((Map ContentDefinitionId ResourcePool)
                                                  × (LifeState
                                                      × (ActionState
                                                          × (Posture × CharacterOrigin))))))))))))))
    → CharacterRecord
character_record_of
      (
        x0,
        (
          x1,
          (x2, (x3, (x4, (x5, (x6, (x7, (x8, (x9, (x10, (x11, (x12, (x13, (x14, x15))))))))))))),
        ),
      ) =
    record {
      id = x0;
      display_name = x1;
      profile = x2;
      appearance = x3;
      controller = x4;
      lifetime = x5;
      location = x6;
      inventory_root = x7;
      agent_binding = x8;
      base_attributes = x9;
      attribute_adjustments = x10;
      resources = x11;
      life_state = x12;
      action_state = x13;
      posture = x14;
      origin = x15;
    }

abbrev character_record_fields :
    CharacterRecord
    → ActorId
      × (DisplayName
          × (CharacterProfile
              × ((Option CharacterAppearance)
                  × (CharacterController
                      × (CharacterLifetime
                          × (ObjectId
                              × (ObjectId
                                  × ((Option AgentBinding)
                                      × (BaseAttributes
                                          × ((List AttributeAdjustment)
                                              × ((Map ContentDefinitionId ResourcePool)
                                                  × (LifeState
                                                      × (ActionState
                                                          × (Posture × CharacterOrigin))))))))))))))
character_record_fields r = (
  r.id,
  (
    r.display_name,
    (
      r.profile,
      (
        r.appearance,
        (
          r.controller,
          (
            r.lifetime,
            (
              r.location,
              (
                r.inventory_root,
                (
                  r.agent_binding,
                  (
                    r.base_attributes,
                    (
                      r.attribute_adjustments,
                      (r.resources, (r.life_state, (r.action_state, (r.posture, r.origin)))),
                    ),
                  ),
                ),
              ),
            ),
          ),
        ),
      ),
    ),
  ),
)

abbrev pub character_record_coder : Coder CharacterRecord
character_record_coder =
    made
      (pair a_number (
        pair a_text (
          pair character_profile_coder (
            pair (option_of character_appearance_coder) (
              pair character_controller_coder (
                pair character_lifetime_coder (
                  pair a_number (
                    pair a_number (
                      pair (option_of agent_binding_coder) (
                        pair (list_of (pair a_text fixed_coder)) (
                          pair (list_of attribute_adjustment_coder) (
                            pair (list_of (pair a_text resource_pool_coder)) (
                              pair life_state_coder (
                                pair action_state_coder
                                  (pair posture_coder entity_origin_coder)))))))))))))))
      character_record_of character_record_fields (λ r. refl)

abbrev durability_of : Fixed × Fixed → Durability
durability_of (x0, x1) = record { current = x0; maximum = x1 }

abbrev durability_fields : Durability → Fixed × Fixed
durability_fields r = (r.current, r.maximum)

abbrev pub durability_coder : Coder Durability
durability_coder = made (pair fixed_coder fixed_coder) durability_of durability_fields (λ r. refl)

abbrev container_state_of : Fixed × ℕ → ContainerState
container_state_of (x0, x1) = record { max_weight_grams = x0; max_children = x1 }

abbrev container_state_fields : ContainerState → Fixed × ℕ
container_state_fields r = (r.max_weight_grams, r.max_children)

abbrev pub container_state_coder : Coder ContainerState
container_state_coder =
    made (pair fixed_coder a_number) container_state_of container_state_fields (λ r. refl)

abbrev equipped_state_of : ActorId × ContentDefinitionId → EquippedState
equipped_state_of (x0, x1) = record { wearer_id = x0; slot_id = x1 }

abbrev equipped_state_fields : EquippedState → ActorId × ContentDefinitionId
equipped_state_fields r = (r.wearer_id, r.slot_id)

abbrev pub equipped_state_coder : Coder EquippedState
equipped_state_coder =
    made (pair a_number a_text) equipped_state_of equipped_state_fields (λ r. refl)

abbrev parameter_value_of :
    Bool ⊎ (Fixed ⊎ (ℤ ⊎ (ContentDefinitionId ⊎ (((List ContentDefinitionId)) ⊎ ObjectId))))
    → ParameterValue
parameter_value_of (inl x0) = ParameterValue.bool x0
parameter_value_of (inr (inl x0)) = ParameterValue.fixed x0
parameter_value_of (inr (inr (inl x0))) = ParameterValue.counter x0
parameter_value_of (inr (inr (inr (inl x0)))) = ParameterValue.enum x0
parameter_value_of (inr (inr (inr (inr (inl x0))))) = ParameterValue.tag_set x0
parameter_value_of (inr (inr (inr (inr (inr x0))))) = ParameterValue.object_ref x0

abbrev parameter_value_cases :
    ParameterValue
    → Bool ⊎ (Fixed ⊎ (ℤ ⊎ (ContentDefinitionId ⊎ (((List ContentDefinitionId)) ⊎ ObjectId))))
parameter_value_cases (ParameterValue.bool x0) = inl x0
parameter_value_cases (ParameterValue.fixed x0) = inr (inl x0)
parameter_value_cases (ParameterValue.counter x0) = inr (inr (inl x0))
parameter_value_cases (ParameterValue.enum x0) = inr (inr (inr (inl x0)))
parameter_value_cases (ParameterValue.tag_set x0) = inr (inr (inr (inr (inl x0))))
parameter_value_cases (ParameterValue.object_ref x0) = inr (inr (inr (inr (inr x0))))

pub parameter_value_of-cases :
    (x : ParameterValue) → parameter_value_of (parameter_value_cases x) ≡ x
parameter_value_of-cases (ParameterValue.bool x0) = refl
parameter_value_of-cases (ParameterValue.fixed x0) = refl
parameter_value_of-cases (ParameterValue.counter x0) = refl
parameter_value_of-cases (ParameterValue.enum x0) = refl
parameter_value_of-cases (ParameterValue.tag_set x0) = refl
parameter_value_of-cases (ParameterValue.object_ref x0) = refl

abbrev pub parameter_value_coder : Coder ParameterValue
parameter_value_coder =
    made
      (either a_boolean
        (either fixed_coder (either an_integer (either a_text (either (list_of a_text) a_number)))))
      parameter_value_of parameter_value_cases parameter_value_of-cases

abbrev item_record_of :
    ObjectId
      × (ContentDefinitionId
          × (StackState
              × ((Option Durability)
                  × ((Option ContainerState)
                      × ((Option ObjectId)
                          × ((Option ActorId)
                              × ((Option EquippedState)
                                  × ((Option ObjectId)
                                      × ((Option DisplayName)
                                          × ((Option ActorId)
                                              × ((Map ContentDefinitionId ParameterValue)
                                                  × ((List AttributeAdjustment)
                                                      × EntityOrigin))))))))))))
    → ItemRecord
item_record_of
      (x0, (x1, (x2, (x3, (x4, (x5, (x6, (x7, (x8, (x9, (x10, (x11, (x12, x13))))))))))))) =
    record {
      id = x0;
      definition_id = x1;
      stack = x2;
      durability = x3;
      container = x4;
      contained_by = x5;
      owned_by = x6;
      equipped = x7;
      located_at = x8;
      custom_name = x9;
      bound_actor = x10;
      parameters = x11;
      instance_adjustments = x12;
      origin = x13;
    }

abbrev item_record_fields :
    ItemRecord
    → ObjectId
      × (ContentDefinitionId
          × (StackState
              × ((Option Durability)
                  × ((Option ContainerState)
                      × ((Option ObjectId)
                          × ((Option ActorId)
                              × ((Option EquippedState)
                                  × ((Option ObjectId)
                                      × ((Option DisplayName)
                                          × ((Option ActorId)
                                              × ((Map ContentDefinitionId ParameterValue)
                                                  × ((List AttributeAdjustment)
                                                      × EntityOrigin))))))))))))
item_record_fields r = (
  r.id,
  (
    r.definition_id,
    (
      r.stack,
      (
        r.durability,
        (
          r.container,
          (
            r.contained_by,
            (
              r.owned_by,
              (
                r.equipped,
                (
                  r.located_at,
                  (
                    r.custom_name,
                    (r.bound_actor, (r.parameters, (r.instance_adjustments, r.origin))),
                  ),
                ),
              ),
            ),
          ),
        ),
      ),
    ),
  ),
)

abbrev pub item_record_coder : Coder ItemRecord
item_record_coder =
    made
      (pair a_number (
        pair a_text (
          pair a_number (
            pair (option_of durability_coder) (
              pair (option_of container_state_coder) (
                pair (option_of a_number) (
                  pair (option_of a_number) (
                    pair (option_of equipped_state_coder) (
                      pair (option_of a_number) (
                        pair (option_of a_text) (
                          pair (option_of a_number) (
                            pair (list_of (pair a_text parameter_value_coder)) (
                              pair (list_of attribute_adjustment_coder)
                                entity_origin_coder)))))))))))))
      item_record_of item_record_fields (λ r. refl)
