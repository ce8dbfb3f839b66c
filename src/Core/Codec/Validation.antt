-- ===== src/Core/Codec/Validation.antt =====
-- `DomainRecord::validate` of crates/loreloom-core/src/codec.rs.
use loreloom.Prelude.{
  ℕ, nat_eq, Bool, true, false, ◌&&◌, ◌||◌, not, Option, none, some, List, [], ◌∷◌, ltb, leb, ◌==◌,
  length, Result, ok, err, ◌>>◌, ensure, Text, text_beq, bytes, String,
}
use loreloom.Prelude.Int.{ltb_ℤ, eqb_ℤ}
use loreloom.Prelude.Map.{Map, contains}
use loreloom.Core.Fixed.{Fixed, zero_fixed, scale, of_micros, ltb_fixed}
use loreloom.Core.Record.{RecordError}
use loreloom.Core.Names.{definition_kind}
use loreloom.Core.Domain.{
  DomainRecord, world_state, scene, place, character, item, condition, skill_grant, relationship,
  known_fact, goal, event_instance, parameter_set, rule_state, transcript_item,
}
use loreloom.Core.Domain.Identities.{ContentDefinitionId, EventId}
use loreloom.Core.Domain.Origins.{
  AttributeOperation, flat, multiply, override, clamp_minimum, clamp_maximum, AttributeAdjustment,
  CharacterController, agent, player, narrator_proxy, rules, ResourcePool, AppearanceValue, color,
  variant, boolean, CharacterAppearance,
}
use loreloom.Core.Domain.Objects.{CharacterRecord, ItemRecord, Durability, ContainerState}
use loreloom.Core.Domain.Facts.{
  ConditionRecord, KnownFactRecord, TranscriptItemRecord, TranscriptState, committed, interrupted,
}

pub data DomainError : Type 0 where
  record_error : RecordError → DomainError
  codec : Text → Text → DomainError
  record_identity_mismatch : DomainError
  invalid_value : String → DomainError

abbrev pub is_some {ℓ} : {A : Type ℓ} → Option A → Bool
is_some none = false
is_some (some a) = true

-- `o.is_some_and(p)`
abbrev pub some_and {ℓ} : {A : Type ℓ} → (A → Bool) → Option A → Bool
some_and p none = false
some_and p (some a) = p a

abbrev one_fixed : Fixed
one_fixed = of_micros scale

-- `if problem { return invalid(field) }`
abbrev refuse : Bool → String → Result DomainError (Unit {0})
refuse problem field = ensure (not problem) (invalid_value field)

abbrev pub is_agent : CharacterController → Bool
is_agent agent = true
is_agent player = false
is_agent narrator_proxy = false
is_agent rules = false

abbrev is_kind_of : ContentDefinitionId → Text → Bool
is_kind_of id kind = elim (definition_kind id) [ ok k ↦ text_beq k kind | err _ ↦ false ]

unfoldable check_resources : Map ContentDefinitionId ResourcePool → Result DomainError (Unit {0})
check_resources [] = ok tt
check_resources ((resource_id, pool) ∷ rest) = do
  refuse (not (text_beq resource_id pool.resource_id)) "character.resources.key"
  refuse (ltb_fixed pool.current zero_fixed || not (ltb_fixed zero_fixed pool.base_maximum))
      "character.resources.range"
  check_resources rest

abbrev is_other_variant : AppearanceValue → Bool
is_other_variant (variant id) = not (is_kind_of id (bytes "appearance_variant"))
is_other_variant (color rgb) = false
is_other_variant (boolean value) = false

unfoldable check_parameters :
    Map ContentDefinitionId AppearanceValue → Result DomainError (Unit {0})
check_parameters [] = ok tt
check_parameters ((parameter_id, parameter) ∷ rest) = do
  refuse
      (not (is_kind_of parameter_id (bytes "appearance_parameter")) || is_other_variant parameter)
      "character.appearance.parameters"
  check_parameters rest

unfoldable pub validate_appearance : CharacterAppearance → Result DomainError (Unit {0})
unfolding check_parameters
validate_appearance value = do
  refuse
      (ltb 64 (length value.parameters)
        || not (is_kind_of value.model_id (bytes "appearance_model")))
      "character.appearance"
  check_parameters value.parameters

abbrev operation_code : AttributeOperation → ℕ
operation_code flat = 0
operation_code multiply = 1
operation_code override = 2
operation_code clamp_minimum = 3
operation_code clamp_maximum = 4

-- `left < right` on strings
abbrev pub text_ltb : Text → Text → Bool
text_ltb [] [] = false
text_ltb [] (y ∷ ys) = true
text_ltb (x ∷ xs) [] = false
text_ltb (x ∷ xs) (y ∷ ys) = ltb x y || (x == y && text_ltb xs ys)

-- The keys of two adjustments, compared as tuples.
abbrev adjustment_ltb : AttributeAdjustment → AttributeAdjustment → Bool
adjustment_ltb a b =
    let i = operation_code a.operation in
    let j = operation_code b.operation in
    ltb i j
    || (i == j
        && (ltb_ℤ a.priority b.priority
            || (eqb_ℤ a.priority b.priority
                && (ltb a.source_id b.source_id
                    || (a.source_id == b.source_id && text_ltb a.attribute_id b.attribute_id)))))

unfoldable check_order :
    Option AttributeAdjustment → List AttributeAdjustment → Result DomainError (Unit {0})
check_order previous [] = ok tt
check_order previous (adjustment ∷ rest) = do
  refuse (some_and (adjustment_ltb adjustment) previous) "character.attribute_adjustments.order"
  check_order (some adjustment) rest

unfoldable pub validate_character : CharacterRecord → Result DomainError (Unit {0})
unfolding check_resources check_order
validate_character value = do
  refuse (not (is_agent value.controller) && is_some value.agent_binding) "character.agent_binding"
  check_resources value.resources
  elim value.appearance [ none ↦ ok tt | some appearance ↦ validate_appearance appearance ]
  check_order none value.attribute_adjustments

abbrev is_bad_durability : Durability → Bool
is_bad_durability d =
    not (ltb_fixed zero_fixed d.maximum)
    || ltb_fixed d.current zero_fixed
    || ltb_fixed d.maximum d.current

abbrev is_bad_container : ContainerState → Bool
is_bad_container c = ltb_fixed c.max_weight_grams zero_fixed || c.max_children == 0

abbrev same : Bool → Bool → Bool
same true b = b
same false b = not b

unfoldable pub validate_item : ItemRecord → Result DomainError (Unit {0})
validate_item value = do
  refuse (same (is_some value.contained_by) (is_some value.located_at)) "item.physical_location"
  refuse (some_and is_bad_durability value.durability) "item.durability"
  refuse (some_and is_bad_container value.container) "item.container"
  refuse ((is_some value.container || is_some value.equipped) && not (value.stack == 1))
      "item.stackability"

unfoldable pub validate_condition : ConditionRecord → Result DomainError (Unit {0})
validate_condition value =
    refuse
      (some_and (λ expires. leb expires value.applied_at) value.expires_at
        || some_and (λ periodic. leb periodic value.applied_at) value.next_periodic_at)
      "condition.time"

unfoldable pub validate_known_fact : KnownFactRecord → Result DomainError (Unit {0})
validate_known_fact value =
    refuse
      (ltb_fixed value.confidence zero_fixed
        || ltb_fixed one_fixed value.confidence
        || ltb value.last_confirmed_at value.first_known_at)
      "known_fact.confidence_or_time"

abbrev pub is_committed : TranscriptState → Bool
is_committed committed = true
is_committed interrupted = false

-- The set of the events is as long as the list of them.
abbrev all_unique : List EventId → Bool
all_unique [] = true
all_unique (e ∷ es) = not (contains e es) && all_unique es

unfoldable pub validate_transcript : TranscriptItemRecord → Result DomainError (Unit {0})
validate_transcript value = do
  refuse (is_committed value.state && not (is_some value.revision)) "transcript_item.revision"
  refuse (not (all_unique value.supporting_events)) "transcript_item.supporting_events"

unfoldable pub validate_domain : DomainRecord → Result DomainError (Unit {0})
validate_domain (world_state _) = ok tt
validate_domain (scene _) = ok tt
validate_domain (place _) = ok tt
validate_domain (character value) = validate_character value
validate_domain (item value) = validate_item value
validate_domain (condition value) = validate_condition value
validate_domain (skill_grant value) = refuse (value.rank == 0) "skill_grant.rank"
validate_domain (relationship value) =
    refuse (value.source_id == value.target_id) "relationship.self_reference"
validate_domain (known_fact value) = validate_known_fact value
validate_domain (goal _) = ok tt
validate_domain (event_instance _) = ok tt
validate_domain (parameter_set _) = ok tt
validate_domain (rule_state _) = ok tt
validate_domain (transcript_item value) = validate_transcript value
