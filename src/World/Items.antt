-- ===== src/World/Items.antt =====
-- The commands on items: `transfer_item`, `equip_item` and `split_stack` of
-- crates/loreloom-world/src/game_world.rs. Each is a part that only reads, which ends in an error or in
-- what is to be written, and the writes.
pub mod Written
pub mod Nesting
pub mod Capacity
pub mod Quantities
pub mod Slots
use loreloom.Prelude.{
  ℕ, suc, ◌-◌, Bool, true, false, ◌&&◌, ◌||◌, not, Option, none, some, List, [], ◌∷◌, ◌==◌, ltb,
  leb, if◌then◌else◌, Result, ok, err, ◌>>=◌, ◌>>◌, ok_or, map_err, ensure, text_beq, text_eq,
  bytes, Text,
}
use loreloom.Prelude.Map.{contains}
use loreloom.Core.Revision.{Revision}
use loreloom.Core.Fixed.{Fixed, add, ltb_fixed}
use loreloom.Core.Domain.{DomainRecord, item}
use loreloom.Core.Domain.Identities.{ObjectId, ActorId, ActionId, ContentDefinitionId}
use loreloom.Core.Domain.Objects.{ItemRecord, EquippedState, ContainerState}
use loreloom.Core.Domain.Protocol.{item_transferred, item_equipped, stack_split}
use loreloom.Core.Codec.Validation.{is_some, some_and}
use loreloom.World.Types.{
  GameWorld, WorldError, wrong_object_kind, invariant, fixed_error, domain_rule, item_of, items,
  as_item, edit, spawn_record, IdGenerator, Done, generate, conclude, refused,
}
use loreloom.World.Containers.{
  DefinitionRegistry, item_definition, ensure_no_container_cycle, is_id, item_tree_weight,
  container_weight,
}

abbrev require_item : ObjectId → GameWorld → Result WorldError ItemRecord
require_item id w = ok_or (item_of id w) (wrong_object_kind id)

abbrev edit_item :
    ObjectId → (ItemRecord → ItemRecord) → GameWorld → Result WorldError (ItemRecord × GameWorld)
edit_item = edit as_item item

-- `first.or(second)`
abbrev or_else {ℓ} : {A : Type ℓ} → Option A → Option A → Option A
or_else (some a) second = some a
or_else none second = second

abbrev pub count_children : ObjectId → List ItemRecord → ℕ
count_children id [] = 0
count_children id (i ∷ rest) =
    let more = count_children id rest in if is_id i.contained_by id then suc more else more

-- The checks on the new container: its owner, its place among the containers and its capacity.
unfoldable pub check_container :
    ActorId
    → ItemRecord
    → ObjectId
    → ObjectId
    → DefinitionRegistry
    → GameWorld
    → Result WorldError (Unit {0})
check_container actor_id moved item_id container_id registry w = do
  container ← require_item container_id w
  capacity ← ok_or container.container (wrong_object_kind container_id)
  ensure (not (is_some container.owned_by && not (is_id container.owned_by actor_id)))
      (domain_rule "container_not_owned_by_actor")
  ensure_no_container_cycle w item_id (some container_id)
  ensure
      (is_id moved.contained_by container_id
        || ltb (count_children container_id (items w)) capacity.max_children)
      (domain_rule "container_child_capacity")
  existing ← container_weight w registry container_id
  moving ← item_tree_weight w registry item_id
  total ←
      if is_id moved.contained_by container_id
      then ok existing
      else map_err fixed_error (add existing moving)
  ensure (is_id moved.contained_by container_id || not (ltb_fixed capacity.max_weight_grams total))
      (domain_rule "container_weight_capacity")

-- The item is checked, and the place that it leaves is found.
unfoldable pub check_transfer :
    ActorId → ObjectId → ObjectId → DefinitionRegistry → GameWorld → Result WorldError ObjectId
unfolding check_container
check_transfer actor_id item_id container_id registry w = do
  moved ← require_item item_id w
  ensure (is_id moved.owned_by actor_id) (domain_rule "item_not_owned_by_actor")
  check_container actor_id moved item_id container_id registry w
  ok_or (or_else moved.contained_by moved.located_at) (invariant "item.physical_location")

abbrev pub into : ObjectId → ItemRecord → ItemRecord
into container_id i = record i { contained_by = some container_id; located_at = none }

unfoldable pub write_transfer :
    ActorId
    → ObjectId
    → ObjectId
    → DefinitionRegistry
    → GameWorld
    → Result WorldError (ObjectId × ItemRecord × GameWorld)
unfolding check_transfer
write_transfer actor_id item_id container_id registry w = do
  from ← check_transfer actor_id item_id container_id registry w
  (moved, w') ← edit_item item_id (into container_id) w
  ok (from, moved, w')

-- `any` of the other items is worn by the actor in the slot.
unfoldable pub occupied : ActorId → ObjectId → ContentDefinitionId → List ItemRecord → Bool
occupied actor_id item_id slot_id [] = false
occupied actor_id item_id slot_id (i ∷ rest) =
    (not (i.id == item_id)
      && some_and (λ (e : EquippedState). e.wearer_id == actor_id && text_beq e.slot_id slot_id)
          i.equipped)
    || occupied actor_id item_id slot_id rest

unfoldable pub check_equip :
    ActorId
    → ObjectId
    → ContentDefinitionId
    → DefinitionRegistry
    → GameWorld
    → Result WorldError (Unit {0})
check_equip actor_id item_id slot_id registry w = do
  worn ← require_item item_id w
  ensure (is_id worn.owned_by actor_id && worn.stack == 1) (domain_rule "item_cannot_be_equipped")
  definition ← item_definition registry worn.definition_id
  ensure (contains slot_id definition.equipment_slots) (domain_rule "equipment_slot_not_allowed")
  ensure (not (occupied actor_id item_id slot_id (items w))) (domain_rule "equipment_slot_occupied")

abbrev pub worn_by : ActorId → ContentDefinitionId → ItemRecord → ItemRecord
worn_by actor_id slot_id i = record i {
  equipped = some (record { wearer_id = actor_id; slot_id = slot_id });
}

unfoldable pub write_equip :
    ActorId
    → ObjectId
    → ContentDefinitionId
    → DefinitionRegistry
    → GameWorld
    → Result WorldError (ItemRecord × GameWorld)
unfolding check_equip
write_equip actor_id item_id slot_id registry w =
    check_equip actor_id item_id slot_id registry w
    >> edit_item item_id (worn_by actor_id slot_id) w

unfoldable pub check_split : ActorId → ObjectId → ℕ → GameWorld → Result WorldError ItemRecord
check_split actor_id item_id quantity w = do
  source ← require_item item_id w
  ensure
      (not (
        not (is_id source.owned_by actor_id)
        || quantity == 0
        || leb source.stack quantity
        || is_some source.container
        || is_some source.equipped))
      (domain_rule "stack_cannot_be_split")
  ok source

-- `NonZeroU32::new(n).ok_or(..)`
abbrev stack_of : ℕ → Result WorldError ℕ
stack_of n = if n == 0 then err (domain_rule "stack_quantity_zero") else ok n

-- What is left of the source is written; the new stack is returned.
unfoldable pub write_split :
    ItemRecord
    → ObjectId
    → ObjectId
    → ℕ
    → GameWorld
    → Result WorldError (ItemRecord × ItemRecord × GameWorld)
write_split source item_id new_id quantity w = do
  taken ← stack_of quantity
  rest ← stack_of (source.stack - quantity)
  (left, w') ← edit_item item_id (λ i. record i { stack = rest }) w
  ok (record source { id = new_id; stack = taken }, left, w')

module _ (g : IdGenerator) where
  unfoldable pub transfer_item :
      ActorId
      → ObjectId
      → ObjectId
      → ActionId
      → Revision
      → DefinitionRegistry
      → GameWorld
      → g.Ids
      → Done g
  unfolding write_transfer
  transfer_item actor_id item_id container_id action_id revision registry w s =
      elim (write_transfer actor_id item_id container_id registry w) [
        | err e ↦ refused g w s e
        | ok (from, moved, w') ↦
            conclude g action_id actor_id revision (item moved ∷ [])
              (item_transferred item_id from container_id) (bytes "item transferred") w' s
      ]

  unfoldable pub equip_item :
      ActorId
      → ObjectId
      → ContentDefinitionId
      → ActionId
      → Revision
      → DefinitionRegistry
      → GameWorld
      → g.Ids
      → Done g
  unfolding write_equip
  equip_item actor_id item_id slot_id action_id revision registry w s =
      elim (write_equip actor_id item_id slot_id registry w) [
        | err e ↦ refused g w s e
        | ok (worn, w') ↦
            conclude g action_id actor_id revision (item worn ∷ [])
              (item_equipped item_id actor_id slot_id) (bytes "item equipped") w' s
      ]

  -- The new stack is spawned after the source is written.
  unfoldable pub place_split :
      ActorId
      → ObjectId
      → ℕ
      → ActionId
      → Revision
      → ItemRecord × ItemRecord × GameWorld
      → g.Ids
      → Done g
  place_split actor_id item_id quantity action_id revision (split, left, w) s =
      elim (spawn_record (item split) w) [
        | err e ↦ refused g w s e
        | ok w' ↦
            conclude g action_id actor_id revision (item left ∷ item split ∷ [])
              (stack_split item_id split.id quantity) (bytes "stack split") w' s
      ]

  unfoldable pub split_stack :
      ActorId → ObjectId → ℕ → ActionId → Revision → GameWorld → g.Ids → Done g
  split_stack actor_id item_id quantity action_id revision w s =
      elim (check_split actor_id item_id quantity w) [
        | err e ↦ refused g w s e
        | ok source ↦
            (let (made, rest) = generate g s in
              elim (made >>= λ new_id. write_split source item_id new_id quantity w) [
                | err e ↦ refused g w rest e
                | ok parts ↦ place_split actor_id item_id quantity action_id revision parts rest
              ])
      ]
