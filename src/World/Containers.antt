-- ===== src/World/Containers.antt =====
-- The containers of crates/loreloom-world/src/game_world.rs: the walk up from an item to what holds it,
-- and the weight of what an item holds. Both keep the set of the items visited, and have fuel for one
-- step more than there are objects.
pub mod Visiting
pub mod Weighing
pub mod Weights
use loreloom.Prelude.{
  ℕ, zero, suc, Bool, true, false, ◌&&◌, ◌||◌, not, Option, none, some, List, [], ◌∷◌, ◌==◌, ltb,
  if◌then◌else◌, length, Result, ok, err, ◌>>=◌, ◌>>◌, ok_or, map_err, ensure, nat_eq, text_eq,
  Text,
}
use loreloom.Prelude.Int.{pos}
use loreloom.Prelude.Map.{Map, get, contains}
use loreloom.Core.Fixed.{Fixed, zero_fixed, from_integer, add, mul}
use loreloom.Core.Domain.Identities.{ObjectId, ContentDefinitionId}
use loreloom.Core.Domain.Origins.{ContentOrigin}
use loreloom.Core.Domain.Objects.{ItemRecord}
use loreloom.World.Types.{
  GameWorld, WorldError, wrong_object_kind, definition_not_found, invariant, fixed_error, item_of,
  items,
}

pub record DurabilityDefinition : Type 0 where
  pub maximum : Fixed

pub record ContainerDefinition : Type 0 where
  pub max_weight_grams : Fixed
  pub max_children : ℕ

-- What the commands read of an `ItemDefinition`.
pub record ItemDefinition : Type 0 where
  pub id : ContentDefinitionId
  pub unit_weight_grams : Fixed
  pub durability : Option DurabilityDefinition
  pub container : Option ContainerDefinition
  pub equipment_slots : List ContentDefinitionId

-- The items of a `DefinitionRegistry`, with the origins of their definitions.
pub record Registered : Type 0 where
  pub definition : ItemDefinition
  pub origin : ContentOrigin

abbrev pub DefinitionRegistry : Type 0
DefinitionRegistry = Map ContentDefinitionId Registered

unfoldable pub item_definition :
    DefinitionRegistry → ContentDefinitionId → Result WorldError ItemDefinition
item_definition registry id = elim (get id registry) [
  | some entry ↦ ok entry.definition
  | none ↦ err (definition_not_found id)
]

abbrev pub held_by : Option ItemRecord → Option ObjectId
held_by none = none
held_by (some i) = i.contained_by

-- `self.item(id).and_then(|item| item.contained_by)`
abbrev pub holder : GameWorld → ObjectId → Option ObjectId
holder w id = held_by (item_of id w)

unfoldable pub climb :
    ℕ → GameWorld → ObjectId → Option ObjectId → List ObjectId → Result WorldError (Unit {0})
climb fuel w item none visited = ok tt
climb zero w item (some id) visited = err (invariant "item.container_cycle")
climb (suc fuel) w item (some id) visited =
    let rest = climb fuel w item (holder w id) (id ∷ visited) in
    if id == item || contains id visited then err (invariant "item.container_cycle") else rest

abbrev pub enough : GameWorld → ℕ
enough w = suc (length w.objects)

unfoldable pub ensure_no_container_cycle :
    GameWorld → ObjectId → Option ObjectId → Result WorldError (Unit {0})
ensure_no_container_cycle w item parent = climb (enough w) w item parent []

abbrev pub is_id : Option ObjectId → ObjectId → Bool
is_id none id = false
is_id (some j) id = j == id

-- The loop over the items that are contained by `id`, with what each weighs. An error of the loop's
-- own is passed on by `wrap`.
unfoldable pub add_children :
    {E : Type 0}
    → (WorldError → E)
    → (ItemRecord → Result E Fixed)
    → ObjectId
    → Fixed
    → List ItemRecord
    → Result E Fixed
add_children wrap weigh id total [] = ok total
add_children wrap weigh id total (child ∷ rest) =
    if is_id child.contained_by id
    then (do
      weight ← weigh child
      sum ← map_err (λ e. wrap (fixed_error e)) (add total weight)
      add_children wrap weigh id sum rest)
    else add_children wrap weigh id total rest

unfoldable pub own_weight : DefinitionRegistry → ItemRecord → Result WorldError Fixed
unfolding item_definition
own_weight registry i = do
  definition ← item_definition registry i.definition_id
  quantity ← map_err fixed_error (from_integer (pos i.stack))
  map_err fixed_error (mul definition.unit_weight_grams quantity)

-- The recursion, whose errors are those of the program, or `none` where there is no more fuel.
unfoldable pub tree_weight :
    ℕ → GameWorld → DefinitionRegistry → List ObjectId → ObjectId → Result (Option WorldError) Fixed
tree_weight zero w registry visited id = err none
tree_weight (suc fuel) w registry visited id =
    let weigh = λ (child : ItemRecord). tree_weight fuel w registry (id ∷ visited) child.id in
    if contains id visited then err (some (invariant "item.container_cycle")) else (do
      i ← map_err some (ok_or (item_of id w) (wrong_object_kind id))
      own ← map_err some (own_weight registry i)
      add_children some weigh id own (items w))

-- The result of a recursion. Without more fuel it is the error of a cycle.
abbrev pub finished : Result (Option WorldError) Fixed → Result WorldError Fixed
finished (ok weight) = ok weight
finished (err (some e)) = err e
finished (err none) = err (invariant "item.container_cycle")

unfoldable pub item_tree_weight :
    GameWorld → DefinitionRegistry → ObjectId → Result WorldError Fixed
unfolding tree_weight
item_tree_weight w registry id = finished (tree_weight (enough w) w registry [] id)

unfoldable pub container_weight :
    GameWorld → DefinitionRegistry → ObjectId → Result WorldError Fixed
unfolding add_children item_tree_weight
container_weight w registry id =
    add_children (λ e. e) (λ child. item_tree_weight w registry child.id) id zero_fixed (items w)
