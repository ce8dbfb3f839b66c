-- ===== src/World/Examples.antt =====
-- Runs on concrete values for the theorems of the world.
use loreloom.Prelude.{
  ℕ, suc, ◌+◌, ◌*◌, ◌^◌, ◌≡◌, refl, true, inl, inr, ◌⊎◌, ◌↔◌, arith, Option, none, some, List, [],
  ◌∷◌, bytes, ok, nat_eq, text_eq, Text, map_err,
}
use loreloom.Prelude.Int.{pos}
use loreloom.Prelude.Map.{get, insert, contains}
use loreloom.Core.Fixed.{of_micros}
use loreloom.Core.Domain.{object_id, item, character, place}
use loreloom.Core.Domain.Identities.{ObjectId, validate_uuid_v7, new_text}
use loreloom.Core.Domain.Origins.{
  EntityOrigin, system, CharacterLifetime, CharacterProfile, player, alive, idle, standing,
  persistent, generated, GeneratedOrigin, player_input,
}
use loreloom.Core.Domain.Origins
use loreloom.Core.Domain.Objects.{ItemRecord, CharacterRecord, PlaceRecord, ContainerState}
use loreloom.World.Types.{
  GameWorld, IdGenerator, item_of, character_of, conclude, event, generate, summary, spawn_record,
}
use loreloom.World.Containers.{
  DefinitionRegistry, ItemDefinition, ensure_no_container_cycle, holder, tree_weight,
  item_tree_weight,
}
use loreloom.World.Containers.Visiting.{Clear, ensure_no_container_cycle-ok_iff}
use loreloom.World.Containers.Weighing.{IsWeight}
use loreloom.World.Containers.Weights.{item_tree_weight-fuel}
use loreloom.World.Items.{
  transfer_item, equip_item, split_stack, check_split, write_split, place_split,
}
use loreloom.World.Items.Nesting.{IsAcyclic, inside, ground_level, transfer_item-IsAcyclic}
use loreloom.World.Items.Capacity.{IsFitting, transfer_item-IsFitting}
use loreloom.World.Items.Slots.{IsIndexed, IsUnshared, equip_item-IsUnshared}
use loreloom.World.Items.Quantities.{quantity_of, IsStocked, split_stack-conserves}
use loreloom.World.Places.{move_character, create_place}
use loreloom.World.Places.Residence.{place_of, IsHoused, move_character-IsHoused}
use loreloom.World.Places.Edges.{IsPaired, create_place-IsPaired}
use loreloom.Core.Domain.Facts.{TranscriptItemRecord, committed}
use loreloom.Core.Domain.Facts
use loreloom.World.Transcripts.{append_transcripts}
use loreloom.World.Transcripts.Receipts.{IsFiled, IsSingle, append_transcripts-IsSingle}

abbrev origin : EntityOrigin
origin = system (bytes "core:rule/start")

abbrev plain_item : ObjectId → ℕ → Option ContainerState → ItemRecord
plain_item id stack container = record {
  id = id;
  definition_id = bytes "core:item/coin";
  stack = stack;
  durability = none;
  container = container;
  contained_by = none;
  owned_by = some 1;
  equipped = none;
  located_at = some 5;
  custom_name = none;
  bound_actor = none;
  parameters = [];
  instance_adjustments = [];
  origin = origin;
}

abbrev bag : ItemRecord
bag =
    plain_item 10 1
      (some (record { max_weight_grams = of_micros (pos 100_000_000); max_children = 1 }))

abbrev coins : ItemRecord
coins = plain_item 11 3 none

abbrev hero : CharacterRecord
hero = record {
  id = 1;
  display_name = bytes "Hero";
  profile = record { summary = []; values = []; speaking_style = []; narrative_tags = [] };
  appearance = none;
  controller = player;
  lifetime = Origins.scene 9;
  location = 5;
  inventory_root = 10;
  agent_binding = none;
  base_attributes = [];
  attribute_adjustments = [];
  resources = [];
  life_state = alive;
  action_state = idle;
  posture = standing;
  origin = origin;
}

abbrev room : ObjectId → List ObjectId → PlaceRecord
room id edges = record {
  id = id;
  scene_id = 9;
  display_name = bytes "Room";
  description = [];
  tags = [];
  edges = edges;
  origin = origin;
}

abbrev small_world : GameWorld
small_world = record {
  revision = 0;
  state = record { id = 0; player_actor = 1; active_scene = 9; clock = 0; rng_seed = [] };
  objects =
      (1, character hero)
      ∷ (5, place (room 5 (6 ∷ [])))
      ∷ (6, place (room 6 (5 ∷ [])))
      ∷ (10, item bag)
      ∷ (11, item coins)
      ∷ [];
  transcripts = [];
}

abbrev coin_definition : ItemDefinition
coin_definition = record {
  id = bytes "core:item/coin";
  unit_weight_grams = of_micros (pos 4_000_000);
  durability = none;
  container = none;
  equipment_slots = bytes "core:slot/hand" ∷ [];
}

abbrev registry : DefinitionRegistry
registry =
    (
      bytes "core:item/coin",
      record {
        definition = coin_definition;
        origin = record {
          mod_id = bytes "core";
          mod_version = bytes "1";
          pack_id = bytes "core:pack/base";
          definition_id = bytes "core:item/coin";
          content_version = 1;
          content_hash = [];
        };
      },
    )
    ∷ []

-- UUIDs of version 7 that count up.
abbrev counter : IdGenerator
counter = record { Ids = ℕ; next_uuid_v7 = λ n. (7 * 2 ^ 76 + 2 * 2 ^ 62 + n, suc n) }

unheld : (id : ObjectId) → holder small_world id ≡ none
unfolding item_of get
unheld id = ground arith

small_world-IsAcyclic : IsAcyclic small_world
small_world-IsAcyclic id = inside id (rw (unheld id) ground_level)

transfer_item-IsAcyclic_example :
    IsAcyclic (transfer_item counter 1 11 10 77 1 registry small_world 0).world
transfer_item-IsAcyclic_example =
    transfer_item-IsAcyclic counter 1 11 10 77 1 registry small_world 0 small_world-IsAcyclic

small_world-IsFitting : IsFitting small_world
unfolding item_of get
small_world-IsFitting id c s e f = ground arith

transfer_item-IsFitting_example :
    IsFitting (transfer_item counter 1 11 10 77 1 registry small_world 0).world
transfer_item-IsFitting_example =
    transfer_item-IsFitting counter 1 11 10 77 1 registry small_world 0 small_world-IsFitting

small_world-IsIndexed : IsIndexed small_world
unfolding item_of get
small_world-IsIndexed id i e = ground arith

small_world-IsUnshared : IsUnshared small_world
unfolding item_of get
small_world-IsUnshared a b i j e p q r s = ground arith

equip_item-IsUnshared_example :
    IsIndexed (equip_item counter 1 10 (bytes "core:slot/hand") 77 1 registry small_world 0).world
    × IsUnshared
        (equip_item counter 1 10 (bytes "core:slot/hand") 77 1 registry small_world 0).world
equip_item-IsUnshared_example =
    equip_item-IsUnshared counter 1 10 (bytes "core:slot/hand") 77 1 registry small_world 0
      small_world-IsIndexed small_world-IsUnshared

only_hero : (id : ObjectId) (c : CharacterRecord) → character_of id small_world ≡ some c → c ≡ hero
unfolding character_of get
only_hero id c e = ground arith

small_world-IsHoused : IsHoused small_world
unfolding get
small_world-IsHoused id c e = rw (only_hero id c e) (room 5 (6 ∷ []), refl, refl)

move_character-IsHoused_example : IsHoused (move_character counter 1 6 77 1 small_world 0).world
move_character-IsHoused_example =
    move_character-IsHoused counter 1 6 77 1 small_world 0 small_world-IsHoused

two_rooms :
    (a b : ObjectId) (p : PlaceRecord)
    → place_of a small_world ≡ some p
    → contains b p.edges ≡ true
    → ((a ≡ 5) × (b ≡ 6) × (p ≡ room 5 (6 ∷ []))) ⊎ ((a ≡ 6) × (b ≡ 5) × (p ≡ room 6 (5 ∷ [])))
unfolding get contains
two_rooms a b p e c = ground arith

small_world-IsPaired : IsPaired small_world
unfolding get contains
small_world-IsPaired a b p e c = elim (two_rooms a b p e c) [
  | inl (f, k, h) ↦ rw (f, k, h) (room 6 (5 ∷ []), refl, refl, refl)
  | inr (f, k, h) ↦ rw (f, k, h) (room 5 (6 ∷ []), refl, refl, refl)
]

abbrev generation : GeneratedOrigin
generation = record { generation_id = 3; generator_version = []; source = player_input 4 }

create_place-IsPaired_example :
    IsPaired (create_place counter 1 (bytes "Attic") [] generation 77 1 small_world 0).world
create_place-IsPaired_example =
    create_place-IsPaired counter 1 (bytes "Attic") [] generation 77 1 small_world 0
      small_world-IsPaired

split_stack-conserves_example :
    ((d : Text)
      → quantity_of d (split_stack counter 1 11 1 77 1 small_world 0).world
        ≡ quantity_of d small_world)
    × (IsStocked small_world → IsStocked (split_stack counter 1 11 1 77 1 small_world 0).world)
unfolding split_stack check_split generate validate_uuid_v7 write_split get insert item_of
    place_split spawn_record object_id conclude event summary new_text
split_stack-conserves_example = split_stack-conserves counter 1 11 1 77 1 small_world 0 refl

ensure_no_container_cycle-ok_iff_example :
    (ensure_no_container_cycle small_world 11 (some 10) ≡ ok tt) ↔ Clear small_world 11 (some 10)
ensure_no_container_cycle-ok_iff_example = ensure_no_container_cycle-ok_iff small_world 11 (some 10)

item_tree_weight-fuel_example :
    (tree_weight 20 small_world registry [] 11
      ≡ map_err some (item_tree_weight small_world registry 11))
    × IsWeight small_world registry 11 (item_tree_weight small_world registry 11)
item_tree_weight-fuel_example = item_tree_weight-fuel small_world registry 20 11 (omega arith)

no_transcripts-IsFiled : IsFiled small_world.transcripts
unfolding get
no_transcripts-IsFiled id t h = ground arith

no_transcripts-IsSingle : IsSingle small_world.transcripts
unfolding get
no_transcripts-IsSingle a b t u source f g p q r = ground arith

abbrev line : TranscriptItemRecord
line = record {
  audience = Facts.player;
  source_id = none;
  id = 40;
  session_id = 41;
  revision = some 1;
  speaker = Facts.player 1 (bytes "Hero");
  text = bytes "Hello";
  state = committed;
  supporting_events = [];
}

append_transcripts-IsSingle_example :
    IsFiled (append_transcripts 1 (line ∷ []) 1 small_world).0.transcripts
    × IsSingle (append_transcripts 1 (line ∷ []) 1 small_world).0.transcripts
append_transcripts-IsSingle_example =
    append_transcripts-IsSingle 1 (line ∷ []) 1 small_world no_transcripts-IsFiled
      no_transcripts-IsSingle
