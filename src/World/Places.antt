-- ===== src/World/Places.antt =====
-- The commands on characters, scenes and places of crates/loreloom-world/src/game_world.rs:
-- `move_character`, `promote_character`, `create_scene` and `create_place`. The writes of a command
-- follow its checks.
pub mod Edges
pub mod Residence
use loreloom.Prelude.{
  ℕ, nat_eq, Bool, true, false, ◌&&◌, ◌||◌, not, Option, none, some, List, [], ◌∷◌, ◌==◌,
  if◌then◌else◌, Result, ok, err, ◌>>=◌, ◌>>◌, ok_or, ensure, bytes,
}
use loreloom.Prelude.Map.{get, contains}
use loreloom.Core.Revision.{Revision}
use loreloom.Core.Domain.{DomainRecord, character, scene, place}
use loreloom.Core.Domain.Identities.{ObjectId, ActorId, ActionId, DisplayName, ShortText}
use loreloom.Core.Domain.Origins.{
  CharacterLifetime, persistent, GeneratedOrigin, EntityOrigin, generated,
}
use loreloom.Core.Domain.Origins
use loreloom.Core.Domain.Objects.{SceneRecord, PlaceRecord, CharacterRecord}
use loreloom.Core.Domain.Protocol.{
  character_moved, character_promoted, scene_created, place_created,
}
use loreloom.World.Types.{
  GameWorld, WorldError, object_not_found, wrong_object_kind, duplicate_identity, invariant,
  domain_rule, character_of, require_place, as_character, as_place, edit, spawn_record, IdGenerator,
  Done, generate, conclude, refused,
}

abbrev require_character : ActorId → GameWorld → Result WorldError CharacterRecord
require_character id w = ok_or (character_of id w) (wrong_object_kind id)

abbrev edit_character :
    ActorId
    → (CharacterRecord → CharacterRecord)
    → GameWorld
    → Result WorldError (CharacterRecord × GameWorld)
edit_character = edit as_character character

-- A character of another scene than the one given.
abbrev pub bound_elsewhere : CharacterLifetime → ObjectId → Bool
bound_elsewhere (Origins.scene home) scene_id = not (scene_id == home)
bound_elsewhere persistent scene_id = false

unfoldable pub check_move : ActorId → ObjectId → GameWorld → Result WorldError ObjectId
check_move actor_id destination w = do
  current ← require_character actor_id w
  ensure (not (current.location == destination)) (domain_rule "already_at_destination")
  source ← require_place current.location w
  target ← require_place destination w
  ensure (contains destination source.edges) (domain_rule "places_not_connected")
  ensure (source.scene_id == target.scene_id) (invariant "place.edge_scene")
  ensure (not (bound_elsewhere current.lifetime target.scene_id))
      (domain_rule "scene_lifetime_cannot_leave_scene")
  ok current.location

abbrev pub at_location : ObjectId → CharacterRecord → CharacterRecord
at_location destination c = record c { location = destination }

-- The place that is left, the character as it is written, and the world.
unfoldable pub write_move :
    ActorId → ObjectId → GameWorld → Result WorldError (ObjectId × CharacterRecord × GameWorld)
write_move actor_id destination w = do
  from ← check_move actor_id destination w
  (moved, w') ← edit_character actor_id (at_location destination) w
  ok (from, moved, w')

abbrev is_persistent : CharacterLifetime → Bool
is_persistent persistent = true
is_persistent (Origins.scene home) = false

unfoldable pub write_promotion :
    ActorId → GameWorld → Result WorldError (CharacterRecord × GameWorld)
write_promotion target w = do
  r ← ok_or (get target w.objects) (object_not_found target)
  current ← ok_or (as_character r) (wrong_object_kind target)
  ensure (not (is_persistent current.lifetime)) (domain_rule "character_already_persistent")
  edit_character target (λ c. record c { lifetime = persistent }) w

abbrev has_object : ObjectId → GameWorld → Bool
has_object id w = elim (get id w.objects) [ some _ ↦ true | none ↦ false ]

-- The records of a scene and its entry, spawned one after the other.
abbrev new_scene : ObjectId → ObjectId → DisplayName → ShortText → EntityOrigin → SceneRecord
new_scene scene_id entry_place_id display_name framing origin = record {
  id = scene_id;
  display_name = display_name;
  framing = framing;
  entry_place = entry_place_id;
  active = false;
  origin = origin;
}

abbrev pub new_place :
    ObjectId → ObjectId → DisplayName → ShortText → List ObjectId → EntityOrigin → PlaceRecord
new_place place_id scene_id display_name description edges origin = record {
  id = place_id;
  scene_id = scene_id;
  display_name = display_name;
  description = description;
  tags = [];
  edges = edges;
  origin = origin;
}

-- `edges.insert(id)` on a `BTreeSet`
abbrev pub add_edge : ObjectId → List ObjectId → List ObjectId
add_edge id edges = if contains id edges then edges else id ∷ edges

-- The place of the player, in the active scene.
unfoldable pub check_create_place : ActorId → GameWorld → Result WorldError ObjectId
check_create_place actor_id w = do
  ensure (actor_id == w.state.player_actor) (domain_rule "only_player_can_create_place")
  player ← require_character actor_id w
  current ← require_place player.location w
  ensure (current.scene_id == w.state.active_scene) (invariant "player.active_scene_location")
  ok player.location

-- The way to the new place is added to the current one; the new place is spawned after that.
unfoldable pub write_place :
    ObjectId → PlaceRecord → GameWorld → Result WorldError (PlaceRecord × GameWorld)
write_place connected_to p w = do
  ensure (not (has_object p.id w)) duplicate_identity
  edit as_place place connected_to (λ c. record c { edges = add_edge p.id c.edges }) w

module _ (g : IdGenerator) where
  unfoldable pub move_character :
      ActorId → ObjectId → ActionId → Revision → GameWorld → g.Ids → Done g
  move_character actor_id destination action_id revision w s =
      elim (write_move actor_id destination w) [
        | err e ↦ refused g w s e
        | ok (from, moved, w') ↦
            conclude g action_id actor_id revision (character moved ∷ [])
              (character_moved actor_id from destination) (bytes "character moved") w' s
      ]

  unfoldable pub promote_character :
      ActorId → ActorId → ActionId → Revision → GameWorld → g.Ids → Done g
  promote_character actor_id target action_id revision w s = elim (write_promotion target w) [
    | err e ↦ refused g w s e
    | ok (promoted, w') ↦
        conclude g action_id actor_id revision (character promoted ∷ []) (character_promoted target)
          (bytes "character promoted") w' s
  ]

  -- Both identifiers are new, and the scene is spawned before its entry: an error between the two
  -- leaves the scene.
  unfoldable pub place_scene :
      ActorId → SceneRecord → PlaceRecord → ActionId → Revision → GameWorld → g.Ids → Done g
  place_scene actor_id s p action_id revision w ids = elim (spawn_record (scene s) w) [
    | err e ↦ refused g w ids e
    | ok w' ↦ elim (spawn_record (place p) w') [
      | err e ↦ refused g w' ids e
      | ok w'' ↦
          conclude g action_id actor_id revision (scene s ∷ place p ∷ []) (scene_created s.id p.id)
            (bytes "scene created") w'' ids
    ]
  ]

  unfoldable pub create_scene :
      ActorId
      → DisplayName
      → ShortText
      → DisplayName
      → ShortText
      → GeneratedOrigin
      → ActionId
      → Revision
      → GameWorld
      → g.Ids
      → Done g
  create_scene actor_id display_name framing entry_name entry_description origin action_id revision
        w s =
      let (made, more) = generate g s in
      let (entry, rest) = generate g more in
      if not (actor_id == w.state.player_actor)
      then refused g w s (domain_rule "only_player_can_create_scene")
      else elim made [
        | err e ↦ refused g w more e
        | ok scene_id ↦ elim entry [
          | err e ↦ refused g w rest e
          | ok entry_place_id ↦
              if has_object scene_id w || has_object entry_place_id w
              then refused g w rest duplicate_identity
              else place_scene actor_id
                  (new_scene scene_id entry_place_id display_name framing (generated origin))
                  (new_place entry_place_id scene_id entry_name entry_description []
                    (generated origin))
                  action_id revision w rest
        ]
      ]

  unfoldable pub place_place :
      ActorId → ObjectId → PlaceRecord → ActionId → Revision → GameWorld → g.Ids → Done g
  place_place actor_id connected_to p action_id revision w s = elim (write_place connected_to p w) [
    | err e ↦ refused g w s e
    | ok (current, w') ↦ elim (spawn_record (place p) w') [
      | err e ↦ refused g w' s e
      | ok w'' ↦
          conclude g action_id actor_id revision (place current ∷ place p ∷ [])
            (place_created p.scene_id p.id connected_to) (bytes "place created") w'' s
    ]
  ]

  unfoldable pub create_place :
      ActorId
      → DisplayName
      → ShortText
      → GeneratedOrigin
      → ActionId
      → Revision
      → GameWorld
      → g.Ids
      → Done g
  create_place actor_id display_name description origin action_id revision w s =
      elim (check_create_place actor_id w) [
        | err e ↦ refused g w s e
        | ok connected_to ↦
            (let (made, rest) = generate g s in
              elim made [
                | err e ↦ refused g w rest e
                | ok place_id ↦
                    place_place actor_id connected_to
                      (new_place place_id w.state.active_scene display_name description
                        (connected_to ∷ []) (generated origin))
                      action_id revision w rest
              ])
      ]
