-- ===== src/World/Places/Residence.antt =====
-- A character that belongs to a scene stays in it.
use loreloom.Prelude.{
  ◌≡◌, ap, ◌∙◌, true, false, Bool-cases, inl, inr, ◌⊎◌, arith, Option, some, Option-cases, ◌==◌,
  ==_iff, if◌then◌else◌, nat_eq, Result-cases, ok,
}
use loreloom.Prelude.Map.{get, get-insert, insert, contains}
use loreloom.Core.Revision.{Revision}
use loreloom.Core.Domain.{DomainRecord, character}
use loreloom.Core.Domain.Identities.{ObjectId, ActorId, ActionId}
use loreloom.Core.Domain.Objects.{CharacterRecord, PlaceRecord}
use loreloom.World.Types.{
  GameWorld, IdGenerator, character_of, require_place, as_character, as_place, component, conclude,
}
use loreloom.World.Places.{move_character, write_move, check_move, at_location, bound_elsewhere}

abbrev pub place_of : ObjectId → GameWorld → Option PlaceRecord
place_of = component as_place

-- Each character is at a place, and one that belongs to a scene at a place of that scene.
abbrev pub IsHoused : GameWorld → Type 0
IsHoused w =
    (id : ActorId) (c : CharacterRecord)
    → character_of id w ≡ some c
    → (p : PlaceRecord) × (place_of c.location w ≡ some p)
      × (bound_elsewhere c.lifetime p.scene_id ≡ false)

pub get-character :
    (id : ActorId) (w : GameWorld) {c : CharacterRecord}
    → character_of id w ≡ some c
    → get id w.objects ≡ some (character c)
unfolding character_of
get-character id w h = elim (Option-cases (get id w.objects)) [
  | inl n ↦ ground (arith, n)
  | inr (r, e) ↦ e ∙ ap some (as_character-inv r (ground (arith, e)))
]
  where
    as_character-inv :
        (r : DomainRecord) {c : CharacterRecord} → as_character r ≡ some c → r ≡ character c
    as_character-inv r h = ground arith

-- What a move has checked and written.
pub record Moved (actor_id : ActorId) (destination : ObjectId) (w w' : GameWorld) : Type 0 where
  pub mover : CharacterRecord
  pub source : PlaceRecord
  pub target : PlaceRecord
  pub character_before : character_of actor_id w ≡ some mover
  pub source_place : place_of mover.location w ≡ some source
  pub target_place : place_of destination w ≡ some target
  pub connected : contains destination source.edges ≡ true
  pub same_scene : source.scene_id ≡ target.scene_id
  pub allowed : bound_elsewhere mover.lifetime target.scene_id ≡ false
  pub objects_after :
      w'.objects ≡ insert actor_id (character (at_location destination mover)) w.objects

write_move-Moved :
    (actor_id : ActorId) (destination : ObjectId) (w : GameWorld) {from : ObjectId}
    {moved : CharacterRecord} {w' : GameWorld}
    → write_move actor_id destination w ≡ ok (from, moved, w')
    → Moved actor_id destination w w'
unfolding write_move check_move require_place
write_move-Moved actor_id destination w h = elim (Option-cases (character_of actor_id w)) [
  | inl e ↦ ground (arith, e)
  | inr (c, e) ↦ elim (Option-cases (place_of c.location w)) [
    | inl f ↦ ground (arith, e, f)
    | inr (p, f) ↦ elim (Option-cases (place_of destination w)) [
      | inl k ↦ ground (arith, e, f, k)
      | inr (q, k) ↦ record {
        mover = c;
        source = p;
        target = q;
        character_before = e;
        source_place = f;
        target_place = k;
        connected = ground (arith, e, f, k);
        same_scene = ground (arith, e, f, k);
        allowed = ground (arith, e, f, k);
        objects_after = ground (arith, e, f, k, get-character actor_id w e);
      }
    ]
  ]
]

pub move_character-cases :
    (g : IdGenerator) (actor_id : ActorId) (destination : ObjectId) (action_id : ActionId)
    (revision : Revision) (w : GameWorld) (s : g.Ids)
    → ((move_character g actor_id destination action_id revision w s).world ≡ w)
      ⊎ Moved actor_id destination w
          (move_character g actor_id destination action_id revision w s).world
unfolding move_character conclude
move_character-cases g actor_id destination action_id revision w s =
    elim (Result-cases (write_move actor_id destination w)) [
      | inr (e, q) ↦ inl (ground (arith, q))
      | inl ((from, moved, w'), q) ↦
          inr (rw (world_at q) (write_move-Moved actor_id destination w q))
    ]
  where
    world_at :
        {from : ObjectId} {moved : CharacterRecord} {w' : GameWorld}
        → write_move actor_id destination w ≡ ok (from, moved, w')
        → (move_character g actor_id destination action_id revision w s).world ≡ w'
    world_at q = ground (arith, q)

module _ (actor_id : ActorId) (destination : ObjectId) (w w' : GameWorld)
    (t : Moved actor_id destination w w') where
  abbrev here : CharacterRecord
  here = at_location destination t.mover

  character_of-moved :
      (id : ActorId)
      → character_of id w' ≡ (if actor_id == id then some here else character_of id w)
  unfolding character_of
  character_of-moved id =
      ground (arith, t.objects_after, get-insert actor_id id (character here) w.objects)

  -- No place is written.
  place_of-moved : (id : ObjectId) → place_of id w' ≡ place_of id w
  place_of-moved id = ground (
    arith,
    t.objects_after,
    get-insert actor_id id (character here) w.objects,
    get-character actor_id w t.character_before,
    ==_iff actor_id id,
  )

  Moved-IsHoused : IsHoused w → IsHoused w'
  Moved-IsHoused h id c e = elim (Bool-cases (actor_id == id)) [
    | inl y ↦ (
      t.target,
      ground (arith, y, e, character_of-moved id, place_of-moved destination, t.target_place),
      ground (arith, y, e, character_of-moved id, t.allowed),
    )
    | inr n ↦
        (let (p, a, b) = h id c (ground (arith, n, e, character_of-moved id)) in
          (p, place_of-moved c.location ∙ a, b))
  ]

-- If every character is at a place, and one that belongs to a scene at a place of that scene, that
-- still holds after a character moves, or is refused.
pub move_character-IsHoused :
    (g : IdGenerator) (actor_id : ActorId) (destination : ObjectId) (action_id : ActionId)
    (revision : Revision) (w : GameWorld) (s : g.Ids)
    → IsHoused w
    → IsHoused (move_character g actor_id destination action_id revision w s).world
move_character-IsHoused g actor_id destination action_id revision w s h =
    elim (move_character-cases g actor_id destination action_id revision w s) [
      | inl same ↦ rw same h
      | inr t ↦ Moved-IsHoused actor_id destination w _ t h
    ]
