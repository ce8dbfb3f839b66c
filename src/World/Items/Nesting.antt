-- ===== src/World/Items/Nesting.antt =====
-- Containers stay nested without a cycle when an item is transferred.
use loreloom.Prelude.{
  ◌≡◌, false, Bool-cases, inl, inr, arith, Option, none, some, ◌==◌, if◌then◌else◌, nat_eq,
}
use loreloom.Prelude.Map.{get-insert}
use loreloom.Core.Revision.{Revision}
use loreloom.Core.Domain.{item}
use loreloom.Core.Domain.Identities.{ObjectId, ActorId, ActionId}
use loreloom.World.Types.{GameWorld, IdGenerator, item_of}
use loreloom.World.Containers.{DefinitionRegistry, holder}
use loreloom.World.Containers.Visiting.{Clear, ensure_no_container_cycle-ok_iff}
use loreloom.World.Items.{transfer_item, into}
use loreloom.World.Items.Written.{Transferred, transfer_item-cases}

-- The way up from a place ends.
pub data Grounded (w : GameWorld) : Option ObjectId → Type 0 where
  ground_level : Grounded w none
  inside : (id : ObjectId) → Grounded w (holder w id) → Grounded w (some id)

abbrev pub IsAcyclic : GameWorld → Type 0
IsAcyclic w = (id : ObjectId) → Grounded w (some id)

==_other : (a b : ObjectId) → (a == b) ≡ false → (b == a) ≡ false
==_other a b h = ground arith

module _ (item_id container_id : ObjectId) (w w' : GameWorld)
    (t : Transferred item_id container_id w w') where
  holder-transferred :
      (id : ObjectId) → holder w' id ≡ (if item_id == id then some container_id else holder w id)
  unfolding item_of
  holder-transferred id =
      ground
        (arith, t.objects_after, get-insert item_id id (item (into container_id t.moved)) w.objects)

  Clear-Grounded : {p : Option ObjectId} → Clear w item_id p → Grounded w' p
  Clear-Grounded Clear.top = ground_level
  Clear-Grounded (Clear.up id n c) =
      inside id (rw (holder-transferred id, ==_other id item_id n) (Clear-Grounded c))

  Grounded-transferred : {p : Option ObjectId} → Grounded w p → Grounded w' p
  Grounded-transferred ground_level = ground_level
  Grounded-transferred (inside id g) = inside id (elim (Bool-cases (item_id == id)) [
    | inl y ↦
        rw (holder-transferred id, y)
          (Clear-Grounded
            ((ensure_no_container_cycle-ok_iff w item_id (some container_id)).0 t.clear))
    | inr n ↦ rw (holder-transferred id, n) (Grounded-transferred g)
  ])

-- A transfer of an item, whether it is accepted or not, keeps the containers nested without a cycle:
-- if from every item the way up through the containers ends, it does so afterwards.
pub transfer_item-IsAcyclic :
    (g : IdGenerator) (actor_id : ActorId) (item_id container_id : ObjectId) (action_id : ActionId)
    (revision : Revision) (registry : DefinitionRegistry) (w : GameWorld) (s : g.Ids)
    → IsAcyclic w
    → IsAcyclic
        (transfer_item g actor_id item_id container_id action_id revision registry w s).world
transfer_item-IsAcyclic g actor_id item_id container_id action_id revision registry w s h =
    elim (transfer_item-cases g actor_id item_id container_id action_id revision registry w s) [
      | inl same ↦ rw same h
      | inr t ↦ λ id. Grounded-transferred item_id container_id w _ t (h id)
    ]
