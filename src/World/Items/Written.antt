-- ===== src/World/Items/Written.antt =====
-- What the commands on items have checked and written, where they get past their checks.
use loreloom.Prelude.{
  ◌≡◌, ap, ◌∙◌, true, inl, inr, arith, some, Option-cases, ok, nat_eq, Result-cases, ltb, ◌||◌, ◌⊎◌,
}
use loreloom.Prelude.Map.{get, insert}
use loreloom.Core.Revision.{Revision}
use loreloom.Core.Domain.{DomainRecord, item}
use loreloom.Core.Domain.Identities.{ObjectId, ActorId, ActionId}
use loreloom.Core.Domain.Objects.{ItemRecord, ContainerState}
use loreloom.World.Types.{IdGenerator, conclude, GameWorld, item_of, items, as_item}
use loreloom.World.Containers.{DefinitionRegistry, is_id, ensure_no_container_cycle}
use loreloom.World.Items.{
  transfer_item, write_transfer, check_transfer, check_container, into, count_children,
}

as_item-inv : (r : DomainRecord) {i : ItemRecord} → as_item r ≡ some i → r ≡ item i
as_item-inv r h = ground arith

pub get-item :
    (id : ObjectId) (w : GameWorld) {i : ItemRecord}
    → item_of id w ≡ some i
    → get id w.objects ≡ some (item i)
unfolding item_of
get-item id w h = elim (Option-cases (get id w.objects)) [
  | inl n ↦ ground (arith, n)
  | inr (r, e) ↦ e ∙ ap some (as_item-inv r (ground (arith, e)))
]

-- The container has room for one item more, or the item is in it already.
pub record Room (moved : ItemRecord) (container_id : ObjectId) (w : GameWorld) : Type 0 where
  pub container : ItemRecord
  pub capacity : ContainerState
  pub container_item : item_of container_id w ≡ some container
  pub container_state : container.container ≡ some capacity
  pub room :
      (is_id moved.contained_by container_id
        || ltb (count_children container_id (items w)) capacity.max_children)
      ≡ true

check_container-clear :
    (actor_id : ActorId) (moved : ItemRecord) (item_id container_id : ObjectId)
    (registry : DefinitionRegistry) (w : GameWorld)
    → check_container actor_id moved item_id container_id registry w ≡ ok tt
    → ensure_no_container_cycle w item_id (some container_id) ≡ ok tt
unfolding check_container
check_container-clear actor_id moved item_id container_id registry w h = ground arith

check_container-Room :
    (actor_id : ActorId) (moved : ItemRecord) (item_id container_id : ObjectId)
    (registry : DefinitionRegistry) (w : GameWorld)
    → check_container actor_id moved item_id container_id registry w ≡ ok tt
    → Room moved container_id w
unfolding check_container
check_container-Room actor_id moved item_id container_id registry w h =
    elim (Option-cases (item_of container_id w)) [
      | inl e ↦ ground (arith, e)
      | inr (c, e) ↦ elim (Option-cases c.container) [
        | inl f ↦ ground (arith, e, f)
        | inr (s, f) ↦ record {
          container = c;
          capacity = s;
          container_item = e;
          container_state = f;
          room = ground (arith, e, f);
        }
      ]
    ]

-- What a transfer writes, once its checks are passed.
pub record Transferred (item_id container_id : ObjectId) (w w' : GameWorld) : Type 0 where
  pub moved : ItemRecord
  pub item_before : item_of item_id w ≡ some moved
  pub clear : ensure_no_container_cycle w item_id (some container_id) ≡ ok tt
  pub room : Room moved container_id w
  pub objects_after : w'.objects ≡ insert item_id (item (into container_id moved)) w.objects

pub write_transfer-Transferred :
    (actor_id : ActorId) (item_id container_id : ObjectId) (registry : DefinitionRegistry)
    (w : GameWorld) {from : ObjectId} {moved : ItemRecord} {w' : GameWorld}
    → write_transfer actor_id item_id container_id registry w ≡ ok (from, moved, w')
    → Transferred item_id container_id w w'
unfolding write_transfer check_transfer
write_transfer-Transferred actor_id item_id container_id registry w h =
    elim (Option-cases (item_of item_id w)) [
      | inl e ↦ ground (arith, e)
      | inr (i, e) ↦
          elim (Result-cases (check_container actor_id i item_id container_id registry w)) [
            | inr (x, f) ↦ ground (arith, e, f)
            | inl (u, f) ↦ record {
              moved = i;
              item_before = e;
              clear = check_container-clear actor_id i item_id container_id registry w f;
              room = check_container-Room actor_id i item_id container_id registry w f;
              objects_after = ground (arith, e, f, get-item item_id w e);
            }
          ]
    ]

-- A transfer leaves the world as it was, or has written.
pub transfer_item-cases :
    (g : IdGenerator) (actor_id : ActorId) (item_id container_id : ObjectId) (action_id : ActionId)
    (revision : Revision) (registry : DefinitionRegistry) (w : GameWorld) (s : g.Ids)
    → ((transfer_item g actor_id item_id container_id action_id revision registry w s).world ≡ w)
      ⊎ Transferred item_id container_id w
          (transfer_item g actor_id item_id container_id action_id revision registry w s).world
unfolding transfer_item conclude
transfer_item-cases g actor_id item_id container_id action_id revision registry w s =
    elim (Result-cases (write_transfer actor_id item_id container_id registry w)) [
      | inr (e, q) ↦ inl (ground (arith, q))
      | inl ((from, moved, w'), q) ↦
          inr (
            rw (world_at q) (write_transfer-Transferred actor_id item_id container_id registry w q))
    ]
  where
    world_at :
        {from : ObjectId} {moved : ItemRecord} {w' : GameWorld}
        → write_transfer actor_id item_id container_id registry w ≡ ok (from, moved, w')
        → (transfer_item g actor_id item_id container_id action_id revision registry w s).world ≡ w'
    world_at q = ground (arith, q)
