-- ===== src/World/Items/Capacity.antt =====
-- No container holds more items than its capacity after a transfer.
use loreloom.Prelude.{
  ℕ, ◌+◌, ◌≤◌, ◌≡◌, refl, true, Bool-cases, inl, inr, arith, Option, none, some, ◌==◌, ==_iff,
  if◌then◌else◌, nat_eq, [], ◌∷◌,
}
use loreloom.Prelude.Map.{Map, get-insert}
use loreloom.Prelude.Map.Totals.{total, total-insert}
use loreloom.Core.Revision.{Revision}
use loreloom.Core.Domain.{DomainRecord, item}
use loreloom.Core.Domain.Identities.{ObjectId, ActorId, ActionId}
use loreloom.Core.Domain.Objects.{ItemRecord, ContainerState}
use loreloom.World.Types.{GameWorld, IdGenerator, item_of, items, items_among, as_item}
use loreloom.World.Containers.{DefinitionRegistry, is_id}
use loreloom.World.Items.{transfer_item, into, count_children}
use loreloom.World.Items.Written.{Transferred, transfer_item-cases, get-item}

abbrev counts : ObjectId → Option ItemRecord → ℕ
counts id none = 0
counts id (some i) = if is_id i.contained_by id then 1 else 0

abbrev child_count : ObjectId → DomainRecord → ℕ
child_count id r = counts id (as_item r)

count_children-total :
    (id : ObjectId) (m : Map ObjectId DomainRecord)
    → count_children id (items_among m) ≡ total (child_count id) m
count_children-total id [] = refl
count_children-total id ((j, r) ∷ m) = ground (arith, count_children-total id m)

-- The containers among the items hold at most as many items as they may.
abbrev pub IsFitting : GameWorld → Type 0
IsFitting w =
    (id : ObjectId) (container : ItemRecord) (capacity : ContainerState)
    → item_of id w ≡ some container
    → container.container ≡ some capacity
    → count_children id (items w) ≤ capacity.max_children

module _ (item_id container_id : ObjectId) (w w' : GameWorld)
    (t : Transferred item_id container_id w w') where
  count_children-transferred :
      (id : ObjectId)
      → count_children id (items w') + child_count id (item t.moved)
        ≡ count_children id (items w) + child_count id (item (into container_id t.moved))
  count_children-transferred id =
      rw (count_children-total id w'.objects, count_children-total id w.objects, t.objects_after)
        (total-insert (child_count id) item_id (item (into container_id t.moved)) (item t.moved)
          w.objects (get-item item_id w t.item_before))

  item_of-transferred :
      (id : ObjectId)
      → item_of id w' ≡ (if item_id == id then some (into container_id t.moved) else item_of id w)
  unfolding item_of
  item_of-transferred id =
      ground
        (arith, t.objects_after, get-insert item_id id (item (into container_id t.moved)) w.objects)

  container-before :
      (id : ObjectId) (c : ItemRecord) (s : ContainerState)
      → item_of id w' ≡ some c
      → c.container ≡ some s
      → (b : ItemRecord) × (item_of id w ≡ some b) × (b.container ≡ some s)
  container-before id c s e q = elim (Bool-cases (item_id == id)) [
    | inl y ↦ (
      t.moved,
      ground (arith, y, ==_iff item_id id, t.item_before),
      ground (arith, y, e, q, item_of-transferred id),
    )
    | inr n ↦ (c, ground (arith, n, e, item_of-transferred id), q)
  ]

  room-bound :
      (id : ObjectId) (b : ItemRecord) (s : ContainerState)
      → (container_id == id) ≡ true
      → item_of id w ≡ some b
      → b.container ≡ some s
      → count_children id (items w) ≤ s.max_children
      → count_children id (items w') ≤ s.max_children
  room-bound id b s y e q f = ground (
    arith,
    y,
    ==_iff container_id id,
    e,
    q,
    f,
    t.room.container_item,
    t.room.container_state,
    t.room.room,
    count_children-transferred id,
  )

  Transferred-IsFitting : IsFitting w → IsFitting w'
  Transferred-IsFitting f id c s e q =
      let (b, eb, qb) = container-before id c s e q in
      elim (Bool-cases (container_id == id)) [
        | inl y ↦ room-bound id b s y eb qb (f id b s eb qb)
        | inr n ↦ ground (arith, n, f id b s eb qb, count_children-transferred id)
      ]

-- A transfer of an item, whether it is accepted or not, keeps every container at or below the number
-- of items that it may hold directly.
pub transfer_item-IsFitting :
    (g : IdGenerator) (actor_id : ActorId) (item_id container_id : ObjectId) (action_id : ActionId)
    (revision : Revision) (registry : DefinitionRegistry) (w : GameWorld) (s : g.Ids)
    → IsFitting w
    → IsFitting
        (transfer_item g actor_id item_id container_id action_id revision registry w s).world
transfer_item-IsFitting g actor_id item_id container_id action_id revision registry w s h =
    elim (transfer_item-cases g actor_id item_id container_id action_id revision registry w s) [
      | inl same ↦ rw same h
      | inr t ↦ Transferred-IsFitting item_id container_id w _ t h
    ]
