-- ===== src/World/Items/Slots.antt =====
-- At most one item is worn by a character in a slot.
use loreloom.Prelude.{
  ◌≡◌, sym, true, false, ◌&&◌, Bool-cases, inl, inr, ◌⊎◌, arith, some, Option-cases, ◌==◌, ==_iff,
  if◌then◌else◌, nat_eq, [], ◌∷◌, text_beq, text_beq_iff, Result-cases, ok,
}
use loreloom.Prelude.Map.{Map, get, get-insert, insert}
use loreloom.Core.Revision.{Revision}
use loreloom.Core.Domain.{DomainRecord, item}
use loreloom.Core.Domain.Identities.{ObjectId, ActorId, ActionId, ContentDefinitionId}
use loreloom.Core.Domain.Objects.{ItemRecord, EquippedState}
use loreloom.Core.Codec.Validation.{some_and}
use loreloom.World.Types.{GameWorld, IdGenerator, item_of, items, items_among, conclude}
use loreloom.World.Containers.{DefinitionRegistry}
use loreloom.World.Items.{equip_item, write_equip, check_equip, occupied, worn_by}
use loreloom.World.Items.Written.{get-item}

-- Items are stored under their own identifiers.
abbrev pub IsIndexed : GameWorld → Type 0
IsIndexed w = (id : ObjectId) (i : ItemRecord) → item_of id w ≡ some i → i.id ≡ id

-- No two items are worn by the same character in the same slot.
abbrev pub IsUnshared : GameWorld → Type 0
IsUnshared w =
    (a b : ObjectId) (i j : ItemRecord) (e : EquippedState)
    → item_of a w ≡ some i
    → item_of b w ≡ some j
    → i.equipped ≡ some e
    → j.equipped ≡ some e
    → a ≡ b

-- What an equipment writes, once its checks are passed.
pub record Equipped (actor_id : ActorId) (item_id : ObjectId) (slot_id : ContentDefinitionId)
    (w w' : GameWorld) : Type 0 where
  pub worn : ItemRecord
  pub item_before : item_of item_id w ≡ some worn
  pub free : occupied actor_id item_id slot_id (items w) ≡ false
  pub objects_after : w'.objects ≡ insert item_id (item (worn_by actor_id slot_id worn)) w.objects

write_equip-Equipped :
    (actor_id : ActorId) (item_id : ObjectId) (slot_id : ContentDefinitionId)
    (registry : DefinitionRegistry) (w : GameWorld) {worn : ItemRecord} {w' : GameWorld}
    → write_equip actor_id item_id slot_id registry w ≡ ok (worn, w')
    → Equipped actor_id item_id slot_id w w'
unfolding write_equip check_equip
write_equip-Equipped actor_id item_id slot_id registry w h =
    elim (Option-cases (item_of item_id w)) [
      | inl e ↦ ground (arith, e)
      | inr (i, e) ↦ record {
        worn = i;
        item_before = e;
        free = ground (arith, e);
        objects_after = ground (arith, e, get-item item_id w e);
      }
    ]

equip_item-cases :
    (g : IdGenerator) (actor_id : ActorId) (item_id : ObjectId) (slot_id : ContentDefinitionId)
    (action_id : ActionId) (revision : Revision) (registry : DefinitionRegistry) (w : GameWorld)
    (s : g.Ids)
    → ((equip_item g actor_id item_id slot_id action_id revision registry w s).world ≡ w)
      ⊎ Equipped actor_id item_id slot_id w
          (equip_item g actor_id item_id slot_id action_id revision registry w s).world
unfolding equip_item conclude
equip_item-cases g actor_id item_id slot_id action_id revision registry w s =
    elim (Result-cases (write_equip actor_id item_id slot_id registry w)) [
      | inr (e, q) ↦ inl (ground (arith, q))
      | inl ((worn, w'), q) ↦
          inr (rw (world_at q) (write_equip-Equipped actor_id item_id slot_id registry w q))
    ]
  where
    world_at :
        {worn : ItemRecord} {w' : GameWorld}
        → write_equip actor_id item_id slot_id registry w ≡ ok (worn, w')
        → (equip_item g actor_id item_id slot_id action_id revision registry w s).world ≡ w'
    world_at q = ground (arith, q)

-- An item that is not the one to be equipped does not have the slot.
unoccupied :
    (actor_id : ActorId) (item_id : ObjectId) (slot_id : ContentDefinitionId)
    (m : Map ObjectId DomainRecord) (id : ObjectId) (i : ItemRecord)
    → occupied actor_id item_id slot_id (items_among m) ≡ false
    → get id m ≡ some (item i)
    → (i.id == item_id) ≡ false
    → some_and
        (λ (e : EquippedState). e.wearer_id == actor_id && text_beq e.slot_id slot_id)
        i.equipped
      ≡ false
unfolding occupied get
unoccupied actor_id item_id slot_id [] id i h e n = ground arith
unoccupied actor_id item_id slot_id ((j, r) ∷ m) id i h e n =
    ground (arith, unoccupied actor_id item_id slot_id m id i)

module _ (actor_id : ActorId) (item_id : ObjectId) (slot_id : ContentDefinitionId)
    (w w' : GameWorld) (t : Equipped actor_id item_id slot_id w w') where
  item_of-equipped :
      (id : ObjectId)
      → item_of id w'
        ≡ (if item_id == id then some (worn_by actor_id slot_id t.worn) else item_of id w)
  unfolding item_of
  item_of-equipped id = ground (
    arith,
    t.objects_after,
    get-insert item_id id (item (worn_by actor_id slot_id t.worn)) w.objects,
  )

  others-free :
      (id : ObjectId) {i : ItemRecord}
      → IsIndexed w
      → (item_id == id) ≡ false
      → item_of id w ≡ some i
      → some_and
          (λ (e : EquippedState). e.wearer_id == actor_id && text_beq e.slot_id slot_id)
          i.equipped
        ≡ false
  others-free id {i = i} x n e =
      unoccupied actor_id item_id slot_id w.objects id i t.free (get-item id w e)
        (ground (arith, x id i e, ==_iff id item_id, n))

  Equipped-IsIndexed : IsIndexed w → IsIndexed w'
  Equipped-IsIndexed x id i e =
      ground (arith, item_of-equipped id, x id i, x item_id t.worn t.item_before, ==_iff item_id id)

  -- An item that was stored before is not worn in the slot, except the one that is equipped.
  not-shared :
      (a b : ObjectId) (i j : ItemRecord) (e : EquippedState)
      → IsIndexed w
      → (item_id == a) ≡ true
      → item_of a w' ≡ some i
      → item_of b w' ≡ some j
      → i.equipped ≡ some e
      → j.equipped ≡ some e
      → a ≡ b
  not-shared a b i j e x y p q r s = elim (Bool-cases (item_id == b)) [
    | inl z ↦ ground (arith, y, z, ==_iff item_id a, ==_iff item_id b)
    | inr n ↦ ground (
      arith,
      y,
      n,
      p,
      q,
      r,
      s,
      item_of-equipped a,
      item_of-equipped b,
      others-free b {i = j} x n,
      ==_iff actor_id actor_id,
      text_beq_iff slot_id slot_id,
    )
  ]

  Equipped-IsUnshared : IsIndexed w → IsUnshared w → IsUnshared w'
  Equipped-IsUnshared x u a b i j e p q r s = elim (Bool-cases (item_id == a)) [
    | inl y ↦ not-shared a b i j e x y p q r s
    | inr n ↦ elim (Bool-cases (item_id == b)) [
      | inl z ↦ sym (not-shared b a j i e x z q p s r)
      | inr k ↦
          u a b i j e (ground (arith, n, p, item_of-equipped a))
            (ground (arith, k, q, item_of-equipped b)) r s
    ]
  ]

-- Where items are stored under their own identifiers and no two are worn by one character in one
-- slot, that still holds after an item is equipped, or refused.
pub equip_item-IsUnshared :
    (g : IdGenerator) (actor_id : ActorId) (item_id : ObjectId) (slot_id : ContentDefinitionId)
    (action_id : ActionId) (revision : Revision) (registry : DefinitionRegistry) (w : GameWorld)
    (s : g.Ids)
    → IsIndexed w
    → IsUnshared w
    → IsIndexed (equip_item g actor_id item_id slot_id action_id revision registry w s).world
      × IsUnshared (equip_item g actor_id item_id slot_id action_id revision registry w s).world
equip_item-IsUnshared g actor_id item_id slot_id action_id revision registry w s x u =
    elim (equip_item-cases g actor_id item_id slot_id action_id revision registry w s) [
      | inl same ↦ rw same (x, u)
      | inr t ↦ (
        Equipped-IsIndexed actor_id item_id slot_id w _ t x,
        Equipped-IsUnshared actor_id item_id slot_id w _ t x u,
      )
    ]
