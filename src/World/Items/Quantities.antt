-- ===== src/World/Items/Quantities.antt =====
-- A split of a stack keeps the quantity of every kind of item.
use loreloom.Prelude.{
  ℕ, ◌-◌, ◌<◌, ◌≡◌, ◌≢◌, ap, inl, inr, arith, Option, none, some, ◌==◌, if◌then◌else◌, nat_eq,
  text_beq, Result-cases, ok, err, >>=-eq-ok, ◌>>=◌,
}
use loreloom.Prelude.Map.{get, get-insert, insert}
use loreloom.Prelude.Map.Totals.{total, total-insert, total-insert_new}
use loreloom.Core.Revision.{Revision}
use loreloom.Core.Domain.{DomainRecord, item, object_id}
use loreloom.Core.Domain.Identities.{ObjectId, ActorId, ActionId, ContentDefinitionId}
use loreloom.Core.Domain.Objects.{ItemRecord}
use loreloom.World.Types.{
  WorldError, GameWorld, IdGenerator, ChangeParts, generate, item_of, as_item, conclude,
  spawn_record,
}
use loreloom.World.Items.{split_stack, check_split, write_split, place_split}
use loreloom.World.Items.Written.{get-item}

abbrev stacked : ContentDefinitionId → Option ItemRecord → ℕ
stacked d none = 0
stacked d (some i) = if text_beq i.definition_id d then i.stack else 0

-- How many items of a definition there are, over all stacks.
abbrev pub quantity_of : ContentDefinitionId → GameWorld → ℕ
quantity_of d w = total (λ r. stacked d (as_item r)) w.objects

-- No stack is empty.
abbrev pub IsStocked : GameWorld → Type 0
IsStocked w = (id : ObjectId) (i : ItemRecord) → item_of id w ≡ some i → 0 < i.stack

-- What a split writes, once it is accepted.
pub record Split (item_id : ObjectId) (w w' : GameWorld) : Type 0 where
  pub source : ItemRecord
  pub new_id : ObjectId
  pub quantity : ℕ
  pub middle : GameWorld
  pub item_before : item_of item_id w ≡ some source
  pub some_taken : 0 < quantity
  pub some_left : quantity < source.stack
  pub middle_objects :
      middle.objects
      ≡ insert item_id (item (record source { stack = source.stack - quantity })) w.objects
  pub is_new : get new_id middle.objects ≡ none
  pub objects_after :
      w'.objects
      ≡ insert new_id (item (record source { id = new_id; stack = quantity })) middle.objects

check_split-ok :
    (actor_id : ActorId) (item_id : ObjectId) (quantity : ℕ) (w : GameWorld) {source : ItemRecord}
    → check_split actor_id item_id quantity w ≡ ok source
    → (item_of item_id w ≡ some source) × (0 < quantity) × (quantity < source.stack)
unfolding check_split
check_split-ok actor_id item_id quantity w h = ground arith

-- What `write_split` returns.
record Halves (source : ItemRecord) (item_id new_id : ObjectId) (quantity : ℕ) (split : ItemRecord)
    (w w' : GameWorld) : Type 0 where
  pub split_item : split ≡ record source { id = new_id; stack = quantity }
  pub left_objects :
      w'.objects
      ≡ insert item_id (item (record source { stack = source.stack - quantity })) w.objects

write_split-Halves :
    (source : ItemRecord) (item_id new_id : ObjectId) (quantity : ℕ) (w : GameWorld)
    {split left : ItemRecord} {w' : GameWorld}
    → item_of item_id w ≡ some source
    → write_split source item_id new_id quantity w ≡ ok (split, left, w')
    → Halves source item_id new_id quantity split w w'
unfolding write_split
write_split-Halves source item_id new_id quantity w e h = record {
  split_item = ground (arith, get-item item_id w e);
  left_objects = ground (arith, get-item item_id w e);
}

spawn_record-ok :
    (i : ItemRecord) (w : GameWorld) {w' : GameWorld}
    → spawn_record (item i) w ≡ ok w'
    → (get i.id w.objects ≡ none) × (w'.objects ≡ insert i.id (item i) w.objects)
unfolding spawn_record object_id
spawn_record-ok i w h = ground arith

module _ (g : IdGenerator) (actor_id : ActorId) (item_id : ObjectId) (quantity : ℕ)
    (action_id : ActionId) (revision : Revision) (w : GameWorld) (s : g.Ids) where
  Halves-Split :
      (source : ItemRecord) (new_id : ObjectId) (split : ItemRecord) (middle w' : GameWorld)
      → item_of item_id w ≡ some source
      → 0 < quantity
      → quantity < source.stack
      → Halves source item_id new_id quantity split w middle
      → get split.id middle.objects ≡ none
      → w'.objects ≡ insert split.id (item split) middle.objects
      → Split item_id w w'
  Halves-Split source new_id split middle w' e p q m new after = record {
    source = source;
    new_id = new_id;
    quantity = quantity;
    middle = middle;
    item_before = e;
    some_taken = p;
    some_left = q;
    middle_objects = m.left_objects;
    is_new = rw m.split_item at new;
    objects_after = rw m.split_item at after;
  }

  place_split-world :
      (split left : ItemRecord) (middle w' : GameWorld) (rest : g.Ids)
      → spawn_record (item split) middle ≡ ok w'
      → (place_split g actor_id item_id quantity action_id revision
          (split, left, middle)
          rest).world
        ≡ w'
  unfolding place_split conclude
  place_split-world split left middle w' rest f = ground (arith, f)

  place_split-Split :
      (source : ItemRecord) (new_id : ObjectId) (split left : ItemRecord) (middle : GameWorld)
      (rest : g.Ids) {parts : ChangeParts}
      → item_of item_id w ≡ some source
      → 0 < quantity
      → quantity < source.stack
      → Halves source item_id new_id quantity split w middle
      → (place_split g actor_id item_id quantity action_id revision
          (split, left, middle)
          rest).result
        ≡ ok parts
      → Split item_id w
          (place_split g actor_id item_id quantity action_id revision
            (split, left, middle)
            rest).world
  unfolding place_split
  place_split-Split source new_id split left middle rest e p q m h =
      elim (Result-cases (spawn_record (item split) middle)) [
        | inr (x, f) ↦ ground (arith, f)
        | inl (w', f) ↦
            (let (new, after) = spawn_record-ok split middle f in
              rw (place_split-world split left middle w' rest f)
                (Halves-Split source new_id split middle w' e p q m new after))
      ]

  split_stack-place :
      {source : ItemRecord} {parts : ItemRecord × ItemRecord × GameWorld}
      → check_split actor_id item_id quantity w ≡ ok source
      → ((generate g s).0 >>= λ new_id. write_split source item_id new_id quantity w) ≡ ok parts
      → split_stack g actor_id item_id quantity action_id revision w s
        ≡ place_split g actor_id item_id quantity action_id revision parts (generate g s).1
  unfolding split_stack
  split_stack-place f k = ground (arith, f, k)

  split_stack-unchecked :
      {e : WorldError} {parts : ChangeParts}
      → check_split actor_id item_id quantity w ≡ err e
      → (split_stack g actor_id item_id quantity action_id revision w s).result ≢ ok parts
  unfolding split_stack
  split_stack-unchecked f = λ h. ground (arith, f)

  split_stack-refused :
      {source : ItemRecord} {e : WorldError} {parts : ChangeParts}
      → check_split actor_id item_id quantity w ≡ ok source
      → ((generate g s).0 >>= λ new_id. write_split source item_id new_id quantity w) ≡ err e
      → (split_stack g actor_id item_id quantity action_id revision w s).result ≢ ok parts
  unfolding split_stack
  split_stack-refused f k = λ h. ground (arith, f, k)

  split_stack-Split :
      {parts : ChangeParts}
      → (split_stack g actor_id item_id quantity action_id revision w s).result ≡ ok parts
      → Split item_id w (split_stack g actor_id item_id quantity action_id revision w s).world
  split_stack-Split h = elim (Result-cases (check_split actor_id item_id quantity w)) [
    | inr (x, f) ↦ absurd (split_stack-unchecked f h)
    | inl (source, f) ↦
        (let (e, p, q) = check_split-ok actor_id item_id quantity w f in
          elim (Result-cases
            ((generate g s).0 >>= λ new_id. write_split source item_id new_id quantity w)) [
              | inr (x, k) ↦ absurd (split_stack-refused f k h)
              | inl ((split, left, middle), k) ↦
                  (let (new_id, made, halves) =
                      >>=-eq-ok (generate g s).0
                        (λ new_id. write_split source item_id new_id quantity w) k in
                    rw (split_stack-place f k) (
                      place_split-Split source new_id split left middle (generate g s).1 e p q
                        (write_split-Halves source item_id new_id quantity w e halves)
                        (rw (split_stack-place f k) at h)))
            ])
  ]

abbrev left : {item_id : ObjectId} {w w' : GameWorld} → Split item_id w w' → ItemRecord
left t = record t.source { stack = t.source.stack - t.quantity }

abbrev taken : {item_id : ObjectId} {w w' : GameWorld} → Split item_id w w' → ItemRecord
taken t = record t.source { id = t.new_id; stack = t.quantity }

module _ (item_id : ObjectId) (w w' : GameWorld) (t : Split item_id w w') where
  quantity_of-Split : (d : ContentDefinitionId) → quantity_of d w' ≡ quantity_of d w
  quantity_of-Split d =
      let f = λ (r : DomainRecord). stacked d (as_item r) in
      ground (
        arith,
        t.some_left,
        ap (total f) t.objects_after,
        ap (total f) t.middle_objects,
        total-insert f item_id (item (left t)) (item t.source) w.objects
            (get-item item_id w t.item_before),
        total-insert_new f t.new_id (item (taken t)) t.middle.objects t.is_new,
      )

  item_of-Split :
      (id : ObjectId)
      → item_of id w' ≡ (
          if t.new_id == id
          then some (taken t)
          else if item_id == id
          then some (left t)
          else item_of id w)
  unfolding item_of
  item_of-Split id = ground (
    arith,
    t.objects_after,
    t.middle_objects,
    get-insert t.new_id id (item (taken t)) t.middle.objects,
    get-insert item_id id (item (left t)) w.objects,
  )

  Split-IsStocked : IsStocked w → IsStocked w'
  Split-IsStocked h id i e = ground (arith, e, item_of-Split id, h id i, t.some_taken, t.some_left)

-- A split of a stack that returns its parts keeps the quantity of each item definition over all
-- stacks and, if no stack was empty, leaves no stack empty.
pub split_stack-conserves :
    (g : IdGenerator) (actor_id : ActorId) (item_id : ObjectId) (quantity : ℕ)
    (action_id : ActionId) (revision : Revision) (w : GameWorld) (s : g.Ids) {parts : ChangeParts}
    → (split_stack g actor_id item_id quantity action_id revision w s).result ≡ ok parts
    → ((d : ContentDefinitionId)
        → quantity_of d (split_stack g actor_id item_id quantity action_id revision w s).world
          ≡ quantity_of d w)
      × (IsStocked w
          → IsStocked (split_stack g actor_id item_id quantity action_id revision w s).world)
split_stack-conserves g actor_id item_id quantity action_id revision w s h =
    let t = split_stack-Split g actor_id item_id quantity action_id revision w s h in
    (quantity_of-Split item_id w _ t, Split-IsStocked item_id w _ t)
