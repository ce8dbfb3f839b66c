-- ===== src/World/Containers/Weighing.antt =====
-- What `item_tree_weight` of crates/loreloom-world/src/game_world.rs adds up.
use loreloom.Prelude.{
  ℕ, zero, suc, ◌≡◌, sym, refl, if◌then◌else◌, ok_or, ◌>>=◌, ◌∙◌, true, Bool-cases, inl, inr, arith,
  none, Option-cases, List, [], ◌∷◌, Result, nat_eq, ok, err, map_err, some, false, Option,
  Result-cases,
}
use loreloom.Prelude.Map.{contains}
use loreloom.Core.Fixed.{Fixed, add}
use loreloom.Core.Domain.Identities.{ObjectId}
use loreloom.Core.Domain.Objects.{ItemRecord}
use loreloom.World.Types.{GameWorld, WorldError, invariant, wrong_object_kind, item_of, items}
use loreloom.World.Containers.{
  DefinitionRegistry, tree_weight, own_weight, add_children, finished, is_id,
}

module _ (w : GameWorld) (registry : DefinitionRegistry) where
  -- One item, with what its children weigh.
  abbrev pub body :
      List ObjectId
      → ObjectId
      → (ItemRecord → Result (Option WorldError) Fixed)
      → Result (Option WorldError) Fixed
  body visited id weigh =
      if contains id visited then err (some (invariant "item.container_cycle")) else (do
        i ← map_err some (ok_or (item_of id w) (wrong_object_kind id))
        own ← map_err some (own_weight registry i)
        add_children some weigh id own (items w))

  pub tree_weight-body :
      (f : ℕ) (visited : List ObjectId) (id : ObjectId)
      → tree_weight (suc f) w registry visited id
        ≡ body visited id (λ child. tree_weight f w registry (id ∷ visited) child.id)
  unfolding tree_weight
  tree_weight-body f visited id = refl

  -- What an item weighs with all that it holds, told without visits and steps: its own weight, and that of
  -- each item inside it.
  mutual
    pub data Weighs : ObjectId → Fixed → Type 0 where
      heavy :
          (id : ObjectId) (i : ItemRecord) (own total : Fixed)
          → item_of id w ≡ some i
          → own_weight registry i ≡ ok own
          → Sums id own (items w) total
          → Weighs id total

    pub data Sums : ObjectId → Fixed → List ItemRecord → Fixed → Type 0 where
      all_added : (id : ObjectId) (total : Fixed) → Sums id total [] total
      inside :
          (id : ObjectId) (so_far weight next total : Fixed) (child : ItemRecord)
          (rest : List ItemRecord)
          → is_id child.contained_by id ≡ true
          → Weighs child.id weight
          → add so_far weight ≡ ok next
          → Sums id next rest total
          → Sums id so_far (child ∷ rest) total
      elsewhere :
          (id : ObjectId) (so_far total : Fixed) (child : ItemRecord) (rest : List ItemRecord)
          → is_id child.contained_by id ≡ false
          → Sums id so_far rest total
          → Sums id so_far (child ∷ rest) total

  add_children-Sums :
      (weigh : ItemRecord → Result (Option WorldError) Fixed) (id : ObjectId) (so_far : Fixed)
      (children : List ItemRecord) {total : Fixed}
      → ((child : ItemRecord) (weight : Fixed) → weigh child ≡ ok weight → Weighs child.id weight)
      → add_children some weigh id so_far children ≡ ok total
      → Sums id so_far children total
  unfolding add_children
  add_children-Sums weigh id so_far [] {total} h e =
      let same : so_far ≡ total = ground arith in rw (← same) (all_added id so_far)
  add_children-Sums weigh id so_far (child ∷ rest) {total} h e =
      elim (Bool-cases (is_id child.contained_by id)) [
        | inr out ↦
            elsewhere id so_far total child rest out
              (add_children-Sums weigh id so_far rest h (rw (out, add_children) at e))
        | inl within ↦ elim (Result-cases (weigh child)) [
          | inr (x, bad) ↦ absurd (cc (rw (within, add_children, bad) at e))
          | inl (weight, good) ↦ elim (Result-cases (add so_far weight)) [
            | inr (x, bad) ↦ absurd (cc (rw (within, add_children, good, bad) at e))
            | inl (next, fits) ↦
                inside id so_far weight next total child rest within (h child weight good) fits (
                  add_children-Sums weigh id next rest h
                    (rw (within, add_children, good, fits) at e))
          ]
        ]
      ]

  body-Weighs :
      (visited : List ObjectId) (id : ObjectId)
      (weigh : ItemRecord → Result (Option WorldError) Fixed) {total : Fixed}
      → ((child : ItemRecord) (weight : Fixed) → weigh child ≡ ok weight → Weighs child.id weight)
      → body visited id weigh ≡ ok total
      → Weighs id total
  body-Weighs visited id weigh {total} h e = elim (Bool-cases (contains id visited)) [
    | inl y ↦ absurd (cc (rw y at e))
    | inr n ↦ elim (Option-cases (item_of id w)) [
      | inl missing ↦ absurd (cc (rw (n, missing) at e))
      | inr (i, there) ↦ elim (Result-cases (own_weight registry i)) [
        | inr (x, bad) ↦ absurd (cc (rw (n, there, bad) at e))
        | inl (own, good) ↦
            heavy id i own total there good
              (add_children-Sums weigh id own (items w) h (rw (n, there, good) at e))
      ]
    ]
  ]

  tree_weight-Weighs :
      (f : ℕ) (visited : List ObjectId) (id : ObjectId) (total : Fixed)
      → tree_weight f w registry visited id ≡ ok total
      → Weighs id total
  tree_weight-Weighs zero visited id total e = absurd (unfold tree_weight in cc e)
  tree_weight-Weighs (suc f) visited id total e =
      body-Weighs visited id _
        (λ child weight here. tree_weight-Weighs f (id ∷ visited) child.id weight here)
        (sym (tree_weight-body f visited id) ∙ e)

  -- A weight that is returned is the weight of the item.
  abbrev pub IsWeight : ObjectId → Result WorldError Fixed → Type 0
  IsWeight id (ok total) = Weighs id total
  IsWeight id (err e) = Unit

  pub finished-IsWeight :
      (f : ℕ) (id : ObjectId) (r : Result (Option WorldError) Fixed)
      → tree_weight f w registry [] id ≡ r
      → IsWeight id (finished r)
  finished-IsWeight f id (ok total) e = tree_weight-Weighs f [] id total e
  finished-IsWeight f id (err (some x)) e = tt
  finished-IsWeight f id (err none) e = tt
